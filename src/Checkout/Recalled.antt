-- ===== src/Checkout/Recalled.antt =====
-- Whatever checkouts come after it, the row of a key whose response is stored stays:
-- backend/app/modules/checkout/application/checkout.py.
use eventcommerce.Base.{
  String, false, ◌≡◌, Option, none, some, ◌==◌, string_eq, pair_eq, Bool-cases, inl, inr,
  Option-cases, eq_iff, ap, sym, subst, ◌∙◌,
}
use eventcommerce.Result.{value_error}
use eventcommerce.Session.{Db, pure, or_raise, in_transaction, ◌>>=◌, ◌>>◌}
use eventcommerce.Session.Keeps.{Keeps, keeps_rules, Keeps-bind, Keeps-or_raise}
use eventcommerce.Messaging.Events.{ProcessedEvent, ResponseBody}
use eventcommerce.Messaging.Idempotency.{ClaimResult, new, replay_match, conflict, fetch_cached}
use eventcommerce.Checkout.Request.{CheckoutRequest}
use eventcommerce.Checkout.Execute.{
  CheckoutServices, CheckoutResult, created_status_code, place, place_unless, commerce, execute,
  complete, notify, result_of, claim_request, on_claim,
}
use eventcommerce.Checkout.Kept.{Keeps-try_commerce, Keeps-resolve_inputs, Keeps-notify}
use eventcommerce.Checkout.Answers.{Answers}
use eventcommerce.Checkout.Replay.{execute-answered}
use eventcommerce.Checkout.Remembered.{
  Remembers, claim-Remembers, complete-Remembers, conclude-Remembers, create_order-Remembers,
  reserve_and_pay-Remembers, Remembers-Writes,
}

module _ (key : String) (row : ProcessedEvent) where
  module _ (services : CheckoutServices) (request : CheckoutRequest)
      (claims : Keeps
        (Remembers key row)
        (claim_request (services.request_hash request) request.idempotency_key))
      (completes : (body : ResponseBody)
        → Keeps
            (Remembers key row)
            (complete services request.idempotency_key (services.request_hash request) body)) where
    place-Remembers :
        (customer_id : String) → Keeps (Remembers key row) (place services customer_id request)
    unfolding place
    place-Remembers customer_id =
        search
          (
            keeps_rules, create_order-Remembers, reserve_and_pay-Remembers, Keeps-try_commerce,
            Keeps-resolve_inputs, completes, conclude-Remembers,
          )
          depth 12

    place_unless-Remembers :
        (customer_id : String) (found : Option CheckoutResult)
        → Keeps (Remembers key row) (place_unless services customer_id request found)
    place_unless-Remembers customer_id none = place-Remembers customer_id
    place_unless-Remembers customer_id (some result) = search keeps_rules

    commerce-Remembers : Keeps (Remembers key row) (commerce services request)
    unfolding commerce
    commerce-Remembers =
        Keeps-bind (or_raise request.customer_id value_error) _
          (Keeps-or_raise request.customer_id value_error)
          (λ customer_id.
            Keeps-bind (claim_request (services.request_hash request) request.idempotency_key)
              (place_unless services customer_id request) claims
              (place_unless-Remembers customer_id))

    execute_with-Remembers : Keeps (Remembers key row) (execute services request)
    unfolding execute
    execute_with-Remembers =
        search (keeps_rules, Remembers-Writes, Keeps-notify, commerce-Remembers) depth 9

  on_claim-Remembers :
      (other : String) (c : ClaimResult) → Keeps (Remembers key row) (on_claim other c)
  unfolding fetch_cached
  on_claim-Remembers other new = search keeps_rules
  on_claim-Remembers other conflict = search keeps_rules
  on_claim-Remembers other replay_match = search keeps_rules depth 9

  claim_request-Remembers :
      (other payload_hash : String)
      → (other == key) ≡ false
      → Keeps (Remembers key row) (claim_request payload_hash (some other))
  unfolding claim_request
  claim_request-Remembers other payload_hash differs =
      search (keeps_rules, claim-Remembers, on_claim-Remembers) depth 9

  -- A checkout without a key, or with another one.
  keyless-Remembers :
      (services : CheckoutServices) (request : CheckoutRequest)
      → request.idempotency_key ≡ none
      → Keeps (Remembers key row) (execute services request)
  unfolding claim_request
  keyless-Remembers services request keyless =
      execute_with-Remembers services request (rw keyless (search keeps_rules))
        (λ body. rw keyless (search keeps_rules))

  other-Remembers :
      (services : CheckoutServices) (request : CheckoutRequest) (other : String)
      → request.idempotency_key ≡ some other
      → (other == key) ≡ false
      → Keeps (Remembers key row) (execute services request)
  other-Remembers services request other keyed differs =
      execute_with-Remembers services request
        (subst
          (λ (k : Option String).
            Keeps (Remembers key row) (claim_request (services.request_hash request) k))
          (sym keyed) (claim_request-Remembers other (services.request_hash request) differs))
        (λ body.
          subst
            (λ (k : Option String).
              Keeps (Remembers key row) (complete services k (services.request_hash request) body))
            (sym keyed)
            (complete-Remembers key row other differs services.response_bytes created_status_code
              body (services.request_hash request)))

  -- A checkout of a request that names no customer.
  anonymous-Remembers :
      (services : CheckoutServices) (request : CheckoutRequest)
      → request.customer_id ≡ none
      → Keeps (Remembers key row) (execute services request)
  unfolding execute commerce
  anonymous-Remembers services request anonymous = record {
    at = λ db h.
        subst
          (λ (c : Option String).
            Remembers key row
              ((in_transaction (
                    or_raise c value_error >>= λ customer_id.
                    claim_request (services.request_hash request) request.idempotency_key
                    >>= place_unless services customer_id request)
                  >>= λ outcome. notify services outcome >> pure (result_of outcome))
                db).1)
          (sym anonymous) h;
  }

-- Once the response of a key is stored, its row stays, whatever checkouts come after it.
pub execute-Remembers :
    (services : CheckoutServices) (key request_hash : String) (result : CheckoutResult)
    (request : CheckoutRequest) (db : Db) (a : Answers key request_hash result db)
    → Remembers key a.row (execute services request db).1
execute-Remembers services key request_hash result request db a =
    elim (Option-cases request.idempotency_key) [
      | inl keyless ↦ (keyless-Remembers key a.row services request keyless).at db a.found
      | inr (other, keyed) ↦ elim (Bool-cases (other == key)) [
        | inr differs ↦
            (other-Remembers key a.row services request other keyed differs).at db a.found
        | inl same ↦ elim (Option-cases request.customer_id) [
          | inl anonymous ↦ (anonymous-Remembers key a.row services request anonymous).at db a.found
          | inr (customer_id, known) ↦
              let answered =
                execute-answered services key request_hash result db a customer_id request
                  (keyed ∙ ap some ((eq_iff other key).0 same)) known in
              rw answered (a.found)
        ]
      ]
    ]
