-- ===== src/Checkout/Ends.antt =====
-- Every outcome of the first transaction of a checkout leaves its answer behind:
-- backend/app/modules/checkout/application/checkout.py.
use eventcommerce.Base.{String, ◌≡◌, refl, Option, none, some, string_eq, ap, subst, sym}
use eventcommerce.Result.{Result, ok, err, value_error}
use eventcommerce.Session.{Db, Action, pure, or_raise, ◌>>=◌, ◌>>◌}
use eventcommerce.Messaging.Events.{ResponseBody}
use eventcommerce.Messaging.Idempotency.{
  ClaimResult, CachedResponse, new, replay_match, conflict, claim, fetch_cached, claim_row, cached,
}
use eventcommerce.Orders.Domain.{Order}
use eventcommerce.Checkout.Request.{CheckoutRequest}
use eventcommerce.Checkout.Execute.{
  CheckoutServices, CheckoutResult, checkout_consumer_name, created_status_code, Outcome, placed,
  result_of, from_cached, on_claim, claim_request, complete, place, place_unless, commerce,
}
use eventcommerce.Checkout.Answers.{Answers, claim-Replayed, complete_with_response-Answers}

module _ (key request_hash : String) where
  -- Every outcome of `m` leaves its result as the answer to the key.
  pub record Ends (m : Action Outcome) : Type 0 where
    pub at :
        (db after : Db) (outcome : Outcome)
        → m db ≡ (ok outcome, after)
        → Answers key request_hash (result_of outcome) after

  bind-Ends :
      {A : Type 0} (r : Result A) (f : A → Action Outcome) (db after : Db) (outcome : Outcome)
      → ((a : A) → Ends (f a))
      → ((λ _. (r, db)) >>= f) db ≡ (ok outcome, after)
      → Answers key request_hash (result_of outcome) after
  bind-Ends (ok a) f db after outcome ends e = (ends a).at db after outcome e
  bind-Ends (err x) f db after outcome ends e = cc

  Ends-bind :
      {A : Type 0} (m : Action A) (f : A → Action Outcome) → ((a : A) → Ends (f a)) → Ends (m >>= f)
  Ends-bind m f ends = record {
    at = λ db after outcome e. bind-Ends (m db).0 f (m db).1 after outcome ends e;
  }

  fetched :
      (found : Option CachedResponse) (db after : Db) (result : CheckoutResult)
      → from_cached found db ≡ (ok (some result), after)
      → (found ≡ some (record { status = result.status_code; body = result.body })) × (db ≡ after)
  fetched none db after result e = cc
  fetched (some response) db after result e = (
    ap
        (λ (r : Option CheckoutResult). elim r [
          | none ↦ none
          | some x ↦ some (record { status = x.status_code; body = x.body })
        ])
        (ap (λ (r : Result (Option CheckoutResult) × Db). elim r.0 [ ok x ↦ x | err _ ↦ none ]) e),
    ap (λ (r : Result (Option CheckoutResult) × Db). r.1) e,
  )

  -- A request that finds its response among the claims answers from the row.
  on_claim-Answers :
      (c : ClaimResult) (db mid after : Db) (result : CheckoutResult)
      → claim key checkout_consumer_name request_hash db ≡ (ok c, mid)
      → on_claim key c mid ≡ (ok (some result), after)
      → Answers key request_hash result after
  unfolding fetch_cached
  on_claim-Answers new db mid after result is e = cc
  on_claim-Answers conflict db mid after result is e = cc
  on_claim-Answers replay_match db mid after result is e =
      let r = claim-Replayed key request_hash db mid is in
      let here =
        subst (λ x. claim_row key checkout_consumer_name x ≡ some r.row) r.unchanged r.found in
      let (response, same) =
        fetched (cached (claim_row key checkout_consumer_name mid)) mid after result e in
      record {
        row = r.row;
        found = subst (λ x. claim_row key checkout_consumer_name x ≡ some r.row) same here;
        completed = r.completed;
        hash = r.hash;
        response = rw here at response;
      }

  claimed-Answers :
      (c : Result ClaimResult) (db mid after : Db) (result : CheckoutResult)
      → claim key checkout_consumer_name request_hash db ≡ (c, mid)
      → ((λ _. (c, mid)) >>= on_claim key) db ≡ (ok (some result), after)
      → Answers key request_hash result after
  claimed-Answers (ok c) db mid after result is e = on_claim-Answers c db mid after result is e
  claimed-Answers (err x) db mid after result is e = cc

  claim_request-Answers :
      (db after : Db) (result : CheckoutResult)
      → claim_request request_hash (some key) db ≡ (ok (some result), after)
      → Answers key request_hash result after
  unfolding claim_request
  claim_request-Answers db after result e =
      claimed-Answers (claim key checkout_consumer_name request_hash db).0 db
        (claim key checkout_consumer_name request_hash db).1 after result refl e

-- The result of an order that was placed.
abbrev created : ResponseBody → CheckoutResult
created body = record { status_code = created_status_code; body = body }

module _ (services : CheckoutServices) (key : String) where
  completed-Ends :
      (request_hash : String) (order : Order) (body : ResponseBody)
      → Ends key request_hash
          (complete services (some key) request_hash body >> pure (placed order (created body)))
  completed-Ends request_hash order body = record {
    at = λ db after outcome e.
        go (complete services (some key) request_hash body db).0 db
          (complete services (some key) request_hash body db).1 after outcome refl e;
  }
    where
      go :
          (r : Result Unit) (db mid after : Db) (outcome : Outcome)
          → complete services (some key) request_hash body db ≡ (r, mid)
          → ((λ _. (r, mid)) >> pure (placed order (created body))) db ≡ (ok outcome, after)
          → Answers key request_hash (result_of outcome) after
      go (err x) db mid after outcome is e = cc
      go (ok _) db mid after outcome is e =
          let same : mid ≡ after = ap (λ (r : Result Outcome × Db). r.1) e in
          let out : created body ≡ result_of outcome =
            ap (λ (r : Result Outcome × Db). elim r.0 [ ok x ↦ result_of x | err _ ↦ created body ])
              e in
          subst (λ x. Answers key request_hash x after) out
            (subst (Answers key request_hash (created body)) same (
              complete_with_response-Answers key request_hash services.response_bytes
                created_status_code body db mid is))

  place-Ends :
      (customer_id : String) (request : CheckoutRequest)
      → request.idempotency_key ≡ some key
      → Ends key (services.request_hash request) (place services customer_id request)
  unfolding place
  place-Ends customer_id request keyed = rw keyed (search (Ends-bind, completed-Ends) depth 9)

  resumed :
      (customer_id : String) (request : CheckoutRequest) (r : Result (Option CheckoutResult))
      (db mid after : Db) (outcome : Outcome)
      → request.idempotency_key ≡ some key
      → claim_request (services.request_hash request) (some key) db ≡ (r, mid)
      → ((λ _. (r, mid)) >>= place_unless services customer_id request) db ≡ (ok outcome, after)
      → Answers key (services.request_hash request) (result_of outcome) after
  resumed customer_id request (err x) db mid after outcome keyed is e = cc
  resumed customer_id request (ok none) db mid after outcome keyed is e =
      (place-Ends customer_id request keyed).at mid after outcome e
  resumed customer_id request (ok (some result)) db mid after outcome keyed is e =
      let same : mid ≡ after = ap (λ (r : Result Outcome × Db). r.1) e in
      let out : result ≡ result_of outcome =
        ap (λ (r : Result Outcome × Db). elim r.0 [ ok x ↦ result_of x | err _ ↦ result ]) e in
      subst (λ x. Answers key (services.request_hash request) x after) out
        (subst (Answers key (services.request_hash request) result) same
          (claim_request-Answers key (services.request_hash request) db mid result is))

  claimed-Ends :
      (customer_id : String) (request : CheckoutRequest)
      → request.idempotency_key ≡ some key
      → Ends key (services.request_hash request) (
          claim_request (services.request_hash request) (some key)
          >>= place_unless services customer_id request)
  claimed-Ends customer_id request keyed = record {
    at = λ db after outcome e.
        resumed customer_id request (claim_request (services.request_hash request) (some key) db).0
          db (claim_request (services.request_hash request) (some key) db).1 after outcome keyed
          refl e;
  }

  pub commerce-Ends :
      (request : CheckoutRequest)
      → request.idempotency_key ≡ some key
      → Ends key (services.request_hash request) (commerce services request)
  unfolding commerce
  commerce-Ends request keyed =
      subst
        (λ k. Ends key (services.request_hash request) (
          or_raise request.customer_id value_error >>= λ customer_id.
          claim_request (services.request_hash request) k
          >>= place_unless services customer_id request))
        (sym keyed)
        (Ends-bind key (services.request_hash request) (or_raise request.customer_id value_error)
          (λ customer_id.
            claim_request (services.request_hash request) (some key)
            >>= place_unless services customer_id request)
          (λ customer_id. claimed-Ends customer_id request keyed))
