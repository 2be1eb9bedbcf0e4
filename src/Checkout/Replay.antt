-- ===== src/Checkout/Replay.antt =====
-- What a checkout that has returned leaves for later requests with its key:
-- backend/app/modules/checkout/application/checkout.py.
use eventcommerce.Base.{
  String, ◌≡◌, refl, some, if◌then◌else◌, ◌==◌, string_eq, Bool-cases, inl, inr, ap, subst, sym,
  ◌∙◌,
}
use eventcommerce.Result.{Result, ok, err, idempotency_conflict, value_error}
use eventcommerce.Session.{Db, uuid4, utc_now, pure, or_raise, in_transaction, ◌>>=◌, ◌>>◌, >>=-eq}
use eventcommerce.Session.Keeps.{Keeps, keeps_rules, Keeps-in_transaction}
use eventcommerce.Messaging.Idempotency.{claim, fetch_cached, claim_row}
use eventcommerce.Notifications.Domain.{Notification}
use eventcommerce.Notifications.UseCases.{send_order_notification, save_notification}
use eventcommerce.Checkout.Request.{CheckoutRequest}
use eventcommerce.Checkout.Execute.{
  CheckoutServices, CheckoutResult, checkout_consumer_name, Outcome, replayed, placed, result_of,
  notification_content, from_cached, on_claim, claim_request, place_unless, commerce, notify,
  notify_best_effort, execute,
}
use eventcommerce.Checkout.Answers.{Answers, Answers-claim, Answers-fetch_cached}
use eventcommerce.Checkout.Ends.{commerce-Ends}

module _ (key request_hash : String) (result : CheckoutResult) where
  pub moved :
      (db after : Db)
      → claim_row key checkout_consumer_name after ≡ claim_row key checkout_consumer_name db
      → Answers key request_hash result db
      → Answers key request_hash result after
  moved db after same a = record {
    row = a.row;
    found = same ∙ a.found;
    completed = a.completed;
    hash = a.hash;
    response = a.response;
  }

  Keeps-uuid4 : Keeps (Answers key request_hash result) uuid4
  Keeps-uuid4 = record { at = λ db a. moved db (uuid4 db).1 refl a }

  Keeps-utc_now : Keeps (Answers key request_hash result) utc_now
  Keeps-utc_now = record { at = λ db a. moved db (utc_now db).1 refl a }

  Keeps-save_notification :
      (notification : Notification)
      → Keeps (Answers key request_hash result) (save_notification notification)
  unfolding save_notification
  Keeps-save_notification notification = record {
    at = λ db a. moved db (save_notification notification db).1 refl a;
  }

  Keeps-send_order_notification :
      (order_id channel content : String)
      → Keeps (Answers key request_hash result) (send_order_notification order_id channel content)
  unfolding send_order_notification
  Keeps-send_order_notification order_id channel content =
      search (keeps_rules, Keeps-uuid4, Keeps-utc_now, Keeps-save_notification) depth 9

  -- The notification writes no claim.
  notify-Answers :
      (services : CheckoutServices) (outcome : Outcome) (db : Db)
      → Answers key request_hash result db
      → Answers key request_hash result (notify services outcome db).1
  unfolding notify_best_effort
  notify-Answers services (replayed _) db a = a
  notify-Answers services (placed order _) db a =
      (Keeps-in_transaction (send_order_notification order.id "email" (notification_content order))
          (Keeps-send_order_notification order.id "email" (notification_content order))).at
        db a

-- A notification never raises.
notify-ok :
    (services : CheckoutServices) (outcome : Outcome) (db : Db)
    → notify services outcome db ≡ (ok tt, (notify services outcome db).1)
unfolding notify_best_effort
notify-ok services (replayed _) db = refl
notify-ok services (placed _ _) db = refl

module _ (services : CheckoutServices) (key : String) where
  returned :
      (request_hash : String) (answer result : CheckoutResult) (mid after : Db)
      → Answers key request_hash answer mid
      → pure answer mid ≡ (ok result, after)
      → Answers key request_hash result after
  returned request_hash answer result mid after a e =
      subst (λ x. Answers key request_hash x after)
        (ap (λ (r : Result CheckoutResult × Db). elim r.0 [ ok x ↦ x | err _ ↦ answer ]) e)
        (subst (Answers key request_hash answer) (ap (λ (r : Result CheckoutResult × Db). r.1) e) a)

  notified :
      (request_hash : String) (r : Result Outcome) (db mid after : Db) (result : CheckoutResult)
      → ((outcome : Outcome) → r ≡ ok outcome → Answers key request_hash (result_of outcome) mid)
      → (in_transaction (λ _. (r, mid)) >>= λ outcome.
            notify services outcome >> pure (result_of outcome))
          db
        ≡ (ok result, after)
      → Answers key request_hash result after
  notified request_hash (err x) db mid after result answers e = cc
  notified request_hash (ok outcome) db mid after result answers e =
      returned request_hash (result_of outcome) result (notify services outcome mid).1 after
        (notify-Answers key request_hash (result_of outcome) services outcome mid
          (answers outcome refl))
        (sym (
            >>=-eq (notify services outcome) (λ _. pure (result_of outcome)) mid
              (notify-ok services outcome mid))
          ∙ e)

  pub execute-Answers :
      (request : CheckoutRequest) (db after : Db) (result : CheckoutResult)
      → request.idempotency_key ≡ some key
      → execute services request db ≡ (ok result, after)
      → Answers key (services.request_hash request) result after
  unfolding execute
  execute-Answers request db after result keyed e =
      notified (services.request_hash request) (commerce services request db).0 db
        (commerce services request db).1 after result
        (λ outcome is.
          (commerce-Ends services key request keyed).at db (commerce services request db).1 outcome
            (ap (λ r. (r, (commerce services request db).1)) is))
        e

module _ (services : CheckoutServices) (key request_hash : String) (result : CheckoutResult)
    (db : Db) (a : Answers key request_hash result db) where
  claim_request-answered :
      (other : String)
      → claim_request other (some key) db
        ≡ (if request_hash == other then ok (some result) else err idempotency_conflict, db)
  unfolding claim_request
  claim_request-answered other =
      >>=-eq (claim key checkout_consumer_name other) (on_claim key) db (Answers-claim other a)
      ∙ elim (Bool-cases (request_hash == other)) [
        | inl same ↦ rw same (
            >>=-eq (fetch_cached key checkout_consumer_name) from_cached db
              (Answers-fetch_cached a))
        | inr different ↦ rw different
      ]

  abbrev answer : CheckoutRequest → Result Outcome
  answer later =
      if request_hash == services.request_hash later
      then ok (replayed result)
      else err idempotency_conflict

  resumed-answered :
      (customer_id : String) (later : CheckoutRequest)
      → (claim_request (services.request_hash later) (some key)
            >>= place_unless services customer_id later)
          db
        ≡ (answer later, db)
  resumed-answered customer_id later =
      >>=-eq (claim_request (services.request_hash later) (some key))
        (place_unless services customer_id later) db
        (claim_request-answered (services.request_hash later))
      ∙ elim (Bool-cases (request_hash == services.request_hash later)) [
        | inl same ↦ rw same
        | inr different ↦ rw different
      ]

  commerce-answered :
      (customer_id : String) (later : CheckoutRequest)
      → later.idempotency_key ≡ some key
      → later.customer_id ≡ some customer_id
      → commerce services later db ≡ (answer later, db)
  unfolding commerce
  commerce-answered customer_id later keyed known =
      subst
        (λ c.
          (or_raise c value_error >>= λ customer_id.
          claim_request (services.request_hash later) later.idempotency_key
          >>= place_unless services customer_id later)
            db
          ≡ (answer later, db))
        (sym known)
        (subst
          (λ k.
            (claim_request (services.request_hash later) k
                >>= place_unless services customer_id later)
              db
            ≡ (answer later, db))
          (sym keyed) (resumed-answered customer_id later))

  pub execute-answered :
      (customer_id : String) (later : CheckoutRequest)
      → later.idempotency_key ≡ some key
      → later.customer_id ≡ some customer_id
      → execute services later db ≡ (
        if request_hash == services.request_hash later then ok result else err idempotency_conflict,
        db,
      )
  unfolding execute
  execute-answered customer_id later keyed known =
      ap
        (λ (r : Result Outcome × Db).
          (in_transaction (λ _. r) >>= λ outcome.
          notify services outcome >> pure (result_of outcome))
            db)
        (commerce-answered customer_id later keyed known)
      ∙ elim (Bool-cases (request_hash == services.request_hash later)) [
        | inl same ↦ rw same
        | inr different ↦ rw different
      ]
