-- ===== src/Runtime/Claimed.antt =====
-- A use case that returns has left its claim in `processed_events`: the six consumers that
-- backend/app/messaging_runtime.py wires.
use eventcommerce.Base.{
  String, Bool, true, false, ◌≡◌, Option, List, ap, if◌then◌else◌, subst, Bool-cases, inl, inr,
}
use eventcommerce.Base.Decimal.{Decimal}
use eventcommerce.Result.{Uuid, Error, Result, ok, err}
use eventcommerce.Session.{Db, Action, raise, ◌>>=◌}
use eventcommerce.Messaging.Idempotency.{has_claim, is_processed, mark_processed}
use eventcommerce.Messaging.Claims.{mark_processed-has_claim}
use eventcommerce.Orders.Domain.{OrderItem}
use eventcommerce.Orders.Consumers.{
  once, stage_reserved, cancel_rejected, inventory_result_of, process_order_inventory_result,
  stage_authorized, cancel_declined, payment_result_of, process_order_payment_result,
  confirm_authorized, finalize_order, finalize_payment_authorized,
}
use eventcommerce.Inventory.UseCases.{
  process_inventory_reservation, compensate, process_payment_rejected,
}
use eventcommerce.Payments.UseCases.{charge_reserved, process_order_inventory_reserved}
use eventcommerce.Notifications.UseCases.{process_order_notification}

-- When `m` returns, the claim of the message by the consumer is there.
pub record Claims (event_id consumer_name : String) {A : Type 0} (m : Action A) : Type 0 where
  pub at : (db db' : Db) (a : A) → m db ≡ (ok a, db') → has_claim event_id consumer_name db' ≡ true

module _ (event_id consumer_name : String) where
  Claims-mark_processed : Claims event_id consumer_name (mark_processed event_id consumer_name)
  Claims-mark_processed = record {
    at = λ db db' a e.
        subst (λ after. has_claim event_id consumer_name after ≡ true)
          (ap (λ (r : Result Unit × Db). r.1) e)
          (mark_processed-has_claim event_id consumer_name db);
  }

  Claims-raise : {A : Type 0} (e : Error) → Claims event_id consumer_name (raise {A = A} e)
  Claims-raise e = record { at = λ db db' a h. cc }

  Claims-if :
      {A : Type 0} (b : Bool) (m n : Action A)
      → Claims event_id consumer_name m
      → Claims event_id consumer_name n
      → Claims event_id consumer_name (if b then m else n)
  Claims-if true m n p q = p
  Claims-if false m n p q = q

  bind-Claims :
      {A B : Type 0} (r : Result A) (f : A → Action B) (db db' : Db) (b : B)
      → ((a : A) → Claims event_id consumer_name (f a))
      → ((λ _. (r, db)) >>= f) db ≡ (ok b, db')
      → has_claim event_id consumer_name db' ≡ true
  bind-Claims (ok a) f db db' b kf e = (kf a).at db db' b e
  bind-Claims (err x) f db db' b kf e = cc

  -- Only the last part of a block has to claim.
  Claims-bind :
      {A B : Type 0} (m : Action A) (f : A → Action B)
      → ((a : A) → Claims event_id consumer_name (f a))
      → Claims event_id consumer_name (m >>= f)
  Claims-bind m f kf = record { at = λ db db' b e. bind-Claims (m db).0 f (m db).1 db' b kf e }

  -- A claim that was there before stays; otherwise `run` leaves one.
  Claims-once :
      (run : Action Unit)
      → Claims event_id consumer_name run
      → Claims event_id consumer_name (once event_id consumer_name run)
  unfolding once is_processed
  Claims-once run k = record {
    at = λ db db' a e. elim (Bool-cases (has_claim event_id consumer_name db)) [
      | inl done ↦
          subst (λ after. has_claim event_id consumer_name after ≡ true)
            (ap (λ (r : Result Unit × Db). r.1) (rw done at e)) done
      | inr fresh ↦ k.at db db' a (rw fresh at e)
    ];
  }

ruleset claim_rules = (Claims-mark_processed, Claims-raise, Claims-if, Claims-bind, Claims-once)

pub Claims-process_order_inventory_result :
    (event_id : String) (order_id : Uuid) (result : String)
    → Claims event_id "ProcessOrderInventoryResult"
        (process_order_inventory_result event_id order_id result)
unfolding process_order_inventory_result inventory_result_of stage_reserved cancel_rejected
Claims-process_order_inventory_result event_id order_id result = search claim_rules depth 9

pub Claims-process_order_payment_result :
    (event_id : String) (order_id : Uuid) (result : String)
    → Claims event_id "ProcessOrderPaymentResult"
        (process_order_payment_result event_id order_id result)
unfolding process_order_payment_result payment_result_of stage_authorized cancel_declined
Claims-process_order_payment_result event_id order_id result = search claim_rules depth 9

pub Claims-finalize_payment_authorized :
    (event_id : String) (order_id : Uuid)
    → Claims event_id "FinalizePaymentAuthorized" (finalize_payment_authorized event_id order_id)
unfolding finalize_payment_authorized finalize_order confirm_authorized
Claims-finalize_payment_authorized event_id order_id = search claim_rules depth 9

pub Claims-process_inventory_reservation :
    (parse_uuid : String → Option Uuid) (event_id order_id : String) (items : List OrderItem)
    → Claims event_id "ProcessInventoryReservation"
        (process_inventory_reservation parse_uuid event_id order_id items)
unfolding process_inventory_reservation
Claims-process_inventory_reservation parse_uuid event_id order_id items = search claim_rules depth 9

pub Claims-process_payment_rejected :
    (event_id : String) (order_id : Uuid)
    → Claims event_id "ProcessPaymentRejected" (process_payment_rejected event_id order_id)
unfolding process_payment_rejected compensate
Claims-process_payment_rejected event_id order_id = search claim_rules depth 9

pub Claims-process_order_inventory_reserved :
    (approval_policy : String → Decimal → String → Bool) (event_id : String) (order_id : Uuid)
    → Claims event_id "ProcessOrderInventoryReserved"
        (process_order_inventory_reserved approval_policy event_id order_id)
unfolding process_order_inventory_reserved charge_reserved
Claims-process_order_inventory_reserved approval_policy event_id order_id =
    search claim_rules depth 9

pub Claims-process_order_notification :
    (parse_uuid : String → Option Uuid) (event_id event_type aggregate_id : String)
    → Claims event_id "ProcessOrderNotification"
        (process_order_notification parse_uuid event_id event_type aggregate_id)
unfolding process_order_notification
Claims-process_order_notification parse_uuid event_id event_type aggregate_id =
    search claim_rules depth 9
