-- ===== src/Runtime/Repeats.antt =====
-- The handlers of the queues, called a second time:
-- backend/app/messaging_runtime.py.
use eventcommerce.Base.{
  String, Bool, true, false, ◌≡◌, refl, Option, none, some, List, ap, subst, if◌then◌else◌,
  string_eq,
}
use eventcommerce.Result.{Uuid, Time, Error, Result, ok, err}
use eventcommerce.Session.{Db, Action, raise, or_raise, raise_if, ◌>>=◌, >>=-eq}
use eventcommerce.Session.Keeps.{Keeps, keeps_rules}
use eventcommerce.Messaging.Events.{EventType, Payload}
use eventcommerce.Messaging.Idempotency.{has_claim, is_processed}
use eventcommerce.Messaging.Claims.{mark_processed-has_claim_kept}
use eventcommerce.Messaging.Consumer.{Handler}
use eventcommerce.Orders.Domain.{Order, OrderItem}
use eventcommerce.Orders.UseCases.{get_order, record_transition}
use eventcommerce.Orders.Consumers.{
  once, process_order_inventory_result, process_order_payment_result, payment_result_of,
  stage_authorized, cancel_declined, finalize_payment_authorized,
}
use eventcommerce.Inventory.UseCases.{process_payment_rejected, process_inventory_reservation}
use eventcommerce.Payments.UseCases.{process_order_inventory_reserved}
use eventcommerce.Notifications.UseCases.{process_order_notification}
use eventcommerce.Runtime.Handlers.{
  Services, inventory_handler, orders_handler, payments_handler, payment_rejected_steps,
  orders_payment_handler, orders_finalizer, notifications_handler,
}
use eventcommerce.Runtime.Claimed.{
  Claims, Claims-process_order_inventory_result, Claims-process_order_payment_result,
  Claims-finalize_payment_authorized, Claims-process_inventory_reservation,
  Claims-process_payment_rejected, Claims-process_order_inventory_reserved,
  Claims-process_order_notification,
}

-- Called again on what it has left, `m` returns and changes nothing.
pub record Repeats (m : Action Unit) : Type 0 where
  pub at : (db db' : Db) → m db ≡ (ok tt, db') → m db' ≡ (ok tt, db')

Repeats-raise : (e : Error) → Repeats (raise e)
Repeats-raise e = record { at = λ db db' h. cc }

Repeats-or_raise :
    {A : Type 0} (o : Option A) (e : Error) (f : A → Action Unit)
    → ((a : A) → Repeats (f a))
    → Repeats (or_raise o e >>= f)
Repeats-or_raise none e f k = record { at = λ db db' h. cc }
Repeats-or_raise (some a) e f k = record { at = λ db db' h. (k a).at db db' h }

Repeats-raise_if :
    (c : Bool) (e : Error) (m : Action Unit) → Repeats m → Repeats (raise_if c e >>= λ _. m)
Repeats-raise_if true e m k = record { at = λ db db' h. cc }
Repeats-raise_if false e m k = record { at = λ db db' h. k.at db db' h }

Repeats-if : (c : Bool) (m n : Action Unit) → Repeats m → Repeats n → Repeats (if c then m else n)
Repeats-if true m n k l = k
Repeats-if false m n k l = l

-- Under a claim a consumer does nothing.
once_claimed :
    (event_id consumer_name : String) (run : Action Unit) (db : Db)
    → has_claim event_id consumer_name db ≡ true
    → once event_id consumer_name run db ≡ (ok tt, db)
unfolding once is_processed
once_claimed event_id consumer_name run db h = rw h

Repeats-once :
    (event_id consumer_name : String) (run : Action Unit)
    → Claims event_id consumer_name (once event_id consumer_name run)
    → Repeats (once event_id consumer_name run)
Repeats-once event_id consumer_name run k = record {
  at = λ db db' h. once_claimed event_id consumer_name run db' (k.at db db' tt h);
}

-- What the orders context does with a payment result leaves every claim in place.
module _ (key consumer : String) where
  abbrev HasClaim : Db → Type 0
  HasClaim db = has_claim key consumer db ≡ true

  Keeps-record_transition :
      (method : Time → Order → Result Order) (entry : EventType) (entry_payload : Payload)
      (event : EventType) (event_payload : Payload) (order : Order)
      → Keeps HasClaim (record_transition method entry entry_payload event event_payload order)
  unfolding record_transition
  Keeps-record_transition method entry entry_payload event event_payload order = record {
    at = λ db h. go (method (db.next_times 0) order) db h;
  }
    where
      go :
          (r : Result Order) (db : Db)
          → HasClaim db
          → HasClaim
              (record_transition (λ _ _. r) entry entry_payload event event_payload order db).1
      go (ok a) db h = h
      go (err e) db h = h

  Keeps-process_order_payment_result :
      (event_id : String) (order_id : Uuid) (result : String)
      → Keeps HasClaim (process_order_payment_result event_id order_id result)
  unfolding process_order_payment_result payment_result_of stage_authorized cancel_declined once
      is_processed get_order
  Keeps-process_order_payment_result event_id order_id result =
      search (keeps_rules, Keeps-record_transition, mark_processed-has_claim_kept key consumer)
        depth 12

-- Two consumers in one handler: the second leaves the first one's claim in place.
Repeats-both :
    (key consumer : String) (m n : Action Unit)
    → Claims key consumer m
    → ((db : Db) → HasClaim key consumer db → m db ≡ (ok tt, db))
    → Keeps (HasClaim key consumer) n
    → Repeats n
    → Repeats (m >>= λ _. n)
Repeats-both key consumer m n claims stops keeps again = record {
  at = λ db db' h. go db db' (m db).0 (m db).1 refl h;
}
  where
    go :
        (db db' : Db) (r : Result Unit) (middle : Db)
        → m db ≡ (r, middle)
        → ((λ _. (r, middle)) >>= λ _. n) db ≡ (ok tt, db')
        → (m >>= λ _. n) db' ≡ (ok tt, db')
    go db db' (err x) middle e h = cc
    go db db' (ok a) middle e h =
        rw
          (>>=-eq m (λ _. n) db'
            (stops db' (
              subst (HasClaim key consumer) (ap (λ (r : Result Unit × Db). r.1) h)
                (keeps.at middle (claims.at db middle a e)))))
          (again.at middle db' h)

Repeats-payment_rejected_steps :
    (services : Services) (event_id : String) (order_id : Uuid)
    → Repeats (payment_rejected_steps services event_id order_id)
unfolding payment_rejected_steps process_payment_rejected process_order_payment_result
Repeats-payment_rejected_steps services event_id order_id =
    Repeats-both event_id "ProcessPaymentRejected" (process_payment_rejected event_id order_id)
      (process_order_payment_result event_id order_id "rejected")
      (Claims-process_payment_rejected event_id order_id)
      (once_claimed event_id "ProcessPaymentRejected" _)
      (Keeps-process_order_payment_result event_id "ProcessPaymentRejected" event_id order_id
        "rejected")
      (Repeats-once event_id "ProcessOrderPaymentResult" _
        (Claims-process_order_payment_result event_id order_id "rejected"))

Repeats-process_inventory_reservation :
    (parse_uuid : String → Option Uuid) (event_id order_id : String) (items : List OrderItem)
    → Repeats (process_inventory_reservation parse_uuid event_id order_id items)
unfolding process_inventory_reservation
Repeats-process_inventory_reservation parse_uuid event_id order_id items =
    Repeats-once event_id "ProcessInventoryReservation" _
      (Claims-process_inventory_reservation parse_uuid event_id order_id items)

Repeats-process_order_notification :
    (parse_uuid : String → Option Uuid) (event_id event_type aggregate_id : String)
    → Repeats (process_order_notification parse_uuid event_id event_type aggregate_id)
unfolding process_order_notification
Repeats-process_order_notification parse_uuid event_id event_type aggregate_id =
    Repeats-once event_id "ProcessOrderNotification" _
      (Claims-process_order_notification parse_uuid event_id event_type aggregate_id)

ruleset repeat_rules = (
  Repeats-raise, Repeats-or_raise, Repeats-raise_if, Repeats-if, Repeats-payment_rejected_steps,
  Repeats-once, Claims-process_order_inventory_result, Claims-process_order_payment_result,
  Claims-finalize_payment_authorized, Claims-process_order_inventory_reserved,
  Repeats-process_inventory_reservation, Repeats-process_order_notification,
)

abbrev pub RepeatsHandler : Handler → Type 0
RepeatsHandler handler =
    (payload : Payload) (event_id event_type aggregate_id : String)
    → Repeats (handler payload event_id event_type aggregate_id)

module _ (services : Services) where
  pub inventory_handler-Repeats : RepeatsHandler (inventory_handler services)
  unfolding inventory_handler
  inventory_handler-Repeats payload event_id event_type aggregate_id = search repeat_rules depth 9

  pub orders_handler-Repeats : RepeatsHandler (orders_handler services)
  unfolding orders_handler process_order_inventory_result
  orders_handler-Repeats payload event_id event_type aggregate_id = search repeat_rules depth 9

  pub payments_handler-Repeats : RepeatsHandler (payments_handler services)
  unfolding payments_handler process_order_inventory_reserved
  payments_handler-Repeats payload event_id event_type aggregate_id = search repeat_rules depth 9

  pub orders_payment_handler-Repeats : RepeatsHandler (orders_payment_handler services)
  unfolding orders_payment_handler process_order_payment_result
  orders_payment_handler-Repeats payload event_id event_type aggregate_id =
      search repeat_rules depth 9

  pub orders_finalizer-Repeats : RepeatsHandler (orders_finalizer services)
  unfolding orders_finalizer finalize_payment_authorized
  orders_finalizer-Repeats payload event_id event_type aggregate_id = search repeat_rules depth 9

  pub notifications_handler-Repeats : RepeatsHandler (notifications_handler services)
  unfolding notifications_handler
  notifications_handler-Repeats payload event_id event_type aggregate_id =
      search repeat_rules depth 9
