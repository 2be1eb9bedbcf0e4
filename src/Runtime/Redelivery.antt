-- ===== src/Runtime/Redelivery.antt =====
-- The broker delivers a message at least once: what a second delivery does to the tables.
use eventcommerce.Base.{
  String, Bool, true, false, not, ◌≡◌, refl, Option, none, some, List, ap, if◌then◌else◌, All,
  string_eq,
}
use eventcommerce.Result.{Result, ok, err}
use eventcommerce.Session.{Db, Action, in_transaction}
use eventcommerce.Messaging.Events.{Payload, is_object}
use eventcommerce.Messaging.Worker.{Message}
use eventcommerce.Messaging.Consumer.{
  ConsumerBinding, binding_for, Delivery, ack, nack_requeue, settle, dispatch, bound, routed,
  present, handle_message,
}
use eventcommerce.Runtime.Handlers.{Services, wired_bindings}
use eventcommerce.Messaging.Routing.{binding_for-All}
use eventcommerce.Runtime.Repeats.{
  Repeats, RepeatsHandler, inventory_handler-Repeats, orders_handler-Repeats,
  payments_handler-Repeats, orders_payment_handler-Repeats, orders_finalizer-Repeats,
  notifications_handler-Repeats,
}

-- What a delivery comes to: acknowledged, it would be acknowledged again with nothing changed;
-- refused, it has changed nothing.
abbrev pub Settled : (Db → Delivery × Db) → Db → Delivery × Db → Type 0
Settled handle before (ack, after) = handle after ≡ (ack, after)
Settled handle before (nack_requeue, after) = after ≡ before

in_transaction-Settled :
    (m : Action Unit) (db : Db)
    → Repeats m
    → Settled (λ db. settle (in_transaction m db)) db (settle (in_transaction m db))
in_transaction-Settled m db k = go (m db).0 (m db).1 refl
  where
    go :
        (r : Result Unit) (after : Db)
        → m db ≡ (r, after)
        → Settled
            (λ db. settle (in_transaction m db))
            db
            (settle (in_transaction (λ _. (r, after)) db))
    go (ok a) after e =
        ap (λ (r : Result Unit × Db). settle (in_transaction (λ _. r) after)) (k.at db after e)
    go (err x) after e = refl

unless_scalar-Settled :
    (object : Bool) (m : Action Unit) (db : Db)
    → Repeats m
    → Settled
        (λ db. if not object then (ack, db) else settle (in_transaction m db))
        db
        (if not object then (ack, db) else settle (in_transaction m db))
unless_scalar-Settled true m db k = in_transaction-Settled m db k
unless_scalar-Settled false m db k = refl

dispatch-Settled :
    (b : ConsumerBinding) (payload : Payload) (event_id event_type aggregate_id : String) (db : Db)
    → RepeatsHandler b.handler
    → Settled
        (dispatch b payload event_id event_type aggregate_id)
        db
        (dispatch b payload event_id event_type aggregate_id db)
dispatch-Settled b payload event_id event_type aggregate_id db k =
    unless_scalar-Settled (is_object payload) (b.handler payload event_id event_type aggregate_id)
      db (k payload event_id event_type aggregate_id)

bound-Settled :
    (found : Option ConsumerBinding) (body : Option Payload)
    (event_id event_type aggregate_id : String) (db : Db)
    → ((b : ConsumerBinding) → found ≡ some b → RepeatsHandler b.handler)
    → Settled
        (bound found body event_id event_type aggregate_id)
        db
        (bound found body event_id event_type aggregate_id db)
bound-Settled none body event_id event_type aggregate_id db k = refl
bound-Settled (some b) none event_id event_type aggregate_id db k = refl
bound-Settled (some b) (some payload) event_id event_type aggregate_id db k =
    dispatch-Settled b payload event_id event_type aggregate_id db (k b refl)

module _ (bs : List ConsumerBinding) (all_repeat : All (λ b. RepeatsHandler b.handler) bs) where
  routed-Settled :
      (body : Option Payload) (event_id event_type aggregate_id : Option String) (db : Db)
      → Settled
          (routed bs body event_id event_type aggregate_id)
          db
          (routed bs body event_id event_type aggregate_id db)
  routed-Settled body (some event_id) (some event_type) (some aggregate_id) db =
      bound-Settled (binding_for event_type bs) body event_id event_type aggregate_id db
        (binding_for-All (λ b. RepeatsHandler b.handler) event_type bs all_repeat)
  routed-Settled body _ _ _ db = refl

-- Of any message, in any state: where the wired consumer acknowledges it, delivering the same
-- message once more is acknowledged too and changes nothing at all; where it refuses it, the
-- tables are as they were before.
pub redelivery_settles :
    (services : Services) (m : Message) (db : Db)
    → Settled
        (handle_message (wired_bindings services) m)
        db
        (handle_message (wired_bindings services) m db)
unfolding handle_message wired_bindings
redelivery_settles services m db =
    routed-Settled (wired_bindings services)
      (
        inventory_handler-Repeats services,
        (
          orders_handler-Repeats services,
          (
            payments_handler-Repeats services,
            (
              orders_payment_handler-Repeats services,
              (orders_finalizer-Repeats services, (notifications_handler-Repeats services, tt)),
            ),
          ),
        ),
      )
      m.payload (present m.message_id) (present m.event_type) (present m.aggregate_id) db
