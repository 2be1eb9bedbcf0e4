-- ===== src/Runtime/Deliveries.antt =====
-- What the primitives keep, every delivery to the wired consumers of
-- backend/app/messaging_runtime.py keeps.
use eventcommerce.Base.{
  String, ◌≡◌, refl, Option, none, some, List, string_eq, inl, inr, Bool-cases, All,
}
use eventcommerce.Result.{Result, ok, err}
use eventcommerce.Session.{Db, in_transaction}
use eventcommerce.Session.Keeps.{Keeps, Keeps-in_transaction}
use eventcommerce.Messaging.Events.{Payload, is_object}
use eventcommerce.Messaging.Worker.{Message}
use eventcommerce.Messaging.Consumer.{
  Handler, ConsumerBinding, binding_for, Delivery, settle, dispatch, decoded, routed, present,
  handle_message, bound,
}
use eventcommerce.Messaging.Routing.{binding_for-All}
use eventcommerce.Runtime.Handlers.{
  Services, inventory_handler, orders_handler, payments_handler, payment_rejected_steps,
  orders_payment_handler, orders_finalizer, notifications_handler, wired_bindings,
}
use eventcommerce.Runtime.Primitives.{Primitives, primitive_rules}
use eventcommerce.Runtime.Kept.{
  Kept-process_inventory_reservation, Kept-process_payment_rejected,
  Kept-process_order_inventory_reserved, Kept-process_order_notification,
}

-- A handler that keeps a property of the tables.
abbrev pub KeepsHandler : (Db → Type 0) → Handler → Type 0
KeepsHandler P handler =
    (payload : Payload) (event_id event_type aggregate_id : String)
    → Keeps P (handler payload event_id event_type aggregate_id)

ruleset handler_rules = (
  primitive_rules, Kept-process_inventory_reservation, Kept-process_payment_rejected,
  Kept-process_order_inventory_reserved, Kept-process_order_notification,
)

module _ {P : Db → Type 0} (k : Primitives P) (services : Services) where
  inventory_handler-Keeps : KeepsHandler P (inventory_handler services)
  unfolding inventory_handler
  inventory_handler-Keeps payload event_id event_type aggregate_id = search handler_rules depth 10

  orders_handler-Keeps : KeepsHandler P (orders_handler services)
  unfolding orders_handler
  orders_handler-Keeps payload event_id event_type aggregate_id = search handler_rules depth 10

  payments_handler-Keeps : KeepsHandler P (payments_handler services)
  unfolding payments_handler
  payments_handler-Keeps payload event_id event_type aggregate_id = search handler_rules depth 10

  orders_payment_handler-Keeps : KeepsHandler P (orders_payment_handler services)
  unfolding orders_payment_handler payment_rejected_steps
  orders_payment_handler-Keeps payload event_id event_type aggregate_id =
      search handler_rules depth 10

  orders_finalizer-Keeps : KeepsHandler P (orders_finalizer services)
  unfolding orders_finalizer
  orders_finalizer-Keeps payload event_id event_type aggregate_id = search handler_rules depth 10

  notifications_handler-Keeps : KeepsHandler P (notifications_handler services)
  unfolding notifications_handler
  notifications_handler-Keeps payload event_id event_type aggregate_id =
      search handler_rules depth 10

module _ (P : Db → Type 0) where
  settle-keeps : (r : Result Unit) (db : Db) → P db → P (settle (r, db)).1
  settle-keeps (ok a) db h = h
  settle-keeps (err e) db h = h

  dispatch-keeps :
      (b : ConsumerBinding) (payload : Payload) (event_id event_type aggregate_id : String)
      (db : Db)
      → KeepsHandler P b.handler
      → P db
      → P (dispatch b payload event_id event_type aggregate_id db).1
  dispatch-keeps b payload event_id event_type aggregate_id db keeps h =
      elim (Bool-cases (is_object payload)) [
        | inl object ↦ rw object (
            settle-keeps (in_transaction (b.handler payload event_id event_type aggregate_id) db).0
              (in_transaction (b.handler payload event_id event_type aggregate_id) db).1
              ((Keeps-in_transaction (b.handler payload event_id event_type aggregate_id)
                  (keeps payload event_id event_type aggregate_id)).at
                db h))
        | inr scalar ↦ rw scalar h
      ]

  decoded-keeps :
      (body : Option Payload) (k : Payload → Db → Delivery × Db) (db : Db)
      → ((payload : Payload) → P (k payload db).1)
      → P db
      → P (decoded body k db).1
  decoded-keeps none k db hk h = h
  decoded-keeps (some payload) k db hk h = hk payload

  bound-keeps :
      (found : Option ConsumerBinding) (body : Option Payload)
      (event_id event_type aggregate_id : String) (db : Db)
      → ((b : ConsumerBinding) → found ≡ some b → KeepsHandler P b.handler)
      → P db
      → P (bound found body event_id event_type aggregate_id db).1
  bound-keeps none body event_id event_type aggregate_id db keeps h = h
  bound-keeps (some b) body event_id event_type aggregate_id db keeps h =
      decoded-keeps body (λ payload. dispatch b payload event_id event_type aggregate_id) db
        (λ payload. dispatch-keeps b payload event_id event_type aggregate_id db (keeps b refl) h) h

  module _ (bs : List ConsumerBinding) (all_keep : All (λ b. KeepsHandler P b.handler) bs) where
    routed-keeps :
        (body : Option Payload) (event_id event_type aggregate_id : Option String) (db : Db)
        → P db
        → P (routed bs body event_id event_type aggregate_id db).1
    routed-keeps body (some event_id) (some event_type) (some aggregate_id) db h =
        bound-keeps (binding_for event_type bs) body event_id event_type aggregate_id db
          (binding_for-All (λ b. KeepsHandler P b.handler) event_type bs all_keep) h
    routed-keeps body _ _ _ db h = h

    pub handle_message-keeps : (m : Message) (db : Db) → P db → P (handle_message bs m db).1
    unfolding handle_message
    handle_message-keeps m db =
        routed-keeps m.payload (present m.message_id) (present m.event_type)
          (present m.aggregate_id) db

-- The six handlers that the runtime wires.
pub wired_bindings-keep :
    {P : Db → Type 0}
    → Primitives P
    → (services : Services) → All (λ b. KeepsHandler P b.handler) (wired_bindings services)
unfolding wired_bindings
wired_bindings-keep k services = (
  inventory_handler-Keeps k services,
  (
    orders_handler-Keeps k services,
    (
      payments_handler-Keeps k services,
      (
        orders_payment_handler-Keeps k services,
        (orders_finalizer-Keeps k services, (notifications_handler-Keeps k services, tt)),
      ),
    ),
  ),
)

-- A property that the primitives keep holds after any delivery to the wired consumers.
pub delivery-keeps :
    {P : Db → Type 0}
    → Primitives P
    → (services : Services) (m : Message) (db : Db) → P db
    → P (handle_message (wired_bindings services) m db).1
delivery-keeps {P} k services m db =
    handle_message-keeps P (wired_bindings services) (wired_bindings-keep k services) m db
