-- ===== src/Orders/UseCases.antt =====
-- The use cases that the routes call: create_order.py, confirm_order.py, cancel_order.py,
-- get_order.py, get_order_status.py and get_order_timeline.py of
-- backend/app/modules/orders/application.
use eventcommerce.Base.{
  String, Option, none, some, List, [], ◌∷◌, ◌==◌, string_eq, not, if◌then◌else◌, ◌≡◌, sort_by,
}
use eventcommerce.Result.{
  Uuid, Time, ok, err, order_not_found, invalid_state_transition, value_error, Result,
}
use eventcommerce.Session.{
  Db, Action, pure, raise, lift, gets, or_raise, uuid4, utc_now, ◌>>=◌, ◌>>◌,
}
use eventcommerce.Messaging.Events.{EventType, Payload, DomainEvent}
use eventcommerce.Messaging.Outbox.{save_outbox, add_event}
use eventcommerce.Orders.Domain.{
  Status, Order, OrderItem, status_eq, pending, payment_authorized, confirmed, cancelled, confirm,
  cancel,
}
use eventcommerce.Orders.Repository.{get_order_by_id, save_order, order_row}

-- `GetOrder`; the lookup with which the other use cases begin
unfoldable pub get_order : Uuid → Action Order
unfolding get_order_by_id
get_order order_id = do found ← get_order_by_id order_id; or_raise found order_not_found

abbrev pub status_of : Option Order → Option Status
status_of none = none
status_of (some order) = some order.status

-- `GetOrderStatus.get_status`
unfoldable pub get_order_status : Uuid → Action (Option Status)
unfolding get_order_by_id
get_order_status order_id = do found ← get_order_by_id order_id; pure (status_of found)

-- `CreateOrder.execute` of an order that has items
unfoldable pub create_order_with : String → List OrderItem → Action Order
unfolding save_order add_event save_outbox
create_order_with customer_id items = do
  id ← uuid4
  created_at ← utc_now
  updated_at ← utc_now
  let order : Order = record {
    id = id;
    customer_id = customer_id;
    status = pending;
    cancel_reason = none;
    created_at = created_at;
    updated_at = updated_at;
    items = items;
  }
  save_order order
  event_id ← uuid4
  occurred_at ← utc_now
  let payload = Payload.created customer_id items
  add_event event_id id EventType.order_created occurred_at payload
  save_outbox EventType.order_created id payload
  pure order

unfoldable pub create_order : String → List OrderItem → Action Order
unfolding create_order_with
create_order customer_id [] = raise value_error
create_order customer_id (item ∷ items) = create_order_with customer_id (item ∷ items)

-- The timeline event and the outbox event of a transition, with their fresh id and time.
unfoldable pub record_event : String → EventType → Payload → Action Unit
unfolding add_event
record_event order_id event_type payload = do
  event_id ← uuid4
  occurred_at ← utc_now
  add_event event_id order_id event_type occurred_at payload

-- The part that the transitions share: the method of the entity with the present time, the row,
-- the timeline event and the outbox event.
unfoldable pub record_transition :
    (Time → Order → Result Order) → EventType → Payload → EventType → Payload → Order → Action Order
unfolding save_order record_event save_outbox
record_transition method entry entry_payload event event_payload order = do
  now ← utc_now
  order' ← lift (method now order)
  save_order order'
  record_event order'.id entry entry_payload
  save_outbox event order'.id event_payload
  pure order'

-- `ConfirmOrder.execute`
unfoldable pub confirm_order : Uuid → Action Order
confirm_order order_id = do
  order ← get_order order_id
  if order.status == confirmed
      then pure order
      else if not (order.status == payment_authorized)
      then raise invalid_state_transition
      else record_transition confirm EventType.order_confirmed (Payload.status confirmed)
          EventType.order_confirmed (Payload.status confirmed) order

-- `CancelOrder.execute`
unfoldable pub cancel_order : Uuid → String → Action Order
cancel_order order_id reason = do
  order ← get_order order_id
  if order.status == cancelled
      then pure order
      else record_transition (cancel reason) EventType.order_cancelled
          (Payload.status_reason cancelled reason) EventType.order_cancelled
          (Payload.status_reason cancelled reason) order

-- `WHERE aggregate_id = …`
unfoldable pub events_of : String → List DomainEvent → List DomainEvent
events_of order_id [] = []
events_of order_id (e ∷ es) =
    let rest = events_of order_id es in if e.aggregate_id == order_id then e ∷ rest else rest

abbrev pub occurred : DomainEvent → Time
occurred e = e.occurred_at

-- `GetOrderTimeline.execute`, over `get_timeline` of the event store
unfoldable pub get_order_timeline : Uuid → Action (List DomainEvent)
unfolding sort_by events_of
get_order_timeline order_id = gets (λ db. sort_by occurred (events_of order_id db.domain_events))

pub get_order_missing :
    (order_id : Uuid) (db : Db)
    → order_row order_id db ≡ none
    → get_order order_id db ≡ (err order_not_found, db)
unfolding get_order
get_order_missing order_id db h = rw h

pub get_order_found :
    (order_id : Uuid) (order : Order) (db : Db)
    → order_row order_id db ≡ some order
    → get_order order_id db ≡ (ok order, db)
unfolding get_order
get_order_found order_id order db h = rw h
