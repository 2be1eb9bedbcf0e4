-- ===== src/Orders/Changes.antt =====
-- What the operations on orders do to the tables.
use eventcommerce.Base.{String, ◌≡◌, ◌≢◌, refl, true, some, [], ◌∷◌, ◌++◌, upsert, string_eq}
use eventcommerce.Result.{Time, Error, Result, ok, err, invalid_state_transition}
use eventcommerce.Session.{Db, Action, ◌>>=◌}
use eventcommerce.Messaging.Events.{EventType, Payload, OutboxEvent, DomainEvent}
use eventcommerce.Messaging.Idempotency.{mark_processed, mark_processed_lem}
use eventcommerce.Orders.Domain.{
  Status, Order, status_eq, can_transition, pending, inventory_reserved, payment_authorized,
  confirmed, cancelled, reserve_inventory, authorize_payment, confirm, cancel,
}
use eventcommerce.Orders.Repository.{order_row, order_key, update_order}
use eventcommerce.Orders.UseCases.{record_transition}

-- The event by which the outbox announces that an order has reached a status.
abbrev pub announcement : Status → EventType
announcement pending = EventType.order_created
announcement inventory_reserved = EventType.order_inventory_reserved
announcement payment_authorized = EventType.order_payment_authorized
announcement confirmed = EventType.order_confirmed
announcement cancelled = EventType.order_cancelled

-- Nothing of the orders changes, or one stored order moves along an edge of the lifecycle to
-- another status, with one event in its timeline and one announcement in the outbox.
pub data OrderChange (before after : Db) : Type 0 where
  idle :
      after.orders ≡ before.orders
      → after.outbox_events ≡ before.outbox_events
      → after.domain_events ≡ before.domain_events
      → OrderChange before after
  moved :
      (order order' : Order) (event : OutboxEvent) (entry : DomainEvent)
      → order_row order.id before ≡ some order
      → order'.id ≡ order.id
      → can_transition order.status order'.status ≡ true
      → order.status ≢ order'.status
      → after.orders ≡ upsert order_key update_order order' before.orders
      → after.outbox_events ≡ before.outbox_events ++ event ∷ []
      → event.event_type ≡ announcement order'.status
      → event.aggregate_id ≡ order.id
      → after.domain_events ≡ before.domain_events ++ entry ∷ []
      → entry.aggregate_id ≡ order.id
      → OrderChange before after

pub mark_processed-OrderChange :
    (event_id consumer_name : String) (db : Db)
    → OrderChange db (mark_processed event_id consumer_name db).1
mark_processed-OrderChange event_id consumer_name db = rw mark_processed_lem (idle refl refl refl)

-- A claim after it adds nothing to a change, nor does an error between the two.
pub mark-OrderChange :
    {A : Type 0} (m : Action A) (event_id consumer_name : String) (db : Db)
    → OrderChange db (m db).1
    → OrderChange db ((m >>= λ _. mark_processed event_id consumer_name) db).1
mark-OrderChange {A} m event_id consumer_name db change = go (m db).0 refl change
  where
    go :
        (r : Result A)
        → (m db).0 ≡ r
        → OrderChange db (m db).1
        → OrderChange db ((m >>= λ _. mark_processed event_id consumer_name) db).1
    go (ok a) e (idle p q t) = rw (e, ◌>>=◌) (rw mark_processed_lem (idle p q t))
    go (ok a) e (moved order order' event entry f i c n o b x y d z) =
        rw (e, ◌>>=◌) (rw mark_processed_lem (moved order order' event entry f i c n o b x y d z))
    go (err x) e change = rw (e, ◌>>=◌) change

module _ (entry : EventType) (entry_payload : Payload) (event : EventType)
    (event_payload : Payload) where
  -- A transition that the entity allows is recorded and announced once.
  record_transition-OrderChange :
      (method : Time → Order → Result Order) (order order' : Order) (db : Db)
      → order_row order.id db ≡ some order
      → method (db.next_times 0) order ≡ ok order'
      → order'.id ≡ order.id
      → can_transition order.status order'.status ≡ true
      → order.status ≢ order'.status
      → event ≡ announcement order'.status
      → OrderChange db (record_transition method entry entry_payload event event_payload order db).1
  unfolding record_transition
  record_transition-OrderChange method order order' db found e same allowed moves announces =
      rw e (moved order order' _ _ found same allowed moves refl refl announces same refl same)

  -- One that it refuses changes nothing.
  pub refused-OrderChange :
      (method : Time → Order → Result Order) (order : Order) (db : Db) {x : Error}
      → method (db.next_times 0) order ≡ err x
      → OrderChange db (record_transition method entry entry_payload event event_payload order db).1
  unfolding record_transition
  refused-OrderChange method order db e = rw e (idle refl refl refl)

-- Each method of the entity, on the statuses at which the use cases call it.
module _ (entry : EventType) (entry_payload event_payload : Payload) (order : Order) (db : Db)
    (found : order_row order.id db ≡ some order) where
  -- the order with another status, at the time that the next call of the clock returns
  abbrev restaged : Status → Order
  restaged s = record order { status = s; updated_at = db.next_times 0 }

  pub reserved-OrderChange :
      (s : Status)
      → order.status ≡ s
      → order.status ≢ inventory_reserved
      → OrderChange db
          (record_transition reserve_inventory entry entry_payload
            EventType.order_inventory_reserved event_payload order db).1
  unfolding reserve_inventory can_transition
  reserved-OrderChange pending e differs =
      record_transition-OrderChange entry entry_payload EventType.order_inventory_reserved
        event_payload reserve_inventory order (restaged inventory_reserved) db found (rw e) refl
        (rw e) differs refl
  reserved-OrderChange inventory_reserved e differs = absurd (differs e)
  reserved-OrderChange _ e differs =
      refused-OrderChange entry entry_payload EventType.order_inventory_reserved event_payload
        reserve_inventory order db {x = invalid_state_transition} (rw e)

  pub authorized-OrderChange :
      (s : Status)
      → order.status ≡ s
      → order.status ≢ payment_authorized
      → OrderChange db
          (record_transition authorize_payment entry entry_payload
            EventType.order_payment_authorized event_payload order db).1
  unfolding authorize_payment can_transition
  authorized-OrderChange inventory_reserved e differs =
      record_transition-OrderChange entry entry_payload EventType.order_payment_authorized
        event_payload authorize_payment order (restaged payment_authorized) db found (rw e) refl
        (rw e) differs refl
  authorized-OrderChange payment_authorized e differs = absurd (differs e)
  authorized-OrderChange _ e differs =
      refused-OrderChange entry entry_payload EventType.order_payment_authorized event_payload
        authorize_payment order db {x = invalid_state_transition} (rw e)

  pub confirmed-OrderChange :
      (s : Status)
      → order.status ≡ s
      → order.status ≢ confirmed
      → OrderChange db
          (record_transition confirm entry entry_payload EventType.order_confirmed event_payload
            order db).1
  unfolding confirm can_transition
  confirmed-OrderChange pending e differs =
      record_transition-OrderChange entry entry_payload EventType.order_confirmed event_payload
        confirm order (restaged confirmed) db found (rw e) refl (rw e) differs refl
  confirmed-OrderChange payment_authorized e differs =
      record_transition-OrderChange entry entry_payload EventType.order_confirmed event_payload
        confirm order (restaged confirmed) db found (rw e) refl (rw e) differs refl
  confirmed-OrderChange confirmed e differs = absurd (differs e)
  confirmed-OrderChange _ e differs =
      refused-OrderChange entry entry_payload EventType.order_confirmed event_payload confirm order
        db {x = invalid_state_transition} (rw e)

  pub cancelled-OrderChange :
      (reason : String) (s : Status)
      → order.status ≡ s
      → order.status ≢ cancelled
      → OrderChange db
          (record_transition
            (cancel reason)
            entry
            entry_payload
            EventType.order_cancelled
            event_payload
            order
            db).1
  unfolding cancel can_transition
  cancelled-OrderChange reason pending e differs =
      record_transition-OrderChange entry entry_payload EventType.order_cancelled event_payload
        (cancel reason) order
        (record order {
          status = cancelled;
          cancel_reason = some reason;
          updated_at = db.next_times 0;
        })
        db found (rw e) refl (rw e) differs refl
  cancelled-OrderChange reason inventory_reserved e differs =
      record_transition-OrderChange entry entry_payload EventType.order_cancelled event_payload
        (cancel reason) order
        (record order {
          status = cancelled;
          cancel_reason = some reason;
          updated_at = db.next_times 0;
        })
        db found (rw e) refl (rw e) differs refl
  cancelled-OrderChange reason payment_authorized e differs =
      record_transition-OrderChange entry entry_payload EventType.order_cancelled event_payload
        (cancel reason) order
        (record order {
          status = cancelled;
          cancel_reason = some reason;
          updated_at = db.next_times 0;
        })
        db found (rw e) refl (rw e) differs refl
  cancelled-OrderChange reason cancelled e differs = absurd (differs e)
  cancelled-OrderChange reason _ e differs =
      refused-OrderChange entry entry_payload EventType.order_cancelled event_payload
        (cancel reason) order db {x = invalid_state_transition} (rw e)
