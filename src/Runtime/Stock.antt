-- ===== src/Runtime/Stock.antt =====
-- Properties of the inventory alone, along deliveries and along every run of the system.
use eventcommerce.Base.{String, ◌≡◌, refl, List, find, string_eq}
use eventcommerce.Base.Int.{ℤ}
use eventcommerce.Result.{Uuid, Time, Result, ok, err}
use eventcommerce.Session.{Db}
use eventcommerce.Session.Keeps.{Keeps, keeps_rules}
use eventcommerce.Messaging.Events.{EventType, Payload, ProcessedEvent}
use eventcommerce.Messaging.Idempotency.{mark_processed, mark_processed_lem}
use eventcommerce.Messaging.Outbox.{save_outbox}
use eventcommerce.Messaging.Worker.{Message}
use eventcommerce.Messaging.Consumer.{handle_message}
use eventcommerce.Orders.Domain.{Order, OrderItem}
use eventcommerce.Orders.UseCases.{record_transition}
use eventcommerce.Orders.Consumers.{
  stage_reserved, cancel_rejected, inventory_result_of, process_order_inventory_result,
  stage_authorized, cancel_declined, payment_result_of, process_order_payment_result,
  confirm_authorized, finalize_order, finalize_payment_authorized,
}
use eventcommerce.Inventory.Domain.{Inventory}
use eventcommerce.Inventory.Repository.{stock_row, inventory_key}
use eventcommerce.Inventory.UseCases.{reserve_item, release_item}
use eventcommerce.Inventory.Conservation.{total_of, reserve_item-HasTotal, release_item-HasTotal}
use eventcommerce.Payments.UseCases.{save_payment}
use eventcommerce.Notifications.UseCases.{save_notification}
use eventcommerce.Runtime.Handlers.{Services, wired_bindings}
use eventcommerce.Runtime.Primitives.{Primitives}
use eventcommerce.Runtime.Kept.{Kept-once, Kept-get_order}
use eventcommerce.Runtime.Deliveries.{delivery-keeps}

-- A property that reads the inventory and the processed events only.
module _ (Q : List Inventory → List ProcessedEvent → Type 0) where
  abbrev pub OfInventory : Db → Type 0
  OfInventory db = Q db.inventory db.processed_events

  pub Keeps-record_transition :
      (method : Time → Order → Result Order) (entry : EventType) (entry_payload : Payload)
      (event : EventType) (event_payload : Payload) (order : Order)
      → Keeps OfInventory (record_transition method entry entry_payload event event_payload order)
  unfolding record_transition
  Keeps-record_transition method entry entry_payload event event_payload order = record {
    at = λ db h. go (method (db.next_times 0) order) db h;
  }
    where
      go :
          (r : Result Order) (db : Db)
          → OfInventory db
          → OfInventory
              (record_transition (λ _ _. r) entry entry_payload event event_payload order db).1
      go (ok a) db h = h
      go (err e) db h = h

  module _
      (marks : (event_id consumer_name : String)
        → Keeps OfInventory (mark_processed event_id consumer_name)) where
    Keeps-inventory_result :
        (event_id : String) (order_id : Uuid) (result : String)
        → Keeps OfInventory (process_order_inventory_result event_id order_id result)
    unfolding process_order_inventory_result inventory_result_of stage_reserved cancel_rejected
    Keeps-inventory_result event_id order_id result =
        search (keeps_rules, Kept-once, Kept-get_order, Keeps-record_transition, marks) depth 9

    Keeps-payment_result :
        (event_id : String) (order_id : Uuid) (result : String)
        → Keeps OfInventory (process_order_payment_result event_id order_id result)
    unfolding process_order_payment_result payment_result_of stage_authorized cancel_declined
    Keeps-payment_result event_id order_id result =
        search (keeps_rules, Kept-once, Kept-get_order, Keeps-record_transition, marks) depth 9

    Keeps-finalize :
        (event_id : String) (order_id : Uuid)
        → Keeps OfInventory (finalize_payment_authorized event_id order_id)
    unfolding finalize_payment_authorized finalize_order confirm_authorized
    Keeps-finalize event_id order_id =
        search (keeps_rules, Kept-once, Kept-get_order, Keeps-record_transition, marks) depth 9

    pub OfInventory-Primitives :
        ((product_id : String) (quantity : ℤ)
          → Keeps OfInventory (reserve_item product_id quantity))
        → ((item : OrderItem) → Keeps OfInventory (release_item item))
        → Primitives OfInventory
    unfolding save_outbox save_payment save_notification
    OfInventory-Primitives reserves releases = record {
      uuid = record { at = λ db h. h };
      now = record { at = λ db h. h };
      mark = marks;
      outbox = λ _ _ _ _. record { at = λ db h. h };
      payment = λ _. record { at = λ db h. h };
      notification = λ _. record { at = λ db h. h };
      reserve = reserves;
      release = releases;
      inventory_outcome = Keeps-inventory_result;
      payment_outcome = Keeps-payment_result;
      finalize = Keeps-finalize;
    }

-- Whatever message is delivered, and whatever becomes of it, available and reserved stock of every
-- product add up to what they did before, and no row appears or goes.
pub delivery_conserves_stock :
    (services : Services) (m : Message) (db : Db) (product_id : String)
    → total_of (stock_row product_id (handle_message (wired_bindings services) m db).1)
      ≡ total_of (stock_row product_id db)
delivery_conserves_stock services m db product_id =
    delivery-keeps
      (OfInventory-Primitives
        (λ rows _.
          total_of (find inventory_key product_id rows) ≡ total_of (stock_row product_id db))
        (λ _ _. record { at = λ db h. rw mark_processed_lem h })
        (reserve_item-HasTotal product_id (total_of (stock_row product_id db)))
        (release_item-HasTotal product_id (total_of (stock_row product_id db))))
      services m db refl
