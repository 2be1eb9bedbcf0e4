-- ===== src/Runtime/Primitives.antt =====
-- What the handlers are built from: a property of the tables that each of these calls keeps is kept
-- by every delivery (Kept.antt).
use eventcommerce.Base.{String, ◌≡◌, none}
use eventcommerce.Base.Int.{ℤ}
use eventcommerce.Result.{Uuid}
use eventcommerce.Session.{Db, uuid4, utc_now}
use eventcommerce.Session.Keeps.{Keeps, keeps_rules}
use eventcommerce.Messaging.Events.{EventType, Payload}
use eventcommerce.Messaging.Outbox.{save_outbox}
use eventcommerce.Messaging.Idempotency.{mark_processed}
use eventcommerce.Inventory.UseCases.{reserve_item, release_item}
use eventcommerce.Payments.Domain.{Payment}
use eventcommerce.Payments.UseCases.{save_payment}
use eventcommerce.Notifications.Domain.{Notification}
use eventcommerce.Notifications.UseCases.{save_notification}
use eventcommerce.Orders.Domain.{OrderItem}
use eventcommerce.Orders.Announcements.{announced}
use eventcommerce.Orders.Consumers.{
  process_order_inventory_result, process_order_payment_result, finalize_payment_authorized,
}

-- Outside the orders context only events that announce no status are written.
pub record Primitives (P : Db → Type 0) : Type 0 where
  pub uuid : Keeps P uuid4
  pub now : Keeps P utc_now
  pub mark : (event_id consumer_name : String) → Keeps P (mark_processed event_id consumer_name)
  pub outbox :
      (event_type : EventType) (aggregate_id : String) (payload : Payload)
      → announced event_type ≡ none
      → Keeps P (save_outbox event_type aggregate_id payload)
  pub payment : (payment : Payment) → Keeps P (save_payment payment)
  pub notification : (notification : Notification) → Keeps P (save_notification notification)
  pub reserve : (product_id : String) (quantity : ℤ) → Keeps P (reserve_item product_id quantity)
  pub release : (item : OrderItem) → Keeps P (release_item item)
  pub inventory_outcome :
      (event_id : String) (order_id : Uuid) (result : String)
      → Keeps P (process_order_inventory_result event_id order_id result)
  pub payment_outcome :
      (event_id : String) (order_id : Uuid) (result : String)
      → Keeps P (process_order_payment_result event_id order_id result)
  pub finalize :
      (event_id : String) (order_id : Uuid)
      → Keeps P (finalize_payment_authorized event_id order_id)

module _ {P : Db → Type 0} (k : Primitives P) where
  pub Kept-uuid4 : Keeps P uuid4
  Kept-uuid4 = k.uuid

  pub Kept-utc_now : Keeps P utc_now
  Kept-utc_now = k.now

  pub Kept-mark_processed :
      (event_id consumer_name : String) → Keeps P (mark_processed event_id consumer_name)
  Kept-mark_processed = k.mark

  pub Kept-save_outbox :
      (event_type : EventType) (aggregate_id : String) (payload : Payload)
      → announced event_type ≡ none
      → Keeps P (save_outbox event_type aggregate_id payload)
  Kept-save_outbox = k.outbox

  pub Kept-save_payment : (payment : Payment) → Keeps P (save_payment payment)
  Kept-save_payment = k.payment

  pub Kept-save_notification :
      (notification : Notification) → Keeps P (save_notification notification)
  Kept-save_notification = k.notification

  pub Kept-reserve_item :
      (product_id : String) (quantity : ℤ) → Keeps P (reserve_item product_id quantity)
  Kept-reserve_item = k.reserve

  pub Kept-release_item : (item : OrderItem) → Keeps P (release_item item)
  Kept-release_item = k.release

  pub Kept-inventory_result :
      (event_id : String) (order_id : Uuid) (result : String)
      → Keeps P (process_order_inventory_result event_id order_id result)
  Kept-inventory_result = k.inventory_outcome

  pub Kept-payment_result :
      (event_id : String) (order_id : Uuid) (result : String)
      → Keeps P (process_order_payment_result event_id order_id result)
  Kept-payment_result = k.payment_outcome

  pub Kept-finalize :
      (event_id : String) (order_id : Uuid)
      → Keeps P (finalize_payment_authorized event_id order_id)
  Kept-finalize = k.finalize

pub ruleset primitive_rules = (
  keeps_rules, Kept-uuid4, Kept-utc_now, Kept-mark_processed, Kept-save_outbox, Kept-save_payment,
  Kept-save_notification, Kept-reserve_item, Kept-release_item, Kept-inventory_result,
  Kept-payment_result, Kept-finalize,
)
