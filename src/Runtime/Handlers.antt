-- ===== src/Runtime/Handlers.antt =====
-- The handlers and the wiring of backend/app/messaging_runtime.py. Parsing a UUID is the standard
-- library's, and the approval policy is the payments context's: both are parameters.
use eventcommerce.Base.{
  String, Bool, not, Option, none, some, List, [], ◌∷◌, ◌==◌, string_eq, if◌then◌else◌,
}
use eventcommerce.Base.Decimal.{Decimal}
use eventcommerce.Result.{Uuid, value_error, key_error}
use eventcommerce.Session.{Action, raise, raise_if, or_raise, ◌>>=◌, ◌>>◌}
use eventcommerce.Messaging.Events.{payload_items}
use eventcommerce.Messaging.Consumer.{Handler, ConsumerBinding}
use eventcommerce.Inventory.UseCases.{process_inventory_reservation, process_payment_rejected}
use eventcommerce.Orders.Consumers.{
  process_order_inventory_result, process_order_payment_result, finalize_payment_authorized,
}
use eventcommerce.Payments.UseCases.{process_order_inventory_reserved}
use eventcommerce.Notifications.UseCases.{process_order_notification}

-- What the handlers take from outside.
pub record Services : Type 0 where
  -- `UUID(text)`: none is a ValueError
  pub parse_uuid : String → Option Uuid
  pub approval_policy : String → Decimal → String → Bool

module _ (services : Services) where
  abbrev uuid_of : String → Action Uuid
  uuid_of text = or_raise (services.parse_uuid text) value_error

  -- `_inventory_handler_factory`
  unfoldable pub inventory_handler : Handler
  inventory_handler payload event_id event_type aggregate_id = do
    raise_if (not (event_type == "OrderCreated")) value_error
    uuid_of aggregate_id
    uuid_of event_id
    items ← or_raise (payload_items payload) key_error
    process_inventory_reservation services.parse_uuid event_id aggregate_id items

  abbrev inventory_result : String → Option String
  inventory_result event_type =
      if event_type == "InventoryReserved"
      then some "reserved"
      else if event_type == "InventoryRejected"
      then some "rejected"
      else none

  -- `_orders_handler_factory`
  unfoldable pub orders_handler : Handler
  orders_handler payload event_id event_type aggregate_id = do
    result ← or_raise (inventory_result event_type) value_error
    order_id ← uuid_of aggregate_id
    uuid_of event_id
    process_order_inventory_result event_id order_id result

  -- `_payments_handler_factory`
  unfoldable pub payments_handler : Handler
  payments_handler payload event_id event_type aggregate_id = do
    raise_if (not (event_type == "OrderInventoryReserved")) value_error
    order_id ← uuid_of aggregate_id
    uuid_of event_id
    process_order_inventory_reserved services.approval_policy event_id order_id

  -- The compensation runs before the cancellation.
  unfoldable pub payment_rejected_steps : String → Uuid → Action Unit
  payment_rejected_steps event_id order_id = do
    process_payment_rejected event_id order_id
    process_order_payment_result event_id order_id "rejected"

  abbrev payment_result : String → String → Uuid → Action Unit
  payment_result event_type event_id order_id =
      if event_type == "PaymentAuthorized"
      then process_order_payment_result event_id order_id "authorized"
      else if event_type == "PaymentRejected"
      then payment_rejected_steps event_id order_id
      else raise value_error

  -- `_orders_payment_handler_factory`
  unfoldable pub orders_payment_handler : Handler
  orders_payment_handler payload event_id event_type aggregate_id = do
    order_id ← uuid_of aggregate_id
    uuid_of event_id
    payment_result event_type event_id order_id

  -- `_orders_finalizer_factory`
  unfoldable pub orders_finalizer : Handler
  orders_finalizer payload event_id event_type aggregate_id = do
    raise_if (not (event_type == "OrderPaymentAuthorized")) value_error
    order_id ← uuid_of aggregate_id
    uuid_of event_id
    finalize_payment_authorized event_id order_id

  -- `_notifications_handler_factory`
  unfoldable pub notifications_handler : Handler
  notifications_handler payload event_id event_type aggregate_id =
      process_order_notification services.parse_uuid event_id event_type aggregate_id

  -- The bindings of `_create_wired_consumer`.
  unfoldable pub wired_bindings : List ConsumerBinding
  wired_bindings =
      record {
        queue = "inventory.order_created";
        event_types = "OrderCreated" ∷ [];
        consumer_name = "ProcessInventoryReservation";
        handler = inventory_handler;
      }
      ∷ record {
        queue = "orders.inventory_result";
        event_types = "InventoryReserved" ∷ "InventoryRejected" ∷ [];
        consumer_name = "ProcessOrderInventoryResult";
        handler = orders_handler;
      }
      ∷ record {
        queue = "payments.inventory_reserved";
        event_types = "OrderInventoryReserved" ∷ [];
        consumer_name = "ProcessOrderInventoryReserved";
        handler = payments_handler;
      }
      ∷ record {
        queue = "orders.payment_result";
        event_types = "PaymentAuthorized" ∷ "PaymentRejected" ∷ [];
        consumer_name = "ProcessOrderPaymentResult";
        handler = orders_payment_handler;
      }
      ∷ record {
        queue = "orders.payment_authorized";
        event_types = "OrderPaymentAuthorized" ∷ [];
        consumer_name = "FinalizePaymentAuthorized";
        handler = orders_finalizer;
      }
      ∷ record {
        queue = "notifications.order_terminal";
        event_types = "OrderConfirmed" ∷ "OrderCancelled" ∷ [];
        consumer_name = "ProcessOrderNotification";
        handler = notifications_handler;
      }
      ∷ []
