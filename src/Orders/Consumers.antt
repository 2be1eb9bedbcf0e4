-- ===== src/Orders/Consumers.antt =====
-- The consumers of the orders context: process_inventory_result.py, process_payment_result.py and
-- finalize_payment_authorized.py of backend/app/modules/orders/application.
use eventcommerce.Base.{String, Bool, ◌==◌, string_eq, not, ◌||◌, if◌then◌else◌}
use eventcommerce.Result.{Uuid}
use eventcommerce.Session.{Action, pure, ◌>>=◌, ◌>>◌}
use eventcommerce.Messaging.Events.{EventType, Payload}
use eventcommerce.Messaging.Idempotency.{is_processed, mark_processed}
use eventcommerce.Orders.Domain.{
  Status, Order, status_eq, inventory_reserved, payment_authorized, confirmed, cancelled,
  reserve_inventory, authorize_payment, confirm, cancel,
}
use eventcommerce.Orders.UseCases.{get_order, record_transition}

-- `status in ("confirmed", "cancelled")`
abbrev pub is_terminal : Status → Bool
is_terminal status = status == confirmed || status == cancelled

-- A consumer claims its message once, and claims it without effect where `run` does nothing.
unfoldable pub once : String → String → Action Unit → Action Unit
once event_id consumer_name run = do
  done ← is_processed event_id consumer_name
  if done then pure tt else run

-- The order is staged: transition, row, timeline event, outbox event, claim.
unfoldable pub stage_reserved : String → Order → Action Unit
stage_reserved event_id order = do
  record_transition reserve_inventory EventType.inventory_reserved (Payload.result "reserved")
      EventType.order_inventory_reserved (Payload.status inventory_reserved) order
  mark_processed event_id "ProcessOrderInventoryResult"

unfoldable pub cancel_rejected : String → Order → Action Unit
cancel_rejected event_id order = do
  record_transition (cancel "insufficient_stock") EventType.inventory_rejected
      (Payload.result_reason "rejected" "insufficient_stock") EventType.order_cancelled
      (Payload.status_reason cancelled "insufficient_stock") order
  mark_processed event_id "ProcessOrderInventoryResult"

unfoldable pub inventory_result_of : String → String → Order → Action Unit
inventory_result_of event_id result order =
    if is_terminal order.status
    then mark_processed event_id "ProcessOrderInventoryResult"
    else if result == "reserved"
    then (if order.status == inventory_reserved
        then mark_processed event_id "ProcessOrderInventoryResult"
        else stage_reserved event_id order)
    else if result == "rejected"
    then cancel_rejected event_id order
    else mark_processed event_id "ProcessOrderInventoryResult"

-- `ProcessOrderInventoryResult.execute`
unfoldable pub process_order_inventory_result : String → Uuid → String → Action Unit
process_order_inventory_result event_id order_id result =
    once event_id "ProcessOrderInventoryResult"
      (do order ← get_order order_id; inventory_result_of event_id result order)

unfoldable pub stage_authorized : String → Order → Action Unit
stage_authorized event_id order = do
  record_transition authorize_payment EventType.payment_authorized (Payload.result "authorized")
      EventType.order_payment_authorized (Payload.status payment_authorized) order
  mark_processed event_id "ProcessOrderPaymentResult"

unfoldable pub cancel_declined : String → Order → Action Unit
cancel_declined event_id order = do
  record_transition (cancel "payment_declined") EventType.payment_rejected
      (Payload.result_reason "rejected" "payment_declined") EventType.order_cancelled
      (Payload.status_reason cancelled "payment_declined") order
  mark_processed event_id "ProcessOrderPaymentResult"

unfoldable pub payment_result_of : String → String → Order → Action Unit
payment_result_of event_id result order =
    if is_terminal order.status
    then mark_processed event_id "ProcessOrderPaymentResult"
    else if result == "authorized"
    then (if order.status == payment_authorized
        then mark_processed event_id "ProcessOrderPaymentResult"
        else if not (order.status == inventory_reserved)
        then mark_processed event_id "ProcessOrderPaymentResult"
        else stage_authorized event_id order)
    else if result == "rejected"
    then (if not (order.status == inventory_reserved)
        then mark_processed event_id "ProcessOrderPaymentResult"
        else cancel_declined event_id order)
    else mark_processed event_id "ProcessOrderPaymentResult"

-- `ProcessOrderPaymentResult.execute`
unfoldable pub process_order_payment_result : String → Uuid → String → Action Unit
process_order_payment_result event_id order_id result =
    once event_id "ProcessOrderPaymentResult"
      (do order ← get_order order_id; payment_result_of event_id result order)

-- The timeline keeps `OrderPaymentAuthorized`, while the outbox announces `OrderConfirmed`.
unfoldable pub confirm_authorized : String → Order → Action Unit
confirm_authorized event_id order = do
  record_transition confirm EventType.order_payment_authorized (Payload.status payment_authorized)
      EventType.order_confirmed (Payload.status confirmed) order
  mark_processed event_id "FinalizePaymentAuthorized"

unfoldable pub finalize_order : String → Order → Action Unit
finalize_order event_id order =
    if order.status == confirmed
    then mark_processed event_id "FinalizePaymentAuthorized"
    else if order.status == cancelled
    then mark_processed event_id "FinalizePaymentAuthorized"
    else if not (order.status == payment_authorized)
    then mark_processed event_id "FinalizePaymentAuthorized"
    else confirm_authorized event_id order

-- `FinalizePaymentAuthorized.execute`
unfoldable pub finalize_payment_authorized : String → Uuid → Action Unit
finalize_payment_authorized event_id order_id =
    once event_id "FinalizePaymentAuthorized"
      (do order ← get_order order_id; finalize_order event_id order)
