-- ===== src/Inventory/UseCases.antt =====
-- backend/app/modules/inventory/application: reserve_inventory.py, release_inventory.py,
-- adjust_stock.py, process_inventory_reservation.py and process_payment_rejected.py.
use eventcommerce.Base.{
  String, Bool, true, false, Option, none, some, List, [], ◌∷◌, ◌==◌, string_eq, not, ◌||◌,
  if◌then◌else◌,
}
use eventcommerce.Base.Int.{ℤ, pos, ltb_ℤ}
use eventcommerce.Result.{
  Uuid, Error, ok, err, insufficient_stock, inventory_not_found, value_error,
}
use eventcommerce.Session.{Action, pure, lift, or_raise, ◌>>=◌, ◌>>◌}
use eventcommerce.Messaging.Events.{EventType, Payload}
use eventcommerce.Messaging.Outbox.{save_outbox}
use eventcommerce.Messaging.Idempotency.{mark_processed}
use eventcommerce.Orders.Domain.{Status, Order, OrderItem, status_eq, inventory_reserved}
use eventcommerce.Orders.Consumers.{is_terminal, once}
use eventcommerce.Orders.UseCases.{get_order, get_order_status}
use eventcommerce.Inventory.Domain.{Inventory, reserve_stock, release_stock, adjust_available_stock}
use eventcommerce.Inventory.Repository.{get_by_product, lock_by_product, save_inventory}

-- `ReserveInventory.execute`, and the body of the loop over the items of an order
unfoldable pub reserve_item : String → ℤ → Action Unit
unfolding get_by_product reserve_stock save_inventory
reserve_item product_id quantity = do
  found ← get_by_product product_id
  inventory ← or_raise found insufficient_stock
  reserved ← lift (reserve_stock inventory quantity)
  save_inventory reserved

-- The row, if there is one, gives back what was reserved.
unfoldable pub release_row : ℤ → Option Inventory → Action Unit
unfolding save_inventory
release_row quantity none = pure tt
release_row quantity (some inventory) = save_inventory (release_stock inventory quantity)

-- `ReleaseInventory.execute`
unfoldable pub release_inventory : String → ℤ → Action Unit
unfolding get_by_product release_row
release_inventory product_id quantity = do
  found ← get_by_product product_id
  release_row quantity found

-- `AdjustStock.execute`
unfoldable pub adjust_stock : String → ℤ → Action Inventory
unfolding lock_by_product adjust_available_stock save_inventory
adjust_stock product_id delta = do
  found ← lock_by_product product_id
  inventory ← or_raise found inventory_not_found
  adjusted ← lift (adjust_available_stock inventory delta)
  save_inventory adjusted
  pure adjusted

-- `for item in items` of the reservation
unfoldable pub reserve_items : List OrderItem → Action Unit
reserve_items [] = pure tt
reserve_items (item ∷ items) = do reserve_item item.product_id item.quantity; reserve_items items

abbrev pub is_insufficient : Error → Bool
is_insufficient insufficient_stock = true
is_insufficient _ = false

-- `except InsufficientStockError`: nothing that the loop has saved is undone.
abbrev pub except_insufficient : Action Unit → Action Unit → Action Unit
except_insufficient m handler db =
    let (r, db') = m db in
    elim r [ ok _ ↦ (ok tt, db') | err e ↦ if is_insufficient e then handler db' else (err e, db') ]

unfoldable pub reserve_or_reject : String → List OrderItem → Action Unit
reserve_or_reject order_id items =
    except_insufficient
      (do
        reserve_items items
        save_outbox EventType.inventory_reserved order_id (Payload.items items))
      (save_outbox EventType.inventory_rejected order_id
        (Payload.rejected_items items "insufficient_stock"))

-- A status that is missing is not terminal.
abbrev pub is_closed : Option Status → Bool
is_closed none = false
is_closed (some status) = is_terminal status

-- `ProcessInventoryReservation.execute`; `order_uuid` is `UUID(str(order_id))`.
unfoldable pub process_inventory_reservation :
    (String → Option Uuid) → String → String → List OrderItem → Action Unit
process_inventory_reservation parse_uuid event_id order_id items =
    once event_id "ProcessInventoryReservation" (do
      order_uuid ← or_raise (parse_uuid order_id) value_error
      status ← get_order_status order_uuid
      if is_closed status then mark_processed event_id "ProcessInventoryReservation" else do
        reserve_or_reject order_id items
        mark_processed event_id "ProcessInventoryReservation")

-- One line of the compensation; a line that it cannot release it passes over.
unfoldable pub release_item : OrderItem → Action Unit
release_item item =
    if item.product_id == "" || ltb_ℤ item.quantity (pos 1)
    then pure tt
    else release_inventory item.product_id item.quantity

unfoldable pub release_items : List OrderItem → Action Unit
release_items [] = pure tt
release_items (item ∷ items) = do release_item item; release_items items

unfoldable pub compensate : String → Order → Action Unit
compensate event_id order =
    if not (order.status == inventory_reserved)
    then mark_processed event_id "ProcessPaymentRejected"
    else do release_items order.items; mark_processed event_id "ProcessPaymentRejected"

-- `ProcessPaymentRejected.execute`
unfoldable pub process_payment_rejected : String → Uuid → Action Unit
process_payment_rejected event_id order_id =
    once event_id "ProcessPaymentRejected"
      (do order ← get_order order_id; compensate event_id order)
