-- ===== src/Web/Orders.antt =====
-- backend/app/modules/orders/api/routes.py and backend/app/modules/inventory/api/routes.py.
use eventcommerce.Base.{
  String, Bool, not, ◌&&◌, Option, none, some, List, ◌==◌, string_eq, if◌then◌else◌,
}
use eventcommerce.Base.Int.{ℤ}
use eventcommerce.Result.{
  Uuid, Result, ok, err, order_not_found, invalid_state_transition, inventory_not_found,
  insufficient_stock,
}
use eventcommerce.Messaging.Events.{DomainEvent}
use eventcommerce.Inventory.Domain.{Inventory}
use eventcommerce.Inventory.UseCases.{adjust_stock}
use eventcommerce.Orders.Domain.{Status, Order, OrderItem}
use eventcommerce.Orders.UseCases.{
  create_order, get_order, get_order_timeline, confirm_order, cancel_order,
}
use eventcommerce.Iam.Access.{CurrentUser}
use eventcommerce.Web.Response.{
  Detail, text, message, success, failure, failed, Handler, Clauses, no_clauses, commits, reads,
}
use eventcommerce.Web.Access.{Gate, require_operator, operator_role, behind}

-- The bodies of the answers to a creation and to a confirmation.
pub record OrderResponse : Type 0 where
  pub order_id : Uuid
  pub status : Status

pub record OrderCancelResponse : Type 0 where
  pub order_id : Uuid
  pub status : Status
  pub cancel_reason : Option String

abbrev pub order_response : Order → OrderResponse
order_response order = record { order_id = order.id; status = order.status }

abbrev pub cancel_response : Order → OrderCancelResponse
cancel_response order = record {
  order_id = order.id;
  status = order.status;
  cancel_reason = order.cancel_reason;
}

abbrev pub order_missing : Detail
order_missing = text "Order not found"

abbrev pub order_clauses : Clauses
order_clauses order_not_found = some (404, order_missing)
order_clauses _ = none

abbrev pub transition_clauses : Clauses
transition_clauses order_not_found = some (404, order_missing)
transition_clauses invalid_state_transition = some (409, message invalid_state_transition)
transition_clauses _ = none

unfoldable pub create_order_route : List OrderItem → Gate → Handler OrderResponse
create_order_route items gate =
    behind gate
      (λ current. commits no_clauses 201 order_response (create_order current.user_id items))

-- `_ensure_owner_or_operator`: false is the 404.
abbrev pub is_owner_or_operator : String → CurrentUser → Bool
is_owner_or_operator order_customer_id current =
    not (not (order_customer_id == current.user_id) && not (current.role == operator_role))

-- The routes that read one order, from the answer of the lookup on.
abbrev pub for_owner : {A : Type 0} → CurrentUser → (Order → Handler A) → Result Order → Handler A
for_owner current route (err e) db = (failed (order_clauses e), db)
for_owner current route (ok order) db =
    if is_owner_or_operator order.customer_id current
    then route order db
    else (failure 404 order_missing, db)

-- The body has all fields of the order.
unfoldable pub get_order_route : Uuid → Gate → Handler Order
get_order_route order_id gate = behind gate (λ current db.
    for_owner current (λ order db. (success 200 order, db)) (get_order order_id db).0 db)

unfoldable pub get_timeline_route : Uuid → Gate → Handler (List DomainEvent)
get_timeline_route order_id gate = behind gate (λ current db.
    for_owner current
      (λ order. reads no_clauses 200 (λ events. events) (get_order_timeline order_id))
      (get_order order_id db).0 db)

unfoldable pub confirm_order_route : Uuid → Gate → Handler OrderResponse
confirm_order_route order_id gate =
    behind (require_operator gate)
      (λ current. commits transition_clauses 200 order_response (confirm_order order_id))

unfoldable pub cancel_order_route : Uuid → String → Gate → Handler OrderCancelResponse
cancel_order_route order_id reason gate =
    behind (require_operator gate)
      (λ current. commits transition_clauses 200 cancel_response (cancel_order order_id reason))

abbrev pub adjust_clauses : Clauses
adjust_clauses inventory_not_found = some (404, message inventory_not_found)
adjust_clauses insufficient_stock = some (422, message insufficient_stock)
adjust_clauses _ = none

-- `adjust_stock` of the inventory; the body has all fields of the row.
unfoldable pub adjust_stock_route : String → ℤ → Gate → Handler Inventory
adjust_stock_route product_id delta gate =
    behind (require_operator gate) (λ current.
      commits adjust_clauses 200 (λ inventory. inventory) (adjust_stock product_id delta))
