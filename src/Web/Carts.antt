-- ===== src/Web/Carts.antt =====
-- backend/app/modules/cart/api/routes.py and backend/app/modules/checkout/api/routes.py. The body of
-- the answer of a cart route has all fields of the view.
use eventcommerce.Base.{String, Option, none, some}
use eventcommerce.Base.Int.{ℤ}
use eventcommerce.Result.{
  Result, ok, err, cart_product_not_found, cart_item_not_found, invalid_quantity,
  cart_limit_exceeded, currency_mismatch, idempotency_conflict, cart_not_found, empty_cart,
  cart_currency_mismatch, cart_total_exceeded,
}
use eventcommerce.Messaging.Events.{ResponseBody}
use eventcommerce.Cart.View.{CartView}
use eventcommerce.Cart.UseCases.{get_cart, add_item, set_item_quantity, remove_item}
use eventcommerce.Checkout.Request.{CheckoutRequest}
use eventcommerce.Checkout.Execute.{CheckoutServices, CheckoutResult, execute}
use eventcommerce.Web.Response.{
  text, message, Response, success, failed, Handler, Clauses, no_clauses, commits,
}
use eventcommerce.Web.Access.{Gate, behind}
use eventcommerce.Iam.Access.{CurrentUser}

abbrev pub add_clauses : Clauses
add_clauses cart_product_not_found = some (404, text "Product not found")
add_clauses invalid_quantity = some (422, message invalid_quantity)
add_clauses cart_limit_exceeded = some (409, message cart_limit_exceeded)
add_clauses currency_mismatch = some (409, message currency_mismatch)
add_clauses _ = none

abbrev pub set_clauses : Clauses
set_clauses cart_product_not_found = some (404, text "Product not found")
set_clauses cart_item_not_found = some (404, text "Cart item not found")
set_clauses invalid_quantity = some (422, message invalid_quantity)
set_clauses cart_limit_exceeded = some (409, message cart_limit_exceeded)
set_clauses _ = none

abbrev pub whole_view : CartView → CartView
whole_view view = view

unfoldable pub get_cart_route : Gate → Handler CartView
get_cart_route gate =
    behind gate (λ current. commits no_clauses 200 whole_view (get_cart current.user_id))

unfoldable pub add_cart_item_route : String → ℤ → Gate → Handler CartView
add_cart_item_route product_id quantity gate =
    behind gate
      (λ current. commits add_clauses 200 whole_view (add_item current.user_id product_id quantity))

unfoldable pub set_cart_item_quantity_route : String → ℤ → Gate → Handler CartView
set_cart_item_quantity_route product_id quantity gate = behind gate (λ current.
    commits set_clauses 200 whole_view (set_item_quantity current.user_id product_id quantity))

unfoldable pub remove_cart_item_route : String → Gate → Handler CartView
remove_cart_item_route product_id gate =
    behind gate
      (λ current. commits no_clauses 200 whole_view (remove_item current.user_id product_id))

-- The body's key gives way to the header's, and its customer to the caller. The body is valid and
-- the key matches its pattern when the route runs, so that the second validation passes.
abbrev pub checkout_request : CheckoutRequest → Option String → CurrentUser → CheckoutRequest
checkout_request body idempotency_key current = record body {
  idempotency_key = idempotency_key;
  customer_id = some current.user_id;
}

-- `except Exception` is the last of the clauses.
abbrev pub checkout_clauses : Clauses
checkout_clauses idempotency_conflict = some (409, message idempotency_conflict)
checkout_clauses cart_not_found = some (404, message cart_not_found)
checkout_clauses empty_cart = some (422, message empty_cart)
checkout_clauses cart_currency_mismatch = some (422, message cart_currency_mismatch)
checkout_clauses cart_total_exceeded = some (422, message cart_total_exceeded)
checkout_clauses _ = some (500, text "internal error")

abbrev pub checkout_answer : Result CheckoutResult → Response ResponseBody
checkout_answer (ok result) = success result.status_code result.body
checkout_answer (err e) = failed (checkout_clauses e)

-- `execute` has its own transactions, so that the route neither commits nor takes anything back.
unfoldable pub create_checkout_route :
    CheckoutServices → CheckoutRequest → Option String → Gate → Handler ResponseBody
create_checkout_route services body idempotency_key gate = behind gate (λ current db.
    let (r, db') = execute services (checkout_request body idempotency_key current) db in
    (checkout_answer r, db'))
