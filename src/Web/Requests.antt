-- ===== src/Web/Requests.antt =====
-- The routes of the program under one type: the routers that `create_app` of backend/app/app.py
-- includes. The requests are those that the schema library lets through; the health checks are left
-- out.
use eventcommerce.Base.{ℕ, String, Option, List}
use eventcommerce.Base.Int.{ℤ}
use eventcommerce.Base.Decimal.{Decimal}
use eventcommerce.Result.{Uuid}
use eventcommerce.Messaging.Events.{DomainEvent, ResponseBody}
use eventcommerce.Orders.Domain.{Order, OrderItem}
use eventcommerce.Inventory.Domain.{Inventory}
use eventcommerce.Payments.Policy.{Hashing}
use eventcommerce.Catalog.Domain.{Product}
use eventcommerce.Catalog.UseCases.{NewProduct}
use eventcommerce.Cart.View.{CartView}
use eventcommerce.Checkout.Request.{CheckoutRequest}
use eventcommerce.Checkout.Execute.{CheckoutServices}
use eventcommerce.Operator.OrderQueue.{QueueFilter, OrderQueueRow}
use eventcommerce.Operator.CatalogRows.{CatalogRow}
use eventcommerce.Operator.Simulation.{PaymentSimulation}
use eventcommerce.Iam.Access.{CurrentUser}
use eventcommerce.Web.Response.{Response, success, failure, Handler}
use eventcommerce.Web.Access.{Gate}
use eventcommerce.Web.Orders.{
  OrderResponse, OrderCancelResponse, create_order_route, get_order_route, get_timeline_route,
  confirm_order_route, cancel_order_route, adjust_stock_route,
}
use eventcommerce.Web.Carts.{
  get_cart_route, add_cart_item_route, set_cart_item_quantity_route, remove_cart_item_route,
  create_checkout_route,
}
use eventcommerce.Web.Products.{ProductUpdateRequest, create_product_route, update_product_route}
use eventcommerce.Web.Identity.{me_route}
use eventcommerce.Web.Operator.{list_order_queue_route, list_catalog_route, simulate_payment_route}

-- The requests that only an operator may make.
pub data OperatorRequest : Type 0 where
  post_confirmation : Uuid → OperatorRequest
  post_cancellation : Uuid → String → OperatorRequest
  post_adjustment : String → ℤ → OperatorRequest
  post_product : NewProduct → OperatorRequest
  patch_product : String → ProductUpdateRequest → OperatorRequest
  read_queue : QueueFilter → ℕ → ℕ → OperatorRequest
  read_rows : ℕ → ℕ → OperatorRequest
  read_simulation : Uuid → Decimal → String → OperatorRequest

-- Those that any user may make.
pub data UserRequest : Type 0 where
  post_order : List OrderItem → UserRequest
  read_order : Uuid → UserRequest
  read_timeline : Uuid → UserRequest
  read_cart : UserRequest
  post_cart_item : String → ℤ → UserRequest
  patch_cart_item : String → ℤ → UserRequest
  delete_cart_item : String → UserRequest
  post_checkout : CheckoutRequest → Option String → UserRequest
  read_me : UserRequest

-- The bodies of the answers.
pub data Body : Type 0 where
  order_body : OrderResponse → Body
  cancel_body : OrderCancelResponse → Body
  full_order_body : Order → Body
  timeline_body : List DomainEvent → Body
  stock_body : Inventory → Body
  product_body : Product → Body
  queue_body : List OrderQueueRow → Body
  rows_body : List CatalogRow → Body
  simulation_body : PaymentSimulation → Body
  cart_body : CartView → Body
  checkout_body : ResponseBody → Body
  caller_body : CurrentUser → Body

abbrev pub with_body : {A : Type 0} → (A → Body) → Response A → Response Body
with_body body (success status a) = success status (body a)
with_body body (failure status detail) = failure status detail

abbrev pub respond : {A : Type 0} → (A → Body) → Handler A → Handler Body
respond body route db = let (response, db') = route db in (with_body body response, db')

-- What the routes use from outside the repository.
pub record RouteServices : Type 0 where
  pub strip : String → String
  pub upper : String → String
  pub uuid_int : Uuid → ℕ
  pub hashing : Hashing
  pub checkout : CheckoutServices

module _ (services : RouteServices) where
  unfoldable pub operator_route : OperatorRequest → Gate → Handler Body
  operator_route (OperatorRequest.post_confirmation order_id) gate =
      respond order_body (confirm_order_route order_id gate)
  operator_route (OperatorRequest.post_cancellation order_id reason) gate =
      respond cancel_body (cancel_order_route order_id reason gate)
  operator_route (OperatorRequest.post_adjustment product_id delta) gate =
      respond stock_body (adjust_stock_route product_id delta gate)
  operator_route (OperatorRequest.post_product body) gate =
      respond product_body (create_product_route services.strip body gate)
  operator_route (OperatorRequest.patch_product product_id body) gate =
      respond product_body (update_product_route services.strip product_id body gate)
  operator_route (OperatorRequest.read_queue filter limit offset) gate =
      respond queue_body (list_order_queue_route services.uuid_int filter limit offset gate)
  operator_route (OperatorRequest.read_rows limit offset) gate =
      respond rows_body (list_catalog_route limit offset gate)
  operator_route (OperatorRequest.read_simulation order_id amount currency) gate =
      respond simulation_body
        (simulate_payment_route services.hashing services.upper order_id amount currency gate)

  unfoldable pub user_route : UserRequest → Gate → Handler Body
  user_route (UserRequest.post_order items) gate =
      respond order_body (create_order_route items gate)
  user_route (UserRequest.read_order order_id) gate =
      respond full_order_body (get_order_route order_id gate)
  user_route (UserRequest.read_timeline order_id) gate =
      respond timeline_body (get_timeline_route order_id gate)
  user_route UserRequest.read_cart gate = respond cart_body (get_cart_route gate)
  user_route (UserRequest.post_cart_item product_id quantity) gate =
      respond cart_body (add_cart_item_route product_id quantity gate)
  user_route (UserRequest.patch_cart_item product_id quantity) gate =
      respond cart_body (set_cart_item_quantity_route product_id quantity gate)
  user_route (UserRequest.delete_cart_item product_id) gate =
      respond cart_body (remove_cart_item_route product_id gate)
  user_route (UserRequest.post_checkout body idempotency_key) gate =
      respond checkout_body (create_checkout_route services.checkout body idempotency_key gate)
  user_route UserRequest.read_me gate = respond caller_body (me_route gate)
