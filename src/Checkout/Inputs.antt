-- ===== src/Checkout/Inputs.antt =====
-- What a checkout charges and reserves: the inline shape as it is, or a cart projected onto the
-- active catalog (`execute` and `_resolve_cart_inputs` of
-- backend/app/modules/checkout/application/checkout.py).
use eventcommerce.Base.{
  String, Bool, true, false, not, ◌||◌, Option, none, some, List, [], ◌∷◌, map, ◌==◌, string_eq,
}
use eventcommerce.Base.Int.{ℤ}
use eventcommerce.Base.Decimal.{Decimal, exceeds}
use eventcommerce.Result.{
  Uuid, cart_not_found, empty_cart, cart_currency_mismatch, cart_total_exceeded, value_error,
}
use eventcommerce.Session.{Action, pure, raise, raise_if, or_raise, gets, ◌>>=◌, ◌>>◌}
use eventcommerce.Orders.Domain.{OrderItem}
use eventcommerce.Cart.Domain.{Cart}
use eventcommerce.Cart.Repository.{get_cart_by_id, list_lines}
use eventcommerce.Cart.View.{CartView, CartLineView, fill_catalog, build_cart_view}
use eventcommerce.Checkout.Request.{CheckoutRequest, CheckoutItemRequest, max_amount}

pub record CheckoutInputs : Type 0 where
  pub order_items : List OrderItem
  pub lines : List (String × ℤ)
  pub amount : Decimal
  pub currency : String
  pub cart_id_to_clear : Option Uuid

abbrev requested_item : CheckoutItemRequest → OrderItem
requested_item item = record { product_id = item.product_id; quantity = item.quantity }

abbrev requested_line : CheckoutItemRequest → String × ℤ
requested_line item = (item.product_id, item.quantity)

abbrev pub inline_inputs :
    Option (List CheckoutItemRequest) → Option Decimal → Option String → Action CheckoutInputs
inline_inputs (some items) (some amount) (some currency) = pure (record {
  order_items = map requested_item items;
  lines = map requested_line items;
  amount = amount;
  currency = currency;
  cart_id_to_clear = none;
})
inline_inputs _ _ _ = raise value_error

-- A cart that is missing and one of another owner are one error.
abbrev pub owned_cart : Uuid → Option Cart → Action Cart
owned_cart owner none = raise cart_not_found
owned_cart owner (some cart) = do
  raise_if (not (cart.customer_id == owner)) cart_not_found
  pure cart

abbrev is_empty : {A : Type 0} → List A → Bool
is_empty [] = true
is_empty (_ ∷ _) = false

-- `len({item.currency for item in view.items}) > 1`
unfoldable pub has_other_currency : String → List CartLineView → Bool
has_other_currency currency [] = false
has_other_currency currency (item ∷ items) =
    not (item.currency == currency) || has_other_currency currency items

abbrev pub has_mixed_currencies : List CartLineView → Bool
has_mixed_currencies [] = false
has_mixed_currencies (item ∷ items) = has_other_currency item.currency items

abbrev view_item : CartLineView → OrderItem
view_item item = record { product_id = item.product_id; quantity = item.quantity }

abbrev view_line_pair : CartLineView → String × ℤ
view_line_pair item = (item.product_id, item.quantity)

unfoldable pub resolve_cart_inputs : (String → Option Uuid) → String → Uuid → Action CheckoutInputs
unfolding get_cart_by_id list_lines fill_catalog build_cart_view has_other_currency
resolve_cart_inputs parse_uuid customer_id cart_id = do
  owner ← or_raise (parse_uuid customer_id) cart_not_found
  found ← get_cart_by_id cart_id
  cart ← owned_cart owner found
  stored ← list_lines cart.id
  raise_if (is_empty stored) empty_cart
  catalog ← gets (λ db. fill_catalog db stored [])
  let view : CartView = build_cart_view cart stored catalog
  raise_if (is_empty view.items) empty_cart
  raise_if (has_mixed_currencies view.items) cart_currency_mismatch
  raise_if (exceeds view.subtotal max_amount) cart_total_exceeded
  currency ← or_raise view.currency empty_cart
  pure (record {
    order_items = map view_item view.items;
    lines = map view_line_pair view.items;
    amount = view.subtotal;
    currency = currency;
    cart_id_to_clear = some cart.id;
  })

abbrev pub inputs_of :
    (String → Option Uuid) → String → CheckoutRequest → Option Uuid → Action CheckoutInputs
inputs_of parse_uuid customer_id request (some cart_id) =
    resolve_cart_inputs parse_uuid customer_id cart_id
inputs_of parse_uuid customer_id request none =
    inline_inputs request.items request.amount request.currency

unfoldable pub resolve_inputs :
    (String → Option Uuid) → String → CheckoutRequest → Action CheckoutInputs
unfolding resolve_cart_inputs
resolve_inputs parse_uuid customer_id request =
    inputs_of parse_uuid customer_id request request.cart_id
