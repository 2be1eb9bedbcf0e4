-- ===== src/Cart/UseCases.antt =====
-- The use cases of a cart: get_cart.py, add_item.py, set_item_quantity.py and remove_item.py of
-- backend/app/modules/cart/application.
use eventcommerce.Base.{
  ℕ, String, Bool, false, not, Option, none, some, List, [], ◌∷◌, find, ◌==◌, string_eq, pair_eq,
  leb, length,
}
use eventcommerce.Base.Int.{ℤ, ◌+ℤ◌, ltb_ℤ}
use eventcommerce.Result.{
  Uuid, cart_product_not_found, cart_item_not_found, cart_limit_exceeded, currency_mismatch,
}
use eventcommerce.Session.{Db, Action, pure, raise, raise_if, lift, gets, ◌>>=◌, ◌>>◌}
use eventcommerce.Catalog.Domain.{Product}
use eventcommerce.Catalog.Repository.{product_row}
use eventcommerce.Cart.Domain.{Cart, CartLine, validate_quantity, max_quantity}
use eventcommerce.Cart.Repository.{get_or_create, list_lines, get_line, save_line, delete_line}
use eventcommerce.Cart.View.{
  CartView, Catalog, catalog_get, catalog_put, fill_catalog, build_cart_view,
}

abbrev pub max_lines : ℕ
max_lines = 100

-- The last steps of three of the use cases: the lines, the catalog of their active products, the
-- view.
abbrev pub view_of : Cart → (Catalog → Catalog) → Action CartView
view_of cart with_product = do
  lines ← list_lines cart.id
  catalog ← gets (λ db. fill_catalog db lines [])
  pure (build_cart_view cart lines (with_product catalog))

unfoldable pub get_cart : Uuid → Action CartView
unfolding list_lines fill_catalog build_cart_view get_or_create
get_cart customer_id = do cart ← get_or_create customer_id; view_of cart (λ catalog. catalog)

-- `if product is None or not product.active: raise ProductNotFoundError(…)`
abbrev pub active_product : Option Product → Action Product
active_product none = raise cart_product_not_found
active_product (some product) = do
  raise_if (not product.active) cart_product_not_found
  pure product

abbrev pub currency_of : Option Product → Option String → Option String
currency_of none rest = rest
currency_of (some product) rest = some product.currency

-- `next((catalog[…].currency for line in lines if … in catalog), None)`
unfoldable pub cart_currency : List CartLine → Catalog → Option String
cart_currency [] catalog = none
cart_currency (line ∷ lines) catalog =
    currency_of (catalog_get line.product_id catalog) (cart_currency lines catalog)

abbrev pub differs_from : String → Option String → Bool
differs_from currency none = false
differs_from currency (some cart_currency) = not (currency == cart_currency)

abbrev pub line_product : CartLine → String
line_product line = line.product_id

-- `next((line for line in lines if line.product_id == product_id), None)`
abbrev pub current_line : String → List CartLine → Option CartLine
current_line product_id lines = find line_product product_id lines

-- A line that is there is incremented, a new one is inserted.
abbrev pub increment_or_insert : Uuid → String → ℤ → ℕ → Option CartLine → Action Unit
increment_or_insert cart_id product_id quantity line_count (some current) = do
  let new_quantity = current.quantity +ℤ quantity
  raise_if (ltb_ℤ max_quantity new_quantity) cart_limit_exceeded
  save_line (record { cart_id = cart_id; product_id = product_id; quantity = new_quantity })
increment_or_insert cart_id product_id quantity line_count none = do
  raise_if (leb max_lines line_count) cart_limit_exceeded
  save_line (record { cart_id = cart_id; product_id = product_id; quantity = quantity })

abbrev put_found : String → Option Product → Catalog → Catalog
put_found product_id none catalog = catalog
put_found product_id (some product) catalog = catalog_put product_id product catalog

abbrev put_unless : String → Option Product → Option Product → Catalog → Catalog
put_unless product_id (some _) fetched catalog = catalog
put_unless product_id none fetched catalog = put_found product_id fetched catalog

-- The second loop of the catalog: products that it has not, active or not.
unfoldable pub fill_missing : Db → List CartLine → Catalog → Catalog
fill_missing db [] catalog = catalog
fill_missing db (line ∷ lines) catalog =
    let product_id = line.product_id in
    fill_missing db lines
      (put_unless product_id (catalog_get product_id catalog) (product_row product_id db) catalog)

-- `execute` of a quantity that is valid
unfoldable pub add_valid : Uuid → String → ℤ → Action CartView
unfolding list_lines fill_catalog fill_missing cart_currency build_cart_view get_or_create save_line
    validate_quantity
add_valid customer_id product_id quantity = do
  found ← gets (product_row product_id)
  product ← active_product found
  cart ← get_or_create customer_id
  lines ← list_lines cart.id
  catalog ← gets (λ db. fill_catalog db lines [])
  raise_if (differs_from product.currency (cart_currency lines catalog)) currency_mismatch
  increment_or_insert cart.id product_id quantity (length lines) (current_line product_id lines)
  lines ← list_lines cart.id
  catalog ← gets (λ db. fill_missing db lines catalog)
  pure (build_cart_view cart lines (catalog_put product_id product catalog))

unfoldable pub add_item : Uuid → String → ℤ → Action CartView
unfolding validate_quantity add_valid
add_item customer_id product_id quantity = do
  lift (validate_quantity quantity)
  add_valid customer_id product_id quantity

abbrev pub found_line : Option CartLine → Action CartLine
found_line none = raise cart_item_not_found
found_line (some line) = pure line

unfoldable pub set_valid : Uuid → String → ℤ → Action CartView
unfolding list_lines fill_catalog build_cart_view get_or_create get_line save_line
set_valid customer_id product_id quantity = do
  found ← gets (product_row product_id)
  product ← active_product found
  cart ← get_or_create customer_id
  current ← get_line cart.id product_id
  found_line current
  save_line (record { cart_id = cart.id; product_id = product_id; quantity = quantity })
  view_of cart (catalog_put product_id product)

unfoldable pub set_item_quantity : Uuid → String → ℤ → Action CartView
unfolding validate_quantity set_valid
set_item_quantity customer_id product_id quantity = do
  lift (validate_quantity quantity)
  set_valid customer_id product_id quantity

unfoldable pub remove_item : Uuid → String → Action CartView
unfolding list_lines fill_catalog build_cart_view get_or_create delete_line
remove_item customer_id product_id = do
  cart ← get_or_create customer_id
  delete_line cart.id product_id
  view_of cart (λ catalog. catalog)
