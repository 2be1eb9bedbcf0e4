-- ===== src/Cart/View.antt =====
-- The projection of a cart onto the catalog: backend/app/modules/cart/application/cart_view.py.
use eventcommerce.Base.{
  String, not, Option, none, some, List, [], ◌∷◌, find, upsert, string_eq, if◌then◌else◌,
}
use eventcommerce.Base.Int.{ℤ, pos}
use eventcommerce.Base.Decimal.{Decimal, finite, ◌+decimal◌, times}
use eventcommerce.Result.{Uuid}
use eventcommerce.Session.{Db}
use eventcommerce.Catalog.Domain.{Product}
use eventcommerce.Catalog.Repository.{product_row}
use eventcommerce.Cart.Domain.{Cart, CartLine}

pub record CartLineView : Type 0 where
  pub product_id : String
  pub name : String
  pub quantity : ℤ
  pub unit_price : Decimal
  pub currency : String
  pub line_total : Decimal

pub record CartView : Type 0 where
  pub cart_id : Uuid
  pub customer_id : Uuid
  pub items : List CartLineView
  pub subtotal : Decimal
  pub currency : Option String

-- `catalog`, a dict from product ids to products.
abbrev pub Catalog : Type 0
Catalog = List (String × Product)

abbrev entry_key : String × Product → String
entry_key entry = entry.0

abbrev replace_entry : String × Product → String × Product → String × Product
replace_entry old new = (old.0, new.1)

abbrev product_of : Option (String × Product) → Option Product
product_of none = none
product_of (some entry) = some entry.1

-- `catalog.get(product_id)` and `catalog[product_id] = product`
abbrev pub catalog_get : String → Catalog → Option Product
catalog_get product_id catalog = product_of (find entry_key product_id catalog)

abbrev pub catalog_put : String → Product → Catalog → Catalog
catalog_put product_id product catalog =
    upsert entry_key replace_entry (product_id, product) catalog

-- `if product is not None and product.active`
abbrev pub put_active : String → Option Product → Catalog → Catalog
put_active product_id none catalog = catalog
put_active product_id (some product) catalog =
    if product.active then catalog_put product_id product catalog else catalog

-- The loop with which the use cases fill `catalog` from the lines of a cart.
unfoldable pub fill_catalog : Db → List CartLine → Catalog → Catalog
fill_catalog db [] catalog = catalog
fill_catalog db (line ∷ lines) catalog =
    fill_catalog db lines (put_active line.product_id (product_row line.product_id db) catalog)

-- A line whose product is missing or inactive is skipped.
abbrev pub view_line : CartLine → Option Product → List CartLineView → List CartLineView
view_line line none rest = rest
view_line line (some product) rest =
    if not product.active
    then rest
    else record {
      product_id = line.product_id;
      name = product.name;
      quantity = line.quantity;
      unit_price = product.price;
      currency = product.currency;
      line_total = times product.price line.quantity;
    }
      ∷ rest

unfoldable pub view_lines : List CartLine → Catalog → List CartLineView
view_lines [] products = []
view_lines (line ∷ lines) products =
    view_line line (catalog_get line.product_id products) (view_lines lines products)

abbrev pub empty_subtotal : Decimal
empty_subtotal = finite (pos 0) 2

-- `sum((item.line_total for item in items), EMPTY_SUBTOTAL)`
unfoldable pub sum_totals : Decimal → List CartLineView → Decimal
sum_totals subtotal [] = subtotal
sum_totals subtotal (item ∷ items) = sum_totals (subtotal +decimal item.line_total) items

abbrev pub first_currency : List CartLineView → Option String
first_currency [] = none
first_currency (item ∷ items) = some item.currency

unfoldable pub build_cart_view : Cart → List CartLine → Catalog → CartView
unfolding view_lines sum_totals
build_cart_view cart lines products =
    let items = view_lines lines products in
    record {
      cart_id = cart.id;
      customer_id = cart.customer_id;
      items = items;
      subtotal = sum_totals empty_subtotal items;
      currency = first_currency items;
    }
