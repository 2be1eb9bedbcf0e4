-- ===== src/Cart/Bounds.antt =====
-- The quantities of cart lines stay within the bounds of
-- backend/app/modules/cart/domain/services.py, through the four use cases of a cart.
use eventcommerce.Base.{All, String, Option, none, some, string_eq, pair_eq}
use eventcommerce.Base.Int.{ℤ}
use eventcommerce.Result.{Uuid}
use eventcommerce.Session.{Db}
use eventcommerce.Session.Keeps.{Keeps, keeps_rules}
use eventcommerce.Catalog.Domain.{Product}
use eventcommerce.Cart.Domain.{CartLine}
use eventcommerce.Cart.Repository.{list_lines, get_line, delete_found, delete_line, get_or_create}
use eventcommerce.Cart.UseCases.{
  get_cart, active_product, add_valid, set_valid, add_item, found_line, set_item_quantity,
  remove_item,
}
use eventcommerce.Cart.Made
use eventcommerce.Cart.Ranges.{
  InRange, AllInRange, HasQuantity, valid-Keeps, listed-Keeps, save_line-Keeps,
  increment_or_insert-Keeps, current_line-HasQuantity, without_line-All,
}

get_or_create-Keeps : (customer_id : Uuid) → Keeps AllInRange (get_or_create customer_id)
get_or_create-Keeps customer_id = Made.get_or_create-Keeps (All HasQuantity) customer_id

list_lines-Keeps : (cart_id : Uuid) → Keeps AllInRange (list_lines cart_id)
unfolding list_lines
list_lines-Keeps cart_id = search keeps_rules

active_product-Keeps : (found : Option Product) → Keeps AllInRange (active_product found)
active_product-Keeps none = search keeps_rules
active_product-Keeps (some product) = search keeps_rules

found_line-Keeps : (found : Option CartLine) → Keeps AllInRange (found_line found)
found_line-Keeps none = search keeps_rules
found_line-Keeps (some line) = search keeps_rules

get_line-Keeps :
    (cart_id : Uuid) (product_id : String) → Keeps AllInRange (get_line cart_id product_id)
unfolding get_line
get_line-Keeps cart_id product_id = search keeps_rules

delete_found-Keeps :
    (cart_id : Uuid) (product_id : String) (found : Option CartLine)
    → Keeps AllInRange (delete_found cart_id product_id found)
delete_found-Keeps cart_id product_id none = search keeps_rules
delete_found-Keeps cart_id product_id (some line) = record {
  at = λ db h. without_line-All cart_id product_id db.cart_items h;
}

delete_line-Keeps :
    (cart_id : Uuid) (product_id : String) → Keeps AllInRange (delete_line cart_id product_id)
unfolding delete_line
delete_line-Keeps cart_id product_id = search (keeps_rules, get_line-Keeps, delete_found-Keeps)

ruleset cart_rules = (
  keeps_rules, get_or_create-Keeps, list_lines-Keeps, active_product-Keeps, found_line-Keeps,
  get_line-Keeps, delete_line-Keeps,
)

get_cart-Keeps : (customer_id : Uuid) → Keeps AllInRange (get_cart customer_id)
unfolding get_cart
get_cart-Keeps customer_id = search cart_rules depth 9

remove_item-Keeps :
    (customer_id : Uuid) (product_id : String)
    → Keeps AllInRange (remove_item customer_id product_id)
unfolding remove_item
remove_item-Keeps customer_id product_id = search cart_rules depth 9

set_valid-Keeps :
    (customer_id : Uuid) (product_id : String) (quantity : ℤ)
    → InRange quantity
    → Keeps AllInRange (set_valid customer_id product_id quantity)
unfolding set_valid
set_valid-Keeps customer_id product_id quantity q = search (cart_rules, save_line-Keeps, q) depth 15

set_item_quantity-Keeps :
    (customer_id : Uuid) (product_id : String) (quantity : ℤ)
    → Keeps AllInRange (set_item_quantity customer_id product_id quantity)
unfolding set_item_quantity
set_item_quantity-Keeps customer_id product_id quantity =
    valid-Keeps quantity (set_valid customer_id product_id quantity)
      (set_valid-Keeps customer_id product_id quantity)

add_valid-Keeps :
    (customer_id : Uuid) (product_id : String) (quantity : ℤ)
    → InRange quantity
    → Keeps AllInRange (add_valid customer_id product_id quantity)
unfolding add_valid
add_valid-Keeps customer_id product_id quantity q =
    search (cart_rules, listed-Keeps, increment_or_insert-Keeps, current_line-HasQuantity, q) depth
      20

add_item-Keeps :
    (customer_id : Uuid) (product_id : String) (quantity : ℤ)
    → Keeps AllInRange (add_item customer_id product_id quantity)
unfolding add_item
add_item-Keeps customer_id product_id quantity =
    valid-Keeps quantity (add_valid customer_id product_id quantity)
      (add_valid-Keeps customer_id product_id quantity)

-- Whatever the four use cases of a cart are called with, and whether they return or raise, the
-- quantity of every line of every cart stays between 1 and 10000.
pub requests-AllInRange :
    (customer_id : Uuid) (product_id : String) (quantity : ℤ) (db : Db)
    → AllInRange db
    → AllInRange (get_cart customer_id db).1
      × AllInRange (add_item customer_id product_id quantity db).1
      × AllInRange (set_item_quantity customer_id product_id quantity db).1
      × AllInRange (remove_item customer_id product_id db).1
requests-AllInRange customer_id product_id quantity db h = (
  (get_cart-Keeps customer_id).at db h,
  (add_item-Keeps customer_id product_id quantity).at db h,
  (set_item_quantity-Keeps customer_id product_id quantity).at db h,
  (remove_item-Keeps customer_id product_id).at db h,
)
