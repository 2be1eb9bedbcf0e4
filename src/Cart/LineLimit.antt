-- ===== src/Cart/LineLimit.antt =====
-- The limit of add_item.py of backend/app/modules/cart/application on the lines of a cart, through
-- the four use cases of a cart.
use eventcommerce.Base.{
  ◌≤◌, String, true, false, ◌≡◌, refl, Option, none, some, List, [], find, length, length-sort_with,
  ◌==◌, string_eq, pair_eq, eq_iff, arith, Bool-cases, inl, inr, leb,
}
use eventcommerce.Base.Int.{ℤ, ◌+ℤ◌, ltb_ℤ}
use eventcommerce.Result.{Uuid, currency_mismatch}
use eventcommerce.Session.{Db, Action, pure, raise_if, gets, ◌>>=◌, ◌>>◌}
use eventcommerce.Session.Keeps.{Keeps, keeps_rules, Keeps-bind, bind_result}
use eventcommerce.Catalog.Domain.{Product}
use eventcommerce.Cart.Domain.{Cart, CartLine, max_quantity}
use eventcommerce.Cart.Repository.{
  line_key, lines_of, cart_lines, line_before, list_lines, get_line, save_line, delete_found,
  delete_line, get_or_create,
}
use eventcommerce.Catalog.Repository.{product_row}
use eventcommerce.Cart.View.{Catalog, build_cart_view, catalog_put, fill_catalog}
use eventcommerce.Cart.UseCases.{
  max_lines, get_cart, active_product, add_valid, set_valid, add_item, found_line,
  set_item_quantity, remove_item, current_line, increment_or_insert, differs_from, cart_currency,
  fill_missing, view_of,
}
use eventcommerce.Cart.Counts.{
  line_count, has_line, has_line-current_line, has_line-find, line_count-upsert,
  line_count-elsewhere, line_count-upsert_le, line_count-without_line,
}
use eventcommerce.Cart.Made

-- No cart has more lines than the limit.
abbrev pub FewLines : List CartLine → Type 0
FewLines lines = (cart_id : Uuid) → line_count cart_id lines ≤ max_lines

abbrev pub IsWithinLimit : Db → Type 0
IsWithinLimit db = FewLines db.cart_items

-- A write of a line that is there, or of a line of a cart that has room for one more.
save_line-here :
    (line : CartLine) (db : Db)
    → has_line line.cart_id line.product_id db.cart_items ≡ true
    → IsWithinLimit db
    → IsWithinLimit (save_line line db).1
unfolding save_line
save_line-here line db here h =
    λ cart_id. omega (arith, line_count-upsert cart_id line db.cart_items here, h cart_id)

save_line-room :
    (line : CartLine) (db : Db)
    → leb max_lines (line_count line.cart_id db.cart_items) ≡ false
    → IsWithinLimit db
    → IsWithinLimit (save_line line db).1
unfolding save_line
save_line-room line db room h = λ cart_id. elim (Bool-cases (line.cart_id == cart_id)) [
  | inl own ↦
      let named : line.cart_id ≡ cart_id = ground (arith, eq_iff line.cart_id cart_id) in
      let fits : leb max_lines (line_count cart_id db.cart_items) ≡ false = rw named at room in
      ground (arith, line_count-upsert_le cart_id line db.cart_items, fits)
  | inr foreign ↦ omega (arith, line_count-elsewhere cart_id line db.cart_items foreign, h cart_id)
]

increment_or_insert-IsWithinLimit :
    (cart_id : Uuid) (product_id : String) (quantity : ℤ) (db : Db)
    → IsWithinLimit db
    → IsWithinLimit
        (increment_or_insert cart_id product_id quantity
          (length (cart_lines cart_id db))
          (current_line product_id (cart_lines cart_id db))
          db).1
increment_or_insert-IsWithinLimit cart_id product_id quantity db h =
    go (current_line product_id (cart_lines cart_id db))
      (has_line-current_line cart_id product_id (line_before db) db.cart_items)
  where
    go :
        (current : Option CartLine)
        → ((line : CartLine)
            → current ≡ some line
            → has_line cart_id product_id db.cart_items ≡ true)
        → IsWithinLimit
            (increment_or_insert cart_id product_id quantity
              (length (cart_lines cart_id db))
              current
              db).1
    go none listed = elim (Bool-cases (leb max_lines (length (cart_lines cart_id db)))) [
      | inl full ↦ rw full h
      | inr room ↦ rw room (
          save_line-room
            (record { cart_id = cart_id; product_id = product_id; quantity = quantity }) db
            (rw (length-sort_with (line_before db) (lines_of cart_id db.cart_items)) at room) h)
    ]
    go (some line) listed = elim (Bool-cases (ltb_ℤ max_quantity (line.quantity +ℤ quantity))) [
      | inl over ↦ rw over h
      | inr fits ↦ rw fits (
          save_line-here
            (record {
              cart_id = cart_id;
              product_id = product_id;
              quantity = line.quantity +ℤ quantity;
            })
            db (listed line refl) h)
    ]

-- A read of the tables, before a step that may use what was read of them.
read-Keeps :
    {A B : Type 0} {P : Db → Type 0} (f : Db → A) (g : A → Action B)
    → ((db : Db) → P db → P (g (f db) db).1)
    → Keeps P (gets f >>= g)
read-Keeps f g k = record { at = k }

get_or_create-Keeps : (customer_id : Uuid) → Keeps IsWithinLimit (get_or_create customer_id)
get_or_create-Keeps customer_id = Made.get_or_create-Keeps FewLines customer_id

list_lines-Keeps : (cart_id : Uuid) → Keeps IsWithinLimit (list_lines cart_id)
unfolding list_lines
list_lines-Keeps cart_id = search keeps_rules

active_product-Keeps : (found : Option Product) → Keeps IsWithinLimit (active_product found)
active_product-Keeps none = search keeps_rules
active_product-Keeps (some product) = search keeps_rules

delete_found-Keeps :
    (cart_id : Uuid) (product_id : String) (found : Option CartLine)
    → Keeps IsWithinLimit (delete_found cart_id product_id found)
delete_found-Keeps cart_id product_id none = search keeps_rules
delete_found-Keeps cart_id product_id (some line) = record {
  at = λ db h id. omega (arith, line_count-without_line id cart_id product_id db.cart_items, h id);
}

delete_line-Keeps :
    (cart_id : Uuid) (product_id : String) → Keeps IsWithinLimit (delete_line cart_id product_id)
unfolding delete_line get_line
delete_line-Keeps cart_id product_id = search (keeps_rules, delete_found-Keeps)

ruleset limit_rules =
    (keeps_rules, get_or_create-Keeps, list_lines-Keeps, active_product-Keeps, delete_line-Keeps)

get_cart-Keeps : (customer_id : Uuid) → Keeps IsWithinLimit (get_cart customer_id)
unfolding get_cart
get_cart-Keeps customer_id = search limit_rules depth 9

remove_item-Keeps :
    (customer_id : Uuid) (product_id : String)
    → Keeps IsWithinLimit (remove_item customer_id product_id)
unfolding remove_item
remove_item-Keeps customer_id product_id = search limit_rules depth 9

-- The steps before the write of a line: the product, which is on sale, and the cart.
started-Keeps :
    {A : Type 0} (customer_id : Uuid) (product_id : String) {f : Product → Cart → Action A}
    → ((product : Product) (cart : Cart) → Keeps IsWithinLimit (f product cart))
    → Keeps IsWithinLimit (do
      found ← gets (product_row product_id)
      product ← active_product found
      cart ← get_or_create customer_id
      f product cart)
started-Keeps customer_id product_id {f} k =
    Keeps-bind (gets (product_row product_id)) _ (search keeps_rules) (λ found.
      Keeps-bind (active_product found) _ (active_product-Keeps found) (λ product.
        Keeps-bind (get_or_create customer_id) _ (get_or_create-Keeps customer_id) (k product)))

-- A line that is found is set.
set_found-Keeps :
    {A : Type 0} (cart_id : Uuid) (product_id : String) (quantity : ℤ) (rest : Action A)
    → Keeps IsWithinLimit rest
    → Keeps IsWithinLimit (do
      current ← get_line cart_id product_id
      found_line current
      save_line (record { cart_id = cart_id; product_id = product_id; quantity = quantity })
      rest)
unfolding get_line save_line
set_found-Keeps {A} cart_id product_id quantity rest k = record {
  at = λ db h.
      go db h (find line_key (cart_id, product_id) db.cart_items)
        (has_line-find cart_id product_id db.cart_items);
}
  where
    go :
        (db : Db)
        → IsWithinLimit db
        → (found : Option CartLine)
        → ((line : CartLine) → found ≡ some line → has_line cart_id product_id db.cart_items ≡ true)
        → IsWithinLimit
            ((do
              found_line found
              save_line (record { cart_id = cart_id; product_id = product_id; quantity = quantity })
              rest)
              db).1
    go db h none listed = h
    go db h (some line) listed = k.at _ (save_line-here _ db (listed line refl) h)

set_valid-Keeps :
    (customer_id : Uuid) (product_id : String) (quantity : ℤ)
    → Keeps IsWithinLimit (set_valid customer_id product_id quantity)
unfolding set_valid
set_valid-Keeps customer_id product_id quantity =
    started-Keeps customer_id product_id (λ product cart.
      set_found-Keeps cart.id product_id quantity (view_of cart (catalog_put product_id product))
        (search limit_rules depth 9))

-- The lines that were listed are those that are counted and looked through.
listed-Keeps :
    {A : Type 0} (cart_id : Uuid) (product_id : String) (product : Product) (quantity : ℤ)
    (rest : List CartLine → Catalog → Action A)
    → ((lines : List CartLine) (catalog : Catalog) → Keeps IsWithinLimit (rest lines catalog))
    → Keeps IsWithinLimit (do
      lines ← list_lines cart_id
      catalog ← gets (λ db. fill_catalog db lines [])
      raise_if (differs_from product.currency (cart_currency lines catalog)) currency_mismatch
      increment_or_insert cart_id product_id quantity (length lines) (current_line product_id lines)
      rest lines catalog)
unfolding list_lines
listed-Keeps cart_id product_id product quantity rest k = record {
  at = λ db h.
      let lines = cart_lines cart_id db in
      let catalog = fill_catalog db lines [] in
      let added =
        increment_or_insert cart_id product_id quantity (length lines)
          (current_line product_id lines) in
      let kept = increment_or_insert-IsWithinLimit cart_id product_id quantity db h in
      elim (Bool-cases (differs_from product.currency (cart_currency lines catalog))) [
        | inl differs ↦ rw differs h
        | inr same ↦ rw same (
            bind_result (added db).0 (λ _. rest lines catalog) (added db).1 kept
              (λ _. k lines catalog))
      ];
}

add_valid-Keeps :
    (customer_id : Uuid) (product_id : String) (quantity : ℤ)
    → Keeps IsWithinLimit (add_valid customer_id product_id quantity)
unfolding add_valid
add_valid-Keeps customer_id product_id quantity =
    started-Keeps customer_id product_id (λ product cart.
      listed-Keeps cart.id product_id product quantity
        (λ lines catalog. do
          lines ← list_lines cart.id
          catalog ← gets (λ db. fill_missing db lines catalog)
          pure (build_cart_view cart lines (catalog_put product_id product catalog)))
        (λ lines catalog. search limit_rules depth 9))

add_item-Keeps :
    (customer_id : Uuid) (product_id : String) (quantity : ℤ)
    → Keeps IsWithinLimit (add_item customer_id product_id quantity)
unfolding add_item
add_item-Keeps customer_id product_id quantity = search (keeps_rules, add_valid-Keeps)

set_item_quantity-Keeps :
    (customer_id : Uuid) (product_id : String) (quantity : ℤ)
    → Keeps IsWithinLimit (set_item_quantity customer_id product_id quantity)
unfolding set_item_quantity
set_item_quantity-Keeps customer_id product_id quantity = search (keeps_rules, set_valid-Keeps)

-- When no cart has more than 100 lines, then none has more after one of the four use cases of a
-- cart, whatever it is called with and whether it returns or raises.
pub requests-IsWithinLimit :
    (customer_id : Uuid) (product_id : String) (quantity : ℤ) (db : Db)
    → IsWithinLimit db
    → IsWithinLimit (get_cart customer_id db).1
      × IsWithinLimit (add_item customer_id product_id quantity db).1
      × IsWithinLimit (set_item_quantity customer_id product_id quantity db).1
      × IsWithinLimit (remove_item customer_id product_id db).1
requests-IsWithinLimit customer_id product_id quantity db h = (
  (get_cart-Keeps customer_id).at db h,
  (add_item-Keeps customer_id product_id quantity).at db h,
  (set_item_quantity-Keeps customer_id product_id quantity).at db h,
  (remove_item-Keeps customer_id product_id).at db h,
)
