-- ===== src/Catalog/Repository.antt =====
-- backend/app/modules/catalog/infrastructure: sqlalchemy_repository.py over the constraints of
-- models.py.
use Prim.Native.String.{count}
use eventcommerce.Base.{
  ℕ, String, ◌≡◌, refl, Bool, false, not, ◌&&◌, leb, Option, some, List, [], ◌∷◌, find, upsert,
  merged, find-upsert, sort_with, take, drop, if◌then◌else◌, ◌==◌, string_eq,
}
use eventcommerce.Session.{Db, Action, gets, modify, raise_if, ◌>>◌}
use eventcommerce.Result.{integrity_error}
use eventcommerce.Base.Decimal.{is_negative, exceeds}
use eventcommerce.Catalog.Domain.{Product}
use eventcommerce.Catalog.Checks.{codes, is_capital, max_price}

abbrev pub product_key : Product → String
product_key product = product.id

-- The row of a product.
abbrev pub product_row : String → Db → Option Product
product_row product_id db = find product_key product_id db.products

unfoldable pub get_product_by_id : String → Action (Option Product)
get_product_by_id product_id = gets (product_row product_id)

-- Of a row that exists all columns but the key and the time of creation are written. One
-- transaction runs at a time, so that no other one wins the race for the primary key.
abbrev pub update_product_row : Product → Product → Product
update_product_row existing product = record existing {
  name = product.name;
  description = product.description;
  price = product.price;
  currency = product.currency;
  active = product.active;
  updated_at = product.updated_at;
}

unfoldable pub store_product : Product → Action Unit
store_product product =
    modify
      (λ db. record db { products = upsert product_key update_product_row product db.products })

-- `currency ~ '^[A-Z]{3}$'`: to the database `$` is the end of the text only.
unfoldable pub is_three_capitals : List ℕ → Bool
is_three_capitals (a ∷ b ∷ c ∷ []) = is_capital a && (is_capital b && is_capital c)
is_three_capitals _ = false

abbrev pub has_length : ℕ → ℕ → ℕ → Bool
has_length low high n = leb low n && leb n high

-- The check constraints of `ProductModel`: that on the id, and the others.
abbrev pub meets_id_check : Product → Bool
meets_id_check product = has_length 1 128 (count product.id)

abbrev pub meets_field_checks : Product → Bool
meets_field_checks product =
    has_length 1 255 (count product.name)
    && ((not (is_negative product.price) && not (exceeds product.price max_price))
        && is_three_capitals (codes product.currency))

abbrev pub meets_checks : Product → Bool
meets_checks product = meets_id_check product && meets_field_checks product

-- The flush raises where a constraint is broken; that is no conflict of the primary key, so the error
-- goes on as it is.
unfoldable pub save_product : Product → Action Unit
unfolding store_product
save_product product = do
  raise_if (not (meets_checks product)) integrity_error
  store_product product

pub product_row-store_product :
    (k : String) (product : Product) (db : Db)
    → product_row k (store_product product db).1 ≡ (
        if product.id == k
        then some (merged product_key update_product_row product (product_row k db))
        else product_row k db)
unfolding store_product
product_row-store_product k product db =
    find-upsert product_key update_product_row (λ _ _. refl) k product db.products

-- `ORDER BY id`, in the order of texts of the database
abbrev pub by_id : (String → String → Bool) → Product → Product → Bool
by_id collation one other = collation one.id other.id

unfoldable pub active_products : List Product → List Product
active_products [] = []
active_products (product ∷ products) =
    let rest = active_products products in if product.active then product ∷ rest else rest

unfoldable pub list_active : ℕ → ℕ → Action (List Product)
unfolding sort_with active_products take drop
list_active limit offset =
    gets (λ db.
      take limit (drop offset (sort_with (by_id db.collation) (active_products db.products))))

unfoldable pub list_all : ℕ → ℕ → Action (List Product)
unfolding sort_with take drop
list_all limit offset =
    gets (λ db. take limit (drop offset (sort_with (by_id db.collation) db.products)))
