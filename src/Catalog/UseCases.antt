-- ===== src/Catalog/UseCases.antt =====
-- backend/app/modules/catalog/application: create_product.py, get_product.py, list_products.py and
-- update_product.py.
use eventcommerce.Base.{
  String, Bool, true, false, not, ◌&&◌, Option, none, some, List, if◌then◌else◌,
}
use eventcommerce.Base.Int.{ℤ, pos, pos_part, ltb_ℤ}
use eventcommerce.Base.Decimal.{Decimal}
use eventcommerce.Result.{Time, product_not_found, product_already_exists}
use eventcommerce.Session.{Action, pure, lift, raise_if, or_raise, utc_now, ◌>>=◌, ◌>>◌}
use eventcommerce.Inventory.Domain.{Inventory}
use eventcommerce.Inventory.Repository.{get_by_product, save_inventory}
use eventcommerce.Catalog.Domain.{Product}
use eventcommerce.Catalog.Repository.{get_product_by_id, save_product, list_active}
use eventcommerce.Catalog.Checks.{validate_product}

-- `touch`
unfoldable pub touch : Product → Action Product
touch product = do now ← utc_now; pure (record product { updated_at = now })

abbrev pub is_given {ℓ} : {A : Type ℓ} → Option A → Bool
is_given none = false
is_given (some _) = true

-- The stock of a product that has just been created.
abbrev pub zero_stock : String → Inventory
zero_stock product_id = record {
  product_id = product_id;
  available_quantity = pos 0;
  reserved_quantity = pos 0;
}

unfoldable pub seed_inventory : String → Action Unit
unfolding get_by_product save_inventory
seed_inventory product_id = do
  row ← get_by_product product_id
  if is_given row then pure tt else save_inventory (zero_stock product_id)

-- What `CreateProduct.execute` is called with.
pub record NewProduct : Type 0 where
  pub id : String
  pub name : String
  pub price : Decimal
  pub currency : String
  pub description : Option String
  pub active : Bool

abbrev pub new_product : NewProduct → Time → Product
new_product new now = record {
  id = new.id;
  name = new.name;
  description = new.description;
  price = new.price;
  currency = new.currency;
  active = new.active;
  created_at = now;
  updated_at = now;
}

-- The part of `CreateProduct.execute` and `UpdateProduct.execute` that checks, touches and saves.
unfoldable pub save_checked : (String → String) → Product → Action Product
unfolding touch
save_checked strip product = do
  lift (validate_product strip product)
  touched ← touch product
  save_product touched
  pure touched

-- `CreateProduct.execute`
unfoldable pub create_product : (String → String) → NewProduct → Action Product
unfolding get_product_by_id
create_product strip new = do
  existing ← get_product_by_id new.id
  raise_if (is_given existing) product_already_exists
  now ← utc_now
  product ← save_checked strip (new_product new now)
  seed_inventory new.id
  pure product

abbrev pub visible : Bool → Option Product → Option Product
visible active_only none = none
visible active_only (some product) =
    if active_only && not product.active then none else some product

-- `GetProduct.execute`
unfoldable pub get_product : String → Bool → Action Product
unfolding get_product_by_id
get_product product_id active_only = do
  found ← get_product_by_id product_id
  or_raise (visible active_only found) product_not_found

abbrev pub max_limit : ℤ
max_limit = pos 200

abbrev pub max_ℤ : ℤ → ℤ → ℤ
max_ℤ a b = if ltb_ℤ a b then b else a

abbrev pub min_ℤ : ℤ → ℤ → ℤ
min_ℤ a b = if ltb_ℤ b a then b else a

-- `ListProducts.execute`: what is clamped is not negative.
unfoldable pub list_products : ℤ → ℤ → Action (List Product)
unfolding list_active
list_products limit offset =
    list_active (pos_part (max_ℤ (pos 1) (min_ℤ limit max_limit))) (pos_part (max_ℤ (pos 0) offset))

-- What `UpdateProduct.execute` is called with: `none` leaves a field.
pub record ProductChanges : Type 0 where
  pub name : Option String
  pub description : Option String
  pub price : Option Decimal
  pub currency : Option String
  pub active : Option Bool
  pub clear_description : Bool

abbrev pub given_or {ℓ} : {A : Type ℓ} → Option A → A → A
given_or none old = old
given_or (some new) old = new

abbrev pub changed_description : Bool → Option String → Option String → Option String
changed_description true description old = none
changed_description false none old = old
changed_description false (some description) old = some description

abbrev pub changed : ProductChanges → Product → Product
changed changes product = record product {
  name = given_or changes.name product.name;
  description =
      changed_description changes.clear_description changes.description product.description;
  price = given_or changes.price product.price;
  currency = given_or changes.currency product.currency;
  active = given_or changes.active product.active;
}

-- `UpdateProduct.execute`
unfoldable pub update_product : (String → String) → String → ProductChanges → Action Product
unfolding get_product_by_id
update_product strip product_id changes = do
  found ← get_product_by_id product_id
  product ← or_raise found product_not_found
  save_checked strip (changed changes product)
