-- ===== src/Catalog/Stored.antt =====
-- What every product of the catalog meets after a creation and after an update: create_product.py
-- and update_product.py of backend/app/modules/catalog/application.
use eventcommerce.Base.{
  ◌&&◌, String, suc, ◌⊎◌, ◌≡◌, refl, Bool, true, false, List, [], ◌∷◌, All, upsert, ◌==◌, string_eq,
  arith, Bool-cases, inl, inr,
}
use eventcommerce.Result.{Error, Result, ok, err, integrity_error}
use eventcommerce.Session.{Db, utc_now}
use eventcommerce.Session.Keeps.{Keeps, keeps_rules, Keeps-gets}
use eventcommerce.Inventory.Repository.{stock_row}
use eventcommerce.Catalog.Domain.{Product}
use eventcommerce.Catalog.Repository.{
  product_row, product_key, update_product_row, get_product_by_id, save_product, store_product,
  meets_checks, meets_id_check, meets_field_checks,
}
use eventcommerce.Catalog.Checks.{validate_product, IsValid}
use eventcommerce.Catalog.Validation.{validate_product-IsValid}
use eventcommerce.Catalog.UseCases.{
  NewProduct, ProductChanges, touch, is_given, seed_inventory, save_checked, create_product,
  update_product,
}

-- A product that passes the validation, and the constraints of the table.
abbrev pub IsStored : (String → String) → Product → Type 0
IsStored strip product = IsValid strip product × (meets_checks product ≡ true)

-- Every product of the catalog is such a one.
abbrev pub AllValid : (String → String) → Db → Type 0
AllValid strip db = All (IsStored strip) db.products

IsValid-update_row :
    (strip : String → String) (row product : Product)
    → IsValid strip row
    → IsValid strip product
    → IsValid strip (update_product_row row product)
IsValid-update_row strip row product old new = record {
  id_given = old.id_given;
  id_short = old.id_short;
  name_given = new.name_given;
  name_shown = new.name_shown;
  name_short = new.name_short;
  price_right = new.price_right;
  currency_right = new.currency_right;
  description_short = new.description_short;
}

and_merge : (a b c d : Bool) → (a && b) ≡ true → (c && d) ≡ true → (a && d) ≡ true
and_merge a b c d h k = ground arith

checks_merged :
    (row product : Product)
    → meets_checks row ≡ true
    → meets_checks product ≡ true
    → meets_checks (update_product_row row product) ≡ true
checks_merged row product old new =
    and_merge (meets_id_check row) (meets_field_checks row) (meets_id_check product)
      (meets_field_checks product) old new

valid_upsert :
    (strip : String → String) (product : Product) (rows : List Product)
    → IsStored strip product
    → All (IsStored strip) rows
    → All (IsStored strip) (upsert product_key update_product_row product rows)
unfolding upsert
valid_upsert strip product [] new old = (new, tt)
valid_upsert strip product (row ∷ rows) new old = elim (Bool-cases (row.id == product.id)) [
  | inl e ↦ rw e (
    (IsValid-update_row strip row product old.0.0 new.0, checks_merged row product old.0.1 new.1),
    old.1,
  )
  | inr e ↦ rw e (old.0, valid_upsert strip product rows new old.1)
]

store_product-AllValid :
    (strip : String → String) (product : Product) (db : Db)
    → IsStored strip product
    → AllValid strip db
    → AllValid strip (store_product product db).1
unfolding store_product
store_product-AllValid strip product db new h = valid_upsert strip product db.products new h

-- The product that is saved, and the tables after it.
abbrev pub touched : Product → Db → Product
touched product db = record product { updated_at = db.next_times 0 }

abbrev pub later : Db → Db
later db = record db { next_times = λ n. db.next_times (suc n) }

pub save_checked-stored :
    (strip : String → String) (product : Product) (db : Db)
    → IsValid strip product
    → meets_checks product ≡ true
    → save_checked strip product db
      ≡ (ok (touched product db), (store_product (touched product db) (later db)).1)
unfolding save_checked touch save_product store_product
save_checked-stored strip product db valid checks =
    let passed = (validate_product-IsValid strip product).1 valid in rw passed (rw checks refl)

save_checked-refused :
    (strip : String → String) (product : Product) (db : Db)
    → IsValid strip product
    → meets_checks product ≡ false
    → save_checked strip product db ≡ (err integrity_error, later db)
unfolding save_checked touch save_product
save_checked-refused strip product db valid checks =
    let passed = (validate_product-IsValid strip product).1 valid in rw passed (rw checks refl)

save_checked-invalid :
    (strip : String → String) (product : Product) (db : Db) {e : Error}
    → validate_product strip product ≡ err e
    → save_checked strip product db ≡ (err e, db)
unfolding save_checked
save_checked-invalid strip product db h = rw h refl

Result-cases : {A : Type 0} (r : Result A) → ((a : A) × (r ≡ ok a)) ⊎ ((e : Error) × (r ≡ err e))
Result-cases (ok a) = inl (a, refl)
Result-cases (err e) = inr (e, refl)

touched-IsValid :
    (strip : String → String) (product : Product) (db : Db)
    → IsValid strip product
    → IsValid strip (touched product db)
touched-IsValid strip product db h = record {
  id_given = h.id_given;
  id_short = h.id_short;
  name_given = h.name_given;
  name_shown = h.name_shown;
  name_short = h.name_short;
  price_right = h.price_right;
  currency_right = h.currency_right;
  description_short = h.description_short;
}

-- The three ways that a checked save ends.
pub save_checked-cases :
    (strip : String → String) (product : Product) (db : Db)
    → (IsStored strip product
        × (save_checked strip product db
            ≡ (ok (touched product db), (store_product (touched product db) (later db)).1)))
      ⊎ (((e : Error) × (save_checked strip product db ≡ (err e, db)))
          ⊎ (save_checked strip product db ≡ (err integrity_error, later db)))
save_checked-cases strip product db = elim (Result-cases (validate_product strip product)) [
  | inl (tt, passed) ↦
      let valid = (validate_product-IsValid strip product).0 passed in
      elim (Bool-cases (meets_checks product)) [
        | inl checks ↦ inl ((valid, checks), save_checked-stored strip product db valid checks)
        | inr checks ↦ inr (inr (save_checked-refused strip product db valid checks))
      ]
  | inr (e, failed) ↦ inr (inl (e, save_checked-invalid strip product db failed))
]

save_checked-AllValid :
    (strip : String → String) (product : Product)
    → Keeps (AllValid strip) (save_checked strip product)
save_checked-AllValid strip product = record {
  at = λ db h. elim (save_checked-cases strip product db) [
    | inl ((valid, checks), saved) ↦ rw saved (
        store_product-AllValid strip (touched product db) (later db)
          (touched-IsValid strip product db valid, checks) h)
    | inr (inl (e, raised)) ↦ rw raised h
    | inr (inr raised) ↦ rw raised h
  ];
}

seed_inventory-AllValid :
    (strip : String → String) (product_id : String)
    → Keeps (AllValid strip) (seed_inventory product_id)
unfolding seed_inventory
seed_inventory-AllValid strip product_id = record {
  at = λ db h. elim (Bool-cases (is_given (stock_row product_id db))) [
    | inl e ↦ rw e h
    | inr e ↦ rw e h
  ];
}

lookup-AllValid :
    (strip : String → String) (product_id : String)
    → Keeps (AllValid strip) (get_product_by_id product_id)
unfolding get_product_by_id
lookup-AllValid strip product_id = Keeps-gets (product_row product_id)

utc_now-AllValid : (strip : String → String) → Keeps (AllValid strip) utc_now
utc_now-AllValid strip = record { at = λ db h. h }

ruleset valid_rules =
    (keeps_rules, save_checked-AllValid, seed_inventory-AllValid, lookup-AllValid, utc_now-AllValid)

create_product-AllValid :
    (strip : String → String) (new : NewProduct) → Keeps (AllValid strip) (create_product strip new)
unfolding create_product
create_product-AllValid strip new = search (valid_rules) depth 12

update_product-AllValid :
    (strip : String → String) (product_id : String) (changes : ProductChanges)
    → Keeps (AllValid strip) (update_product strip product_id changes)
unfolding update_product
update_product-AllValid strip product_id changes = search (valid_rules) depth 12

-- In a catalog whose products all pass the validation and the constraints of the table they still do
-- after a creation and after an update with any arguments, whether the use case returns or raises.
pub writes-AllValid :
    (strip : String → String) (new : NewProduct) (product_id : String) (changes : ProductChanges)
    → (db : Db) → AllValid strip db
    → AllValid strip (create_product strip new db).1
      × AllValid strip (update_product strip product_id changes db).1
writes-AllValid strip new product_id changes db h = (
  (create_product-AllValid strip new).at db h,
  (update_product-AllValid strip product_id changes).at db h,
)
