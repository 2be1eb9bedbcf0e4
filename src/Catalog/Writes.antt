-- ===== src/Catalog/Writes.antt =====
-- What the writes of the catalog keep and change: create_product.py and update_product.py of
-- backend/app/modules/catalog/application.
use Prim.Native.String
use Prim.Native.String.{count}
use eventcommerce.Base.Decimal.{Decimal, is_negative, exceeds}
use eventcommerce.Base.{
  ℕ, ◌≤◌, ◌≢◌, not, ◌&&◌, String, ◌≡◌, ◌∙◌, refl, sym, ap, subst, Bool, true, false, Option, none,
  some, key-find, ◌==◌, string_eq, if◌then◌else◌, arith, Bool-cases, Option-cases, eq_iff, inl, inr,
}
use eventcommerce.Result.{Time, Error, Result, ok, err, product_not_found, product_already_exists}
use eventcommerce.Session.{Db, pure, raise_if, utc_now, ◌>>=◌, ◌>>◌, >>=-eq}
use eventcommerce.Inventory.Domain.{Inventory}
use eventcommerce.Inventory.Repository.{stock_row, save_inventory, stock_row-save_inventory}
use eventcommerce.Catalog.Domain.{Product}
use eventcommerce.Catalog.Repository.{
  product_row, product_key, update_product_row, get_product_by_id, store_product,
  product_row-store_product, meets_checks, is_three_capitals, has_length,
}
use eventcommerce.Catalog.Checks.{IsValid, IsPrice, codes, max_price}
use eventcommerce.Catalog.UseCases.{
  NewProduct, new_product, ProductChanges, changed, changed_description, given_or, is_given,
  zero_stock, seed_inventory, save_checked, create_product, update_product, get_product,
}
use eventcommerce.Catalog.Stored.{touched, later, save_checked-stored, save_checked-cases}

-- The stock that a product has after it is created.
abbrev pub kept_or_zero : String → Option Inventory → Inventory
kept_or_zero product_id none = zero_stock product_id
kept_or_zero product_id (some row) = row

pub stock_row-seed_inventory :
    (k product_id : String) (db : Db)
    → stock_row k (seed_inventory product_id db).1 ≡ (
        if product_id == k then some (kept_or_zero product_id (stock_row k db)) else stock_row k db)
unfolding seed_inventory
stock_row-seed_inventory k product_id db = elim (Option-cases (stock_row product_id db)) [
  | inl e ↦ rw e (
      rw (stock_row-save_inventory k (zero_stock product_id) db)
        (elim (Bool-cases (product_id == k)) [
          | inl same ↦ rw same (
              let named : product_id ≡ k = ground (arith, eq_iff product_id k) in
              rw (sym named) (rw e refl))
          | inr other ↦ rw other refl
        ]))
  | inr (row, e) ↦ rw e (elim (Bool-cases (product_id == k)) [
    | inl same ↦ rw same (
        let named : product_id ≡ k = ground (arith, eq_iff product_id k) in
        rw (sym named) (rw e refl))
    | inr other ↦ rw other refl
  ])
]

product_row-seed_inventory :
    (k product_id : String) (db : Db)
    → product_row k (seed_inventory product_id db).1 ≡ product_row k db
unfolding seed_inventory save_inventory
product_row-seed_inventory k product_id db =
    elim (Bool-cases (is_given (stock_row product_id db))) [ inl e ↦ rw e refl | inr e ↦ rw e refl ]

seed_inventory-returns : (product_id : String) (db : Db) → (seed_inventory product_id db).0 ≡ ok tt
unfolding seed_inventory save_inventory
seed_inventory-returns product_id db = elim (Bool-cases (is_given (stock_row product_id db))) [
  | inl e ↦ rw e refl
  | inr e ↦ rw e refl
]

-- A product with the fields of a creation.
abbrev pub with_fields : NewProduct → Time → Time → Product
with_fields new created_at updated_at = record {
  id = new.id;
  name = new.name;
  description = new.description;
  price = new.price;
  currency = new.currency;
  active = new.active;
  created_at = created_at;
  updated_at = updated_at;
}

-- The product that a creation saves: both times are fresh.
abbrev pub created : NewProduct → Db → Product
created new db = with_fields new (db.next_times 0) (db.next_times 1)

created_tables :
    (strip : String → String) (new : NewProduct) (db : Db)
    → product_row new.id db ≡ none
    → IsValid strip (new_product new (db.next_times 0))
    → meets_checks (new_product new (db.next_times 0)) ≡ true
    → create_product strip new db ≡ (
      ok (created new db),
      (seed_inventory new.id (store_product (created new db) (later (later db))).1).1,
    )
unfolding create_product get_product_by_id
created_tables strip new db absent valid checks =
    let finish = λ (product : Product). seed_inventory new.id >> pure product in
    let create = λ (existing : Option Product).
      raise_if (is_given existing) product_already_exists
      >> (utc_now >>= λ now. save_checked strip (new_product new now) >>= finish) in
    let looked : create_product strip new db ≡ create none db =
      >>=-eq (get_product_by_id new.id) create db {r = (ok none, db)} (rw absent refl) in
    let saved = (store_product (created new db) (later (later db))).1 in
    looked
    ∙ >>=-eq (save_checked strip (new_product new (db.next_times 0))) finish (later db)
        (save_checked-stored strip (new_product new (db.next_times 0)) (later db) valid checks)
    ∙ >>=-eq (seed_inventory new.id) (λ _. pure (created new db)) saved
        {r = (ok tt, (seed_inventory new.id saved).1)}
        (λ i. (seed_inventory-returns new.id saved i, (seed_inventory new.id saved).1))

product_row-stored :
    (k : String) (product : Product) (db : Db)
    → product_row product.id db ≡ none
    → product_row k (store_product product db).1
      ≡ (if product.id == k then some product else product_row k db)
product_row-stored k product db absent =
    rw (product_row-store_product k product db) (elim (Bool-cases (product.id == k)) [
      | inl same ↦ rw same (
          let named : product.id ≡ k = ground (arith, eq_iff product.id k) in
          rw (sym named) (rw absent refl))
      | inr other ↦ rw other refl
    ])

stock_row-stored :
    (k : String) (product : Product) (db : Db)
    → stock_row k (store_product product db).1 ≡ stock_row k db
unfolding store_product
stock_row-stored k product db = refl

get_product-row :
    (product_id : String) (product : Product) (db : Db)
    → product_row product_id db ≡ some product
    → (get_product product_id false db).0 ≡ ok product
unfolding get_product get_product_by_id
get_product-row product_id product db h = rw h refl

count_given : (text : String) → text ≢ "" → 1 ≤ count text
count_given String.[] h = elim (h refl) [ ]
count_given (String.◌∷◌ c text) h = rw (String.count.cons c text) (omega arith)

price_in_range :
    (price : Decimal)
    → IsPrice price
    → (not (is_negative price) && not (exceeds price max_price)) ≡ true
price_in_range price h = ground (arith, h.1, h.2)

within : (low high n : ℕ) → low ≤ n → n ≤ high → has_length low high n ≡ true
within low high n h k = ground arith

checks_valid :
    (strip : String → String) (product : Product)
    → IsValid strip product
    → is_three_capitals (codes product.currency) ≡ true
    → meets_checks product ≡ true
checks_valid strip product valid plain =
    rw
      (
        within 1 128 (count product.id) (count_given product.id valid.id_given) valid.id_short,
        within 1 255 (count product.name) (count_given product.name valid.name_given)
            valid.name_short,
        price_in_range product.price valid.price_right,
        plain,
      )
      refl

-- The creation of a product with a new id whose fields pass the validation, and whose currency is
-- three capitals alone, returns the product with those fields. Afterwards the lookup of that id, active or not, finds it, the rows of all other
-- products are what they were, and so is the stock, except that the new product has stock of zero
-- where it had no row.
pub create_product-creates :
    (strip : String → String) (new : NewProduct) (k : String) (db : Db)
    → product_row new.id db ≡ none
    → IsValid strip (with_fields new (db.next_times 0) (db.next_times 0))
    → is_three_capitals (codes new.currency) ≡ true
    → ((create_product strip new db).0 ≡ ok (created new db))
      × ((get_product new.id false (create_product strip new db).1).0 ≡ ok (created new db))
      × (product_row k (create_product strip new db).1
          ≡ (if new.id == k then some (created new db) else product_row k db))
      × (stock_row k (create_product strip new db).1
          ≡ (if new.id == k then some (kept_or_zero new.id (stock_row k db)) else stock_row k db))
create_product-creates strip new k db absent valid plain =
    let checks = checks_valid strip (new_product new (db.next_times 0)) valid plain in
    let saved = (store_product (created new db) (later (later db))).1 in
    let row = λ (j : String).
      product_row-seed_inventory j new.id saved
      ∙ product_row-stored j (created new db) (later (later db)) absent in
    let stock =
      stock_row-seed_inventory k new.id saved
      ∙ rw (stock_row-stored k (created new db) (later (later db))) refl in
    rw (created_tables strip new db absent valid checks) (
      let here = row new.id in
      let same = (eq_iff new.id new.id).1 refl in
      (
        refl,
        get_product-row new.id (created new db) (seed_inventory new.id saved).1 (rw same at here),
        row k,
        stock,
      ))

updated_tables :
    (strip : String → String) (product_id : String) (changes : ProductChanges) (product : Product)
    → (db : Db) → product_row product_id db ≡ some product
    → update_product strip product_id changes db ≡ save_checked strip (changed changes product) db
unfolding update_product get_product_by_id
updated_tables strip product_id changes product db h = rw h refl

product_row-updated :
    (k : String) (row product : Product) (db : Db)
    → product_row product.id db ≡ some row
    → product_row k (store_product product db).1
      ≡ (if product.id == k then some (update_product_row row product) else product_row k db)
product_row-updated k row product db found =
    rw (product_row-store_product k product db) (elim (Bool-cases (product.id == k)) [
      | inl same ↦ rw same (
          let named : product.id ≡ k = ground (arith, eq_iff product.id k) in
          rw (sym named) (rw found refl))
      | inr other ↦ rw other refl
    ])

-- A field with its new value, where there is one.
abbrev pub replaced_by {ℓ} : {A : Type ℓ} → A → Option A → A
replaced_by old none = old
replaced_by old (some new) = new

-- The product with the fields of an update.
abbrev pub with_changes : ProductChanges → Product → Time → Product
with_changes changes product updated_at = record {
  id = product.id;
  name = replaced_by product.name changes.name;
  description = if changes.clear_description then none else elim changes.description [
    | none ↦ product.description
    | some description ↦ some description
  ];
  price = replaced_by product.price changes.price;
  currency = replaced_by product.currency changes.currency;
  active = replaced_by product.active changes.active;
  created_at = product.created_at;
  updated_at = updated_at;
}

given_or-replaced_by {ℓ} :
    {A : Type ℓ} (new : Option A) (old : A) → given_or new old ≡ replaced_by old new
given_or-replaced_by none old = refl
given_or-replaced_by (some new) old = refl

changed_description_lem :
    (clear : Bool) (new old : Option String)
    → changed_description clear new old
      ≡ (if clear then none else elim new [ none ↦ old | some description ↦ some description ])
changed_description_lem true new old = refl
changed_description_lem false none old = refl
changed_description_lem false (some new) old = refl

changed-with_changes :
    (changes : ProductChanges) (product : Product)
    → changed changes product ≡ with_changes changes product product.updated_at
changed-with_changes changes product = λ i. record {
  id = product.id;
  name = given_or-replaced_by changes.name product.name i;
  description =
      changed_description_lem changes.clear_description changes.description product.description i;
  price = given_or-replaced_by changes.price product.price i;
  currency = given_or-replaced_by changes.currency product.currency i;
  active = given_or-replaced_by changes.active product.active i;
  created_at = product.created_at;
  updated_at = product.updated_at;
}

update_product-changed :
    (strip : String → String) (product_id : String) (changes : ProductChanges) (product : Product)
    → (k : String) (db : Db) → product_row product_id db ≡ some product
    → IsValid strip (changed changes product)
    → is_three_capitals (codes (changed changes product).currency) ≡ true
    → ((update_product strip product_id changes db).0 ≡ ok (touched (changed changes product) db))
      × (product_row k (update_product strip product_id changes db).1 ≡ (
          if product_id == k
          then some (touched (changed changes product) db)
          else product_row k db))
      × (stock_row k (update_product strip product_id changes db).1 ≡ stock_row k db)
update_product-changed strip product_id changes product k db found valid plain =
    let checks = checks_valid strip (changed changes product) valid plain in
    let new = touched (changed changes product) db in
    let named : product.id ≡ product_id = key-find product_key product_id db.products found in
    rw (updated_tables strip product_id changes product db found) (
      rw (save_checked-stored strip (changed changes product) db valid checks) (
        refl,
        subst
            (λ (id : String).
              product_row k (store_product new (later db)).1
              ≡ (if id == k then some new else product_row k db))
            named
            (product_row-updated k product new (later db)
              (subst (λ (id : String). product_row id db ≡ some product) (sym named) found)),
        stock_row-stored k new (later db),
      ))

-- The update of a product whose changed fields pass the validation, and whose currency is three
-- capitals alone, returns and stores the product with those fields and the present time; its id and its time of creation stay, and so do all other
-- products and all stock.
pub update_product-rows :
    (strip : String → String) (product_id : String) (changes : ProductChanges) (product : Product)
    → (k : String) (db : Db) → product_row product_id db ≡ some product
    → IsValid strip (with_changes changes product product.updated_at)
    → is_three_capitals (codes (replaced_by product.currency changes.currency)) ≡ true
    → ((update_product strip product_id changes db).0
        ≡ ok (with_changes changes product (db.next_times 0)))
      × (product_row k (update_product strip product_id changes db).1 ≡ (
          if product_id == k
          then some (with_changes changes product (db.next_times 0))
          else product_row k db))
      × (stock_row k (update_product strip product_id changes db).1 ≡ stock_row k db)
update_product-rows strip product_id changes product k db found valid plain =
    let same = changed-with_changes changes product in
    let tables =
      update_product-changed strip product_id changes product k db found
        (subst (IsValid strip) (sym same) valid)
        (subst (λ (p : Product). is_three_capitals (codes p.currency) ≡ true) (sym same) plain) in
    subst
      (λ (p : Product).
        ((update_product strip product_id changes db).0 ≡ ok (touched p db))
        × (product_row k (update_product strip product_id changes db).1
            ≡ (if product_id == k then some (touched p db) else product_row k db))
        × (stock_row k (update_product strip product_id changes db).1 ≡ stock_row k db))
      same tables

-- An update that raises, since there is no such product, or since a changed field does not pass the
-- validation or breaks a constraint, has changed neither the products nor the stock.
pub update_product-raises :
    (strip : String → String) (product_id : String) (changes : ProductChanges) (e : Error)
    → (db : Db) → (update_product strip product_id changes db).0 ≡ err e
    → ((update_product strip product_id changes db).1.products ≡ db.products)
      × ((update_product strip product_id changes db).1.inventory ≡ db.inventory)
unfolding update_product get_product_by_id
update_product-raises strip product_id changes e db raised =
    elim (Option-cases (product_row product_id db)) [
      | inl absent ↦ let tables = absent_tables absent in rw tables (refl, refl)
      | inr (product, found) ↦
          let tables = updated_tables strip product_id changes product db found in
          elim (save_checked-cases strip (changed changes product) db) [
            | inl (stored, saved) ↦
                let returned = ap (λ (r : Result Product × Db). r.0) (tables ∙ saved) in
                cc (raised, returned)
            | inr (inl (e', failed)) ↦ let unchanged = tables ∙ failed in rw unchanged (refl, refl)
            | inr (inr failed) ↦ let unchanged = tables ∙ failed in rw unchanged (refl, refl)
          ]
    ]
  where
    absent_tables :
        product_row product_id db ≡ none
        → update_product strip product_id changes db ≡ (err product_not_found, db)
    absent_tables h = rw h refl
