-- ===== src/Inventory/Conservation.antt =====
-- What the stock operations keep of a product's row: the sum of its two quantities, and that no
-- available quantity falls below zero. backend/app/modules/inventory.
use eventcommerce.Base.{
  String, ◌≡◌, refl, Option, none, some, ◌==◌, string_eq, Bool-cases, Option-cases, inl, inr,
  eq_iff, key-find, subst, ap, sym, ◌∙◌, le_of_not_ltb,
}
use eventcommerce.Base.Int.{ℤ, pos, ◌+ℤ◌, ◌-ℤ◌, ◌≤ℤ◌, ltb_ℤ, int_laws}
use eventcommerce.Result.{Result, ok, err, insufficient_stock}
use eventcommerce.Session.{Db, lift, ◌>>=◌}
use eventcommerce.Session.Keeps.{Keeps, keeps_rules}
use eventcommerce.Orders.Domain.{OrderItem}
use eventcommerce.Inventory.Domain.{Inventory, reserve_stock, release_stock}
use eventcommerce.Inventory.Repository.{
  stock_row, inventory_key, save_inventory, stock_row-save_inventory,
}
use eventcommerce.Inventory.UseCases.{reserve_item, release_inventory, release_row, release_item}

-- All the stock of a row, wherever it is.
abbrev pub row_total : Inventory → ℤ
row_total inventory = inventory.available_quantity +ℤ inventory.reserved_quantity

abbrev pub total_of : Option Inventory → Option ℤ
total_of none = none
total_of (some inventory) = some (row_total inventory)

-- What a reservation that succeeds has done to the row.
pub reserve_stock-ok :
    (inventory reserved : Inventory) (quantity : ℤ)
    → reserve_stock inventory quantity ≡ ok reserved
    → (row_total reserved ≡ row_total inventory)
      × (reserved.product_id ≡ inventory.product_id)
      × (pos 0 ≤ℤ reserved.available_quantity)
unfolding reserve_stock
reserve_stock-ok inventory reserved quantity h =
    elim (Bool-cases (ltb_ℤ inventory.available_quantity quantity)) [
      | inl short ↦ cc (rw short at h)
      | inr enough ↦
          let taken : Inventory = record inventory {
            available_quantity = inventory.available_quantity -ℤ quantity;
            reserved_quantity = inventory.reserved_quantity +ℤ quantity;
          } in
          let is : taken ≡ reserved = cc (rw enough at h) in
          subst
            (λ r.
              (row_total r ≡ row_total inventory)
              × (r.product_id ≡ inventory.product_id)
              × (pos 0 ≤ℤ r.available_quantity))
            is (omega int_laws, refl, omega (int_laws, le_of_not_ltb _ _ enough))
    ]

release_stock-total :
    (inventory : Inventory) (quantity : ℤ)
    → row_total (release_stock inventory quantity) ≡ row_total inventory
release_stock-total inventory quantity = omega int_laws

-- Saving a row over one with the same total leaves every product's total as it was.
save_inventory-total :
    (k : String) (inventory row : Inventory) (db : Db)
    → stock_row inventory.product_id db ≡ some row
    → row_total inventory ≡ row_total row
    → total_of (stock_row k (save_inventory inventory db).1) ≡ total_of (stock_row k db)
save_inventory-total k inventory row db found same =
    rw stock_row-save_inventory (elim (Bool-cases (inventory.product_id == k)) [
      | inl here ↦
          let found_here : stock_row k db ≡ some row =
            subst (λ j. stock_row j db ≡ some row) ((eq_iff inventory.product_id k).0 here) found in
          rw (here, found_here) (ap some same)
      | inr elsewhere ↦ rw elsewhere
    ])

-- The calls, where the row is there and where it is not.
pub reserve_item_missing :
    (product_id : String) (quantity : ℤ) (db : Db)
    → stock_row product_id db ≡ none
    → reserve_item product_id quantity db ≡ (err insufficient_stock, db)
unfolding reserve_item
reserve_item_missing product_id quantity db h = rw h

pub reserve_item_found :
    (product_id : String) (quantity : ℤ) (inventory : Inventory) (db : Db)
    → stock_row product_id db ≡ some inventory
    → reserve_item product_id quantity db
      ≡ (lift (reserve_stock inventory quantity) >>= save_inventory) db
unfolding reserve_item
reserve_item_found product_id quantity inventory db h = rw h

pub release_inventory_missing :
    (product_id : String) (quantity : ℤ) (db : Db)
    → stock_row product_id db ≡ none
    → release_inventory product_id quantity db ≡ (ok tt, db)
unfolding release_inventory
release_inventory_missing product_id quantity db h = rw h

pub release_inventory_found :
    (product_id : String) (quantity : ℤ) (inventory : Inventory) (db : Db)
    → stock_row product_id db ≡ some inventory
    → release_inventory product_id quantity db
      ≡ save_inventory (release_stock inventory quantity) db
unfolding release_inventory release_row
release_inventory_found product_id quantity inventory db h = rw h

module _ (k : String) (t : Option ℤ) where
  abbrev pub HasTotal : Db → Type 0
  HasTotal db = total_of (stock_row k db) ≡ t

  pub reserve_item-HasTotal :
      (product_id : String) (quantity : ℤ) → Keeps HasTotal (reserve_item product_id quantity)
  reserve_item-HasTotal product_id quantity = record {
    at = λ db h. elim (Option-cases (stock_row product_id db)) [
      | inl missing ↦ rw (reserve_item_missing product_id quantity db missing) h
      | inr (inventory, found) ↦
          rw (reserve_item_found product_id quantity inventory db found)
            (go inventory (reserve_stock inventory quantity) db found refl h)
    ];
  }
    where
      go :
          (inventory : Inventory) (r : Result Inventory) (db : Db)
          → stock_row product_id db ≡ some inventory
          → reserve_stock inventory quantity ≡ r
          → HasTotal db
          → HasTotal ((lift r >>= save_inventory) db).1
      go inventory (err e) db found is h = h
      go inventory (ok reserved) db found is h =
          let (total, id, _) = reserve_stock-ok inventory reserved quantity is in
          save_inventory-total k reserved inventory db
            (subst (λ j. stock_row j db ≡ some inventory)
              (sym (id ∙ key-find inventory_key product_id db.inventory found)) found)
            total
          ∙ h

  pub release_inventory-HasTotal :
      (product_id : String) (quantity : ℤ) → Keeps HasTotal (release_inventory product_id quantity)
  release_inventory-HasTotal product_id quantity = record {
    at = λ db h. elim (Option-cases (stock_row product_id db)) [
      | inl missing ↦ rw (release_inventory_missing product_id quantity db missing) h
      | inr (inventory, found) ↦
          rw (release_inventory_found product_id quantity inventory db found) (
            save_inventory-total k (release_stock inventory quantity) inventory db
              (subst (λ j. stock_row j db ≡ some inventory)
                (sym (key-find inventory_key product_id db.inventory found)) found)
              (release_stock-total inventory quantity)
            ∙ h)
    ];
  }

  pub release_item-HasTotal : (item : OrderItem) → Keeps HasTotal (release_item item)
  unfolding release_item
  release_item-HasTotal item = search (keeps_rules, release_inventory-HasTotal)
