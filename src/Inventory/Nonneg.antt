-- ===== src/Inventory/Nonneg.antt =====
-- No stock operation of backend/app/modules/inventory takes an available quantity below zero.
use eventcommerce.Base.{
  String, Bool, false, ◌≡◌, refl, Option, none, some, merged, ◌==◌, string_eq, arith, Bool-cases,
  Option-cases, inl, inr, ◌||◌, subst, le_of_not_ltb,
}
use eventcommerce.Base.Int.{ℤ, pos, ◌+ℤ◌, ◌≤ℤ◌, ltb_ℤ, int_laws}
use eventcommerce.Result.{Result, ok, err}
use eventcommerce.Session.{Db, lift, pure, ◌>>=◌, ◌>>◌}
use eventcommerce.Session.Keeps.{Keeps}
use eventcommerce.Orders.Domain.{OrderItem}
use eventcommerce.Inventory.Domain.{Inventory, reserve_stock, release_stock, adjust_available_stock}
use eventcommerce.Inventory.Repository.{
  stock_row, inventory_key, update_inventory, save_inventory, stock_row-save_inventory,
}
use eventcommerce.Inventory.UseCases.{reserve_item, release_inventory, release_item}
use eventcommerce.Inventory.Conservation.{
  reserve_stock-ok, reserve_item_missing, reserve_item_found, release_inventory_missing,
  release_inventory_found,
}
use eventcommerce.Inventory.UseCases.{adjust_stock}

or_false_right : (a b : Bool) → a || b ≡ false → b ≡ false
or_false_right a b h = ground arith

-- The available quantity of a row, if there is one, is zero or more.
abbrev pub Nonneg : Option Inventory → Type 0
Nonneg none = Unit
Nonneg (some inventory) = pos 0 ≤ℤ inventory.available_quantity

abbrev pub AllNonneg : Db → Type 0
AllNonneg db = (k : String) → Nonneg (stock_row k db)

merged-Nonneg :
    (inventory : Inventory) (found : Option Inventory)
    → pos 0 ≤ℤ inventory.available_quantity
    → Nonneg (some (merged inventory_key update_inventory inventory found))
merged-Nonneg inventory none h = h
merged-Nonneg inventory (some row) h = h

pub save_inventory-AllNonneg :
    (inventory : Inventory) (db : Db)
    → pos 0 ≤ℤ inventory.available_quantity
    → AllNonneg db
    → AllNonneg (save_inventory inventory db).1
save_inventory-AllNonneg inventory db p h k =
    rw stock_row-save_inventory (elim (Bool-cases (inventory.product_id == k)) [
      | inl here ↦ rw here (merged-Nonneg inventory (stock_row k db) p)
      | inr elsewhere ↦ rw elsewhere (h k)
    ])

pub reserve_item-AllNonneg :
    (product_id : String) (quantity : ℤ) → Keeps AllNonneg (reserve_item product_id quantity)
reserve_item-AllNonneg product_id quantity = record {
  at = λ db h. elim (Option-cases (stock_row product_id db)) [
    | inl missing ↦ rw (reserve_item_missing product_id quantity db missing) h
    | inr (inventory, found) ↦
        rw (reserve_item_found product_id quantity inventory db found)
          (go inventory (reserve_stock inventory quantity) db refl h)
  ];
}
  where
    go :
        (inventory : Inventory) (r : Result Inventory) (db : Db)
        → reserve_stock inventory quantity ≡ r
        → AllNonneg db
        → AllNonneg ((lift r >>= save_inventory) db).1
    go inventory (err e) db is h = h
    go inventory (ok reserved) db is h =
        save_inventory-AllNonneg reserved db (reserve_stock-ok inventory reserved quantity is).2 h

-- The compensation passes over lines whose quantity is not positive.
pub release_item-AllNonneg : (item : OrderItem) → Keeps AllNonneg (release_item item)
unfolding release_item
release_item-AllNonneg item = record {
  at = λ db h. elim (Bool-cases (item.product_id == "" || ltb_ℤ item.quantity (pos 1))) [
    | inl skipped ↦ rw skipped h
    | inr positive ↦ rw positive (released db h (le_of_not_ltb _ _ (or_false_right _ _ positive)))
  ];
}
  where
    released :
        (db : Db)
        → AllNonneg db
        → pos 1 ≤ℤ item.quantity
        → AllNonneg (release_inventory item.product_id item.quantity db).1
    released db h q = elim (Option-cases (stock_row item.product_id db)) [
      | inl missing ↦ rw (release_inventory_missing item.product_id item.quantity db missing) h
      | inr (inventory, found) ↦
          rw (release_inventory_found item.product_id item.quantity inventory db found) (
            save_inventory-AllNonneg (release_stock inventory item.quantity) db
              (omega (int_laws, subst Nonneg found (h item.product_id))) h)
    ]

adjust_available_stock-ok :
    (inventory adjusted : Inventory) (delta : ℤ)
    → adjust_available_stock inventory delta ≡ ok adjusted
    → pos 0 ≤ℤ adjusted.available_quantity
unfolding adjust_available_stock
adjust_available_stock-ok inventory adjusted delta h =
    elim (Bool-cases (ltb_ℤ (inventory.available_quantity +ℤ delta) (pos 0))) [
      | inl short ↦ cc (rw short at h)
      | inr enough ↦
          let moved : Inventory = record inventory {
            available_quantity = inventory.available_quantity +ℤ delta;
          } in
          let is : moved ≡ adjusted = cc (rw enough at h) in
          subst (λ r. pos 0 ≤ℤ r.available_quantity) is (omega (int_laws, le_of_not_ltb _ _ enough))
    ]

pub adjust_stock-AllNonneg :
    (product_id : String) (delta : ℤ) → Keeps AllNonneg (adjust_stock product_id delta)
unfolding adjust_stock
adjust_stock-AllNonneg product_id delta = record {
  at = λ db h. elim (Option-cases (stock_row product_id db)) [
    | inl missing ↦ rw missing h
    | inr (inventory, found) ↦
        rw found (go (adjust_available_stock inventory delta) inventory db refl h)
  ];
}
  where
    go :
        (r : Result Inventory) (inventory : Inventory) (db : Db)
        → adjust_available_stock inventory delta ≡ r
        → AllNonneg db
        → AllNonneg ((lift r >>= λ adjusted. save_inventory adjusted >> pure adjusted) db).1
    go (err e) inventory db is h = h
    go (ok adjusted) inventory db is h =
        save_inventory-AllNonneg adjusted db (adjust_available_stock-ok inventory adjusted delta is)
          h
