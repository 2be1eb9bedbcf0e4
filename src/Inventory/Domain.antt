-- ===== src/Inventory/Domain.antt =====
-- Inventory: backend/app/modules/inventory/domain (entities.py, services.py). Python's ints and
-- the columns are signed, and no constraint of the database keeps the quantities from below zero.
use eventcommerce.Base.{String, if◌then◌else◌}
use eventcommerce.Base.Int.{ℤ, pos, ◌+ℤ◌, ◌-ℤ◌, ltb_ℤ}
use eventcommerce.Result.{Result, ok, err, insufficient_stock}

pub record Inventory : Type 0 where
  pub product_id : String
  pub available_quantity : ℤ
  pub reserved_quantity : ℤ

unfoldable pub reserve_stock : Inventory → ℤ → Result Inventory
reserve_stock inventory quantity =
    if ltb_ℤ inventory.available_quantity quantity
    then err insufficient_stock
    else ok (record inventory {
      available_quantity = inventory.available_quantity -ℤ quantity;
      reserved_quantity = inventory.reserved_quantity +ℤ quantity;
    })

unfoldable pub adjust_available_stock : Inventory → ℤ → Result Inventory
adjust_available_stock inventory delta =
    if ltb_ℤ (inventory.available_quantity +ℤ delta) (pos 0)
    then err insufficient_stock
    else ok (record inventory { available_quantity = inventory.available_quantity +ℤ delta })

-- What `ReleaseInventory` and the compensation do to a row; neither has a guard.
abbrev pub release_stock : Inventory → ℤ → Inventory
release_stock inventory quantity = record inventory {
  reserved_quantity = inventory.reserved_quantity -ℤ quantity;
  available_quantity = inventory.available_quantity +ℤ quantity;
}
