-- ===== src/Inventory/Repository.antt =====
-- backend/app/modules/inventory/infrastructure/sqlalchemy_repository.py. The row locks serialise
-- concurrent transactions; here one transaction runs at a time, so `lock_by_product` reads.
use eventcommerce.Base.{
  String, ◌≡◌, refl, Option, some, find, upsert, merged, find-upsert, if◌then◌else◌, ◌==◌,
  string_eq,
}
use eventcommerce.Session.{Db, Action, gets, modify}
use eventcommerce.Inventory.Domain.{Inventory}

abbrev pub inventory_key : Inventory → String
inventory_key inventory = inventory.product_id

-- The row of a product.
abbrev pub stock_row : String → Db → Option Inventory
stock_row product_id db = find inventory_key product_id db.inventory

abbrev pub update_inventory : Inventory → Inventory → Inventory
update_inventory existing inventory = record existing {
  available_quantity = inventory.available_quantity;
  reserved_quantity = inventory.reserved_quantity;
}

unfoldable pub get_by_product : String → Action (Option Inventory)
get_by_product product_id = gets (stock_row product_id)

unfoldable pub lock_by_product : String → Action (Option Inventory)
lock_by_product product_id = gets (stock_row product_id)

unfoldable pub save_inventory : Inventory → Action Unit
save_inventory inventory =
    modify
      (λ db. record db { inventory = upsert inventory_key update_inventory inventory db.inventory })

pub stock_row-save_inventory :
    (k : String) (inventory : Inventory) (db : Db)
    → stock_row k (save_inventory inventory db).1 ≡ (
        if inventory.product_id == k
        then some (merged inventory_key update_inventory inventory (stock_row k db))
        else stock_row k db)
unfolding save_inventory
stock_row-save_inventory k inventory db =
    find-upsert inventory_key update_inventory (λ _ _. refl) k inventory db.inventory
