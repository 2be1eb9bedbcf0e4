-- ===== src/Operator/CatalogRows.antt =====
-- backend/app/modules/operator/application/list_catalog_with_stock.py, over `list_by_product_ids` of
-- the inventory.
use eventcommerce.Base.{
  ℕ, String, Bool, Option, none, some, List, [], ◌∷◌, map, find, contains, string_eq, if◌then◌else◌,
}
use eventcommerce.Base.Int.{ℤ}
use eventcommerce.Base.Decimal.{Decimal}
use eventcommerce.Session.{Action, pure, gets, ◌>>=◌}
use eventcommerce.Inventory.Domain.{Inventory}
use eventcommerce.Inventory.Repository.{inventory_key}
use eventcommerce.Catalog.Domain.{Product}
use eventcommerce.Catalog.Repository.{product_key, list_all}

-- `product_id IN …`; no row has an id of an empty list.
unfoldable pub rows_of : List String → List Inventory → List Inventory
rows_of product_ids [] = []
rows_of product_ids (row ∷ rows) =
    let rest = rows_of product_ids rows in
    if contains row.product_id product_ids then row ∷ rest else rest

unfoldable pub list_by_product_ids : List String → Action (List Inventory)
unfolding rows_of
list_by_product_ids product_ids = gets (λ db. rows_of product_ids db.inventory)

pub record CatalogRow : Type 0 where
  pub product_id : String
  pub name : String
  pub description : Option String
  pub price : Decimal
  pub currency : String
  pub active : Bool
  pub available_quantity : Option ℤ
  pub reserved_quantity : Option ℤ

abbrev pub available_of : Option Inventory → Option ℤ
available_of none = none
available_of (some row) = some row.available_quantity

abbrev pub reserved_of : Option Inventory → Option ℤ
reserved_of none = none
reserved_of (some row) = some row.reserved_quantity

-- The rows have different keys, so that the dict that is built from them is the list.
abbrev pub row_with : Product → Option Inventory → CatalogRow
row_with product inventory = record {
  product_id = product.id;
  name = product.name;
  description = product.description;
  price = product.price;
  currency = product.currency;
  active = product.active;
  available_quantity = available_of inventory;
  reserved_quantity = reserved_of inventory;
}

unfoldable pub catalog_row : List Inventory → Product → CatalogRow
catalog_row stock product = row_with product (find inventory_key product.id stock)

-- `ListCatalogWithStock.execute`
unfoldable pub list_catalog_with_stock : ℕ → ℕ → Action (List CatalogRow)
unfolding list_all list_by_product_ids catalog_row
list_catalog_with_stock limit offset = do
  products ← list_all limit offset
  stock ← list_by_product_ids (map product_key products)
  pure (map (catalog_row stock) products)
