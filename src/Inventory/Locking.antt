-- ===== src/Inventory/Locking.antt =====
-- `lock_and_check_availability` of
-- backend/app/modules/inventory/infrastructure/sqlalchemy_repository.py. All rows are read before
-- anything is written, so that the loop over them is a function of the tables.
use Prim.Native.Nat.{Ordering}
use Prim.Native.String.{compare}
use eventcommerce.Base.{
  String, Bool, true, false, Option, none, some, List, [], ◌∷◌, sort_with, string_eq, if◌then◌else◌,
}
use eventcommerce.Base.Int.{ℤ, ltb_ℤ}
use eventcommerce.Result.{Result, ok, err, insufficient_stock}
use eventcommerce.Session.{Db, Action, lift, gets, ◌>>=◌}
use eventcommerce.Inventory.Domain.{Inventory}
use eventcommerce.Inventory.Repository.{stock_row}

-- `a < b` of two texts, by code points
abbrev is_less : Ordering → Bool
is_less Ordering.lt = true
is_less _ = false

abbrev pub string_before : String → String → Bool
string_before a b = is_less (compare a b)

-- `sorted(items, key=lambda item: item[0])`: an item stays behind the equal ones before it.
abbrev pub by_product : String × ℤ → String × ℤ → Bool
by_product a b = string_before a.0 b.0

abbrev pub checked : ℤ → Option Inventory → Result (List Inventory) → Result (List Inventory)
checked quantity none rest = err insufficient_stock
checked quantity (some inventory) rest =
    if ltb_ℤ inventory.available_quantity quantity
    then err insufficient_stock
    else elim rest [ ok inventory_list ↦ ok (inventory ∷ inventory_list) | err e ↦ err e ]

unfoldable pub check_rows : List (String × ℤ) → Db → Result (List Inventory)
check_rows [] db = ok []
check_rows ((product_id, quantity) ∷ items) db =
    checked quantity (stock_row product_id db) (check_rows items db)

unfoldable pub lock_and_check_availability : List (String × ℤ) → Action (List Inventory)
unfolding sort_with check_rows
lock_and_check_availability items = do
  inventory_list ← gets (check_rows (sort_with by_product items))
  lift inventory_list
