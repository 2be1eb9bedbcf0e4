-- ===== src/Orders/Repository.antt =====
-- backend/app/modules/orders/infrastructure/sqlalchemy_repository.py
use eventcommerce.Base.{
  ◌≡◌, refl, Option, some, find, upsert, merged, find-upsert, if◌then◌else◌, ◌==◌, string_eq,
}
use eventcommerce.Result.{Uuid}
use eventcommerce.Session.{Db, Action, gets, modify}
use eventcommerce.Orders.Domain.{Order}

abbrev pub order_key : Order → Uuid
order_key order = order.id

-- The row of an order.
abbrev pub order_row : Uuid → Db → Option Order
order_row order_id db = find order_key order_id db.orders

-- Of a row that exists only these three columns are written.
abbrev pub update_order : Order → Order → Order
update_order existing order = record existing {
  status = order.status;
  cancel_reason = order.cancel_reason;
  updated_at = order.updated_at;
}

unfoldable pub get_order_by_id : Uuid → Action (Option Order)
get_order_by_id order_id = gets (order_row order_id)

unfoldable pub save_order : Order → Action Unit
save_order order =
    modify (λ db. record db { orders = upsert order_key update_order order db.orders })

pub order_row-save_order :
    (k : Uuid) (order : Order) (db : Db)
    → order_row k (save_order order db).1 ≡ (
        if order.id == k
        then some (merged order_key update_order order (order_row k db))
        else order_row k db)
unfolding save_order
order_row-save_order k order db = find-upsert order_key update_order (λ _ _. refl) k order db.orders
