-- ===== src/Inventory/Rejection.antt =====
-- What is left of a reservation that fails half way:
-- backend/app/modules/inventory/application/process_inventory_reservation.py.
use eventcommerce.Base.{string_eq, String, ◌≡◌, none, List, [], ◌∷◌, ◌++◌, ap, ◌∙◌}
use eventcommerce.Result.{Result, ok, err, insufficient_stock}
use eventcommerce.Session.{Db, ◌>>◌, >>=-eq}
use eventcommerce.Messaging.Events.{EventType, Payload}
use eventcommerce.Messaging.Outbox.{save_outbox}
use eventcommerce.Orders.Domain.{OrderItem}
use eventcommerce.Inventory.Repository.{stock_row}
use eventcommerce.Inventory.Conservation.{reserve_item_missing}
use eventcommerce.Inventory.UseCases.{
  reserve_item, reserve_items, reserve_or_reject, except_insufficient,
}

-- The loop over a longer list goes on from where it got to.
reserve_items-append :
    (items more : List OrderItem) (db reserved : Db)
    → reserve_items items db ≡ (ok tt, reserved)
    → reserve_items (items ++ more) db ≡ reserve_items more reserved
unfolding reserve_items
reserve_items-append [] more db reserved e = ap (λ (r : Result Unit × Db). reserve_items more r.1) e
reserve_items-append (item ∷ items) more db reserved e =
    go (reserve_item item.product_id item.quantity db).0
      (reserve_item item.product_id item.quantity db).1
      (λ mid. reserve_items-append items more mid reserved) e
  where
    go :
        (r : Result Unit) (mid : Db)
        → ((mid : Db)
            → reserve_items items mid ≡ (ok tt, reserved)
            → reserve_items (items ++ more) mid ≡ reserve_items more reserved)
        → ((λ _. (r, mid)) >> reserve_items items) db ≡ (ok tt, reserved)
        → ((λ _. (r, mid)) >> reserve_items (items ++ more)) db ≡ reserve_items more reserved
    go (ok _) mid again e = again mid e
    go (err x) mid again e = cc

reserve_items-missing :
    (item : OrderItem) (items : List OrderItem) (db : Db)
    → stock_row item.product_id db ≡ none
    → reserve_items (item ∷ items) db ≡ (err insufficient_stock, db)
unfolding reserve_items
reserve_items-missing item items db missing =
    >>=-eq (reserve_item item.product_id item.quantity) (λ _. reserve_items items) db
      (reserve_item_missing item.product_id item.quantity db missing)

-- When the lines before one without a stock row could be reserved, the reservation of the whole
-- order is announced as rejected over the tables in which those lines are reserved: none of them
-- is given back.
pub reserve_or_reject-partial :
    (order_id : String) (items more : List OrderItem) (item : OrderItem) (db reserved : Db)
    → reserve_items items db ≡ (ok tt, reserved)
    → stock_row item.product_id reserved ≡ none
    → reserve_or_reject order_id (items ++ item ∷ more) db
      ≡ save_outbox EventType.inventory_rejected order_id
          (Payload.rejected_items (items ++ item ∷ more) "insufficient_stock")
          reserved
unfolding reserve_or_reject
reserve_or_reject-partial order_id items more item db reserved done missing =
    ap
      (λ (r : Result Unit × Db).
        except_insufficient
          ((λ _. r)
            >> save_outbox EventType.inventory_reserved order_id
                (Payload.items (items ++ item ∷ more)))
          (save_outbox EventType.inventory_rejected order_id
            (Payload.rejected_items (items ++ item ∷ more) "insufficient_stock"))
          db)
      (reserve_items-append items (item ∷ more) db reserved done
        ∙ reserve_items-missing item more reserved missing)
