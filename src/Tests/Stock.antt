-- ===== src/Tests/Stock.antt =====
-- Cart lines, a reservation that fails half way, and an adjustment, on concrete tables.
use eventcommerce.Base.{none, some, ◌≡◌, ◌⊎◌, refl, [], ◌∷◌, find, upsert, arith}
use eventcommerce.Base.Int.{ℤ, pos}
use eventcommerce.Session.{Db, in_transaction}
use eventcommerce.Messaging.Events.{EventType, Payload}
use eventcommerce.Messaging.Outbox.{save_outbox}
use eventcommerce.Orders.Domain.{OrderItem}
use eventcommerce.Iam.Domain.{User, shopper}
use eventcommerce.Cart.Domain.{CartLine}
use eventcommerce.Cart.UseCases.{get_cart, add_item, set_item_quantity, remove_item}
use eventcommerce.Cart.Ranges.{AllInRange}
use eventcommerce.Cart.Repository.{lines_of}
use eventcommerce.Cart.LineLimit.{IsWithinLimit, requests-IsWithinLimit}
use eventcommerce.Cart.Bounds.{requests-AllInRange}
use eventcommerce.Inventory.Repository.{stock_row}
use eventcommerce.Inventory.Conservation.{total_of}
use eventcommerce.Inventory.UseCases.{reserve_item, reserve_items, reserve_or_reject, adjust_stock}
use eventcommerce.Inventory.Rejection.{reserve_or_reject-partial}
use eventcommerce.Catalog.UseCases.{zero_stock}
use eventcommerce.Runtime.System.{adjusts}
use eventcommerce.Runtime.Ledger.{stock_conserved}
use eventcommerce.Tests.Data.{start, services, two_cups}

abbrev ann : User
ann = record {
  id = "ann";
  email = "ann@example.org";
  password_hash = "x";
  role = shopper;
  created_at = 0;
  updated_at = 0;
}

abbrev three_cups : CartLine
three_cups = record { cart_id = "c"; product_id = "cup"; quantity = pos 3 }

abbrev with_cart : Db
with_cart = record start {
  users = ann ∷ [];
  carts = record { id = "c"; customer_id = "ann"; created_at = 0; updated_at = 0 } ∷ [];
  cart_items = three_cups ∷ [];
}

requests-AllInRange_example :
    AllInRange (get_cart "ann" with_cart).1
    × AllInRange (add_item "ann" "cup" (pos 4) with_cart).1
    × AllInRange (set_item_quantity "ann" "cup" (pos 4) with_cart).1
    × AllInRange (remove_item "ann" "cup" with_cart).1
requests-AllInRange_example =
    requests-AllInRange "ann" "cup" (pos 4) with_cart ((omega arith, omega arith), tt)

with_cart-IsWithinLimit : IsWithinLimit with_cart
unfolding lines_of
with_cart-IsWithinLimit = λ cart_id. ground arith

requests-IsWithinLimit_example :
    IsWithinLimit (get_cart "ann" with_cart).1
    × IsWithinLimit (add_item "ann" "cup" (pos 4) with_cart).1
    × IsWithinLimit (set_item_quantity "ann" "cup" (pos 4) with_cart).1
    × IsWithinLimit (remove_item "ann" "cup" with_cart).1
requests-IsWithinLimit_example =
    requests-IsWithinLimit "ann" "cup" (pos 4) with_cart with_cart-IsWithinLimit

abbrev no_such : OrderItem
no_such = record { product_id = "gone"; quantity = pos 1 }

abbrev cups_reserved : Db
cups_reserved = (reserve_items (two_cups ∷ []) start).1

reserve_or_reject-partial_example :
    reserve_or_reject "o" (two_cups ∷ no_such ∷ []) start
    ≡ save_outbox EventType.inventory_rejected "o"
        (Payload.rejected_items (two_cups ∷ no_such ∷ []) "insufficient_stock")
        cups_reserved
unfolding reserve_items reserve_item find upsert
reserve_or_reject-partial_example =
    reserve_or_reject-partial "o" (two_cups ∷ []) [] no_such start cups_reserved refl refl

abbrev adjusted : Db
adjusted = (in_transaction (adjust_stock "pot" (pos 2)) start).1

stock_conserved_example :
    (total_of (stock_row "cup" adjusted) ≡ total_of (stock_row "cup" start))
    ⊎ ((delta : ℤ) × (adjusted ≡ (in_transaction (adjust_stock "cup" delta) start).1))
    ⊎ ((stock_row "cup" start ≡ none) × (stock_row "cup" adjusted ≡ some (zero_stock "cup")))
stock_conserved_example = stock_conserved services "cup" (adjusts "pot" (pos 2) refl)
