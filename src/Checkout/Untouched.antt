-- ===== src/Checkout/Untouched.antt =====
-- The parts of a checkout that touch neither the orders nor the outbox:
-- backend/app/modules/checkout/application/checkout.py.
use eventcommerce.Base.{String, Bool, ◌≡◌, Option, none, some, List, [], ◌∷◌, find, string_eq}
use eventcommerce.Base.Int.{ℤ}
use eventcommerce.Base.Decimal.{Decimal}
use eventcommerce.Result.{Uuid, key_error}
use eventcommerce.Session.{Db, lift, or_raise, ◌>>=◌, ◌>>◌}
use eventcommerce.Session.Keeps.{Keeps, keeps_rules, Keeps-bind, Keeps-or_raise, Keeps-lift}
use eventcommerce.Messaging.Events.{OutboxEvent, ProcessedEvent}
use eventcommerce.Orders.Domain.{Order, pending, status_eq}
use eventcommerce.Orders.Repository.{order_key}
use eventcommerce.Orders.UseCases.{status_of}
use eventcommerce.Orders.Announcements.{replay}
use eventcommerce.Inventory.Domain.{Inventory, reserve_stock}
use eventcommerce.Inventory.Repository.{save_inventory}
use eventcommerce.Inventory.Locking.{lock_and_check_availability}
use eventcommerce.Inventory.UseCases.{release_inventory, release_row}
use eventcommerce.Payments.UseCases.{save_payment}
use eventcommerce.Notifications.UseCases.{save_notification}
use eventcommerce.Cart.Repository.{clear_lines}
use eventcommerce.Checkout.Inputs.{CheckoutInputs}
use eventcommerce.Checkout.Execute.{line_key, reserve_locked, release_lines, reserve_and_pay}
use eventcommerce.Checkout.Kept.{Writes, Keeps-authorize_payment}

-- A property of the orders, the outbox and the processed events.
module _ (Q : List Order → List OutboxEvent → List ProcessedEvent → Type 0) where
  abbrev pub OfOrders : Db → Type 0
  OfOrders db = Q db.orders db.outbox_events db.processed_events

  pub OfOrders-Writes : Writes OfOrders
  unfolding save_payment save_notification clear_lines
  OfOrders-Writes = record {
    uuid = record { at = λ db h. h };
    now = record { at = λ db h. h };
    payment = λ _. record { at = λ db h. h };
    notification = λ _. record { at = λ db h. h };
    cart = λ _. record { at = λ db h. h };
  }

  Keeps-save_inventory : (inventory : Inventory) → Keeps OfOrders (save_inventory inventory)
  unfolding save_inventory
  Keeps-save_inventory inventory = record { at = λ db h. h }

  Keeps-reserve_locked :
      (quantities : List (String × ℤ)) (locked : List Inventory)
      → Keeps OfOrders (reserve_locked quantities locked)
  unfolding reserve_locked
  Keeps-reserve_locked quantities [] = search keeps_rules
  Keeps-reserve_locked quantities (inventory ∷ locked) =
      Keeps-bind (or_raise (find line_key inventory.product_id quantities) key_error)
        (λ line. lift (reserve_stock inventory line.1) >>= λ reserved.
          save_inventory reserved >> reserve_locked quantities locked)
        (Keeps-or_raise (find line_key inventory.product_id quantities) key_error)
        (λ line.
          Keeps-bind (lift (reserve_stock inventory line.1))
            (λ reserved. save_inventory reserved >> reserve_locked quantities locked)
            (Keeps-lift (reserve_stock inventory line.1))
            (λ reserved.
              Keeps-bind (save_inventory reserved) (λ _. reserve_locked quantities locked)
                (Keeps-save_inventory reserved) (λ _. Keeps-reserve_locked quantities locked)))

  Keeps-release_row :
      (quantity : ℤ) (found : Option Inventory) → Keeps OfOrders (release_row quantity found)
  unfolding release_row
  Keeps-release_row quantity none = search keeps_rules
  Keeps-release_row quantity (some inventory) = Keeps-save_inventory _

  Keeps-release_inventory :
      (product_id : String) (quantity : ℤ) → Keeps OfOrders (release_inventory product_id quantity)
  unfolding release_inventory
  Keeps-release_inventory product_id quantity = search (keeps_rules, Keeps-release_row)

  pub Keeps-release_lines : (lines : List (String × ℤ)) → Keeps OfOrders (release_lines lines)
  unfolding release_lines
  Keeps-release_lines [] = search keeps_rules
  Keeps-release_lines ((product_id, quantity) ∷ lines) =
      Keeps-bind (release_inventory product_id quantity) (λ _. release_lines lines)
        (Keeps-release_inventory product_id quantity) (λ _. Keeps-release_lines lines)

  pub Keeps-reserve_and_pay :
      (approval_policy : String → Decimal → String → Bool) (order : Order) (inputs : CheckoutInputs)
      → Keeps OfOrders (reserve_and_pay approval_policy order inputs)
  unfolding reserve_and_pay lock_and_check_availability
  Keeps-reserve_and_pay approval_policy order inputs =
      search (keeps_rules, Keeps-reserve_locked, OfOrders-Writes, Keeps-authorize_payment) depth 9

-- The announcements of all orders end at the stored statuses, and the row of `order` is `order`.
abbrev pub Announced : List Order → List OutboxEvent → Type 0
Announced orders events = (k : Uuid) → replay k events ≡ some (status_of (find order_key k orders))

abbrev pub Pending : Order → List Order → List OutboxEvent → List ProcessedEvent → Type 0
Pending order orders events processed =
    Announced orders events
    × (find order_key order.id orders ≡ some order)
    × (order.status ≡ pending)
