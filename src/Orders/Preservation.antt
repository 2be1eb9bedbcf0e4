-- ===== src/Orders/Preservation.antt =====
-- The primitive operations of all contexts keep the announcements in step with the orders.
use eventcommerce.Base.{String, ◌≡◌, Option, none, some, arith, string_eq}
use eventcommerce.Session.{Db, Action, uuid4, utc_now}
use eventcommerce.Session.Keeps.{Keeps, keeps_rules}
use eventcommerce.Messaging.Events.{EventType, Payload}
use eventcommerce.Messaging.Outbox.{save_outbox}
use eventcommerce.Messaging.Idempotency.{mark_processed, mark_processed_lem}
use eventcommerce.Orders.Operations.{Changes}
use eventcommerce.Orders.Announcements.{
  announced, replay-append, IsAnnounced, OrderChange-IsAnnounced,
}
use eventcommerce.Orders.Domain.{OrderItem}
use eventcommerce.Inventory.UseCases.{
  release_item, release_row, reserve_item, release_inventory, adjust_stock,
}
use eventcommerce.Inventory.Repository.{save_inventory}
use eventcommerce.Inventory.Domain.{Inventory, release_stock}
use eventcommerce.Payments.Domain.{Payment}
use eventcommerce.Payments.UseCases.{save_payment}
use eventcommerce.Notifications.UseCases.{save_notification}
use eventcommerce.Notifications.Domain.{Notification}
use eventcommerce.Base.Int.{ℤ}

pub Keeps-Changes : {A : Type 0} (m : Action A) → ((db : Db) → Changes db m) → Keeps IsAnnounced m
Keeps-Changes m c = record { at = λ db h. OrderChange-IsAnnounced (c db).change h }

pub Keeps-uuid4 : Keeps IsAnnounced uuid4
Keeps-uuid4 = record { at = λ db h. record { at = h.at } }

pub Keeps-utc_now : Keeps IsAnnounced utc_now
Keeps-utc_now = record { at = λ db h. record { at = h.at } }

pub Keeps-save_inventory : (inventory : Inventory) → Keeps IsAnnounced (save_inventory inventory)
unfolding save_inventory
Keeps-save_inventory inventory = record { at = λ db h. record { at = h.at } }

pub Keeps-save_payment : (payment : Payment) → Keeps IsAnnounced (save_payment payment)
unfolding save_payment
Keeps-save_payment payment = record { at = λ db h. record { at = h.at } }

pub Keeps-save_notification :
    (notification : Notification) → Keeps IsAnnounced (save_notification notification)
unfolding save_notification
Keeps-save_notification notification = record { at = λ db h. record { at = h.at } }

Keeps-release_row :
    (quantity : ℤ) (found : Option Inventory) → Keeps IsAnnounced (release_row quantity found)
unfolding release_row
Keeps-release_row quantity none = search keeps_rules
Keeps-release_row quantity (some inventory) =
    Keeps-save_inventory (release_stock inventory quantity)

pub Keeps-mark_processed :
    (event_id consumer_name : String) → Keeps IsAnnounced (mark_processed event_id consumer_name)
Keeps-mark_processed event_id consumer_name = record {
  at = λ db h. rw mark_processed_lem (record { at = h.at });
}

-- An event that announces no status leaves the replay alone.
pub Keeps-save_outbox :
    (event_type : EventType) (aggregate_id : String) (payload : Payload)
    → announced event_type ≡ none
    → Keeps IsAnnounced (save_outbox event_type aggregate_id payload)
unfolding save_outbox
Keeps-save_outbox event_type aggregate_id payload silent = record {
  at = λ db h. record { at = λ k. rw replay-append (rw (h.at k) (ground arith)) };
}

ruleset announced_rules = (keeps_rules, Keeps-uuid4, Keeps-utc_now, Keeps-save_inventory)

pub Keeps-reserve_item :
    (product_id : String) (quantity : ℤ) → Keeps IsAnnounced (reserve_item product_id quantity)
unfolding reserve_item
Keeps-reserve_item product_id quantity = search announced_rules

Keeps-release_inventory :
    (product_id : String) (quantity : ℤ) → Keeps IsAnnounced (release_inventory product_id quantity)
unfolding release_inventory
Keeps-release_inventory product_id quantity = search (announced_rules, Keeps-release_row)

pub Keeps-release_item : (item : OrderItem) → Keeps IsAnnounced (release_item item)
unfolding release_item
Keeps-release_item item = search (announced_rules, Keeps-release_inventory)

pub Keeps-adjust_stock :
    (product_id : String) (delta : ℤ) → Keeps IsAnnounced (adjust_stock product_id delta)
unfolding adjust_stock
Keeps-adjust_stock product_id delta = search announced_rules
