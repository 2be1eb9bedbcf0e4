-- ===== src/Runtime/Kept.antt =====
-- Every use case behind the queues keeps what its primitives keep.
use eventcommerce.Base.{String, Bool, Option, List, [], ◌∷◌}
use eventcommerce.Base.Decimal.{Decimal}
use eventcommerce.Result.{Uuid, Result, ok, err, insufficient_stock, payment_rejected}
use eventcommerce.Session.{Db, Action}
use eventcommerce.Session.Keeps.{Keeps, keeps_rules, Keeps-bind}
use eventcommerce.Messaging.Idempotency.{is_processed}
use eventcommerce.Orders.Domain.{Order, OrderItem}
use eventcommerce.Orders.UseCases.{get_order, get_order_status}
use eventcommerce.Orders.Consumers.{once}
use eventcommerce.Inventory.UseCases.{
  reserve_item, reserve_items, except_insufficient, reserve_or_reject,
  process_inventory_reservation, release_item, release_items, compensate, process_payment_rejected,
}
use eventcommerce.Payments.UseCases.{
  new_payment, authorize_payment, process_payment_failure, except_rejected, reject_underived,
  decline, announce_authorized, charge, charge_reserved, process_order_inventory_reserved, Derived,
  refused, total,
}
use eventcommerce.Notifications.UseCases.{send_order_notification, process_order_notification}
use eventcommerce.Runtime.Primitives.{Primitives, primitive_rules}

module _ {P : Db → Type 0} where
  pub Kept-once :
      (event_id consumer_name : String) (run : Action Unit)
      → Keeps P run
      → Keeps P (once event_id consumer_name run)
  unfolding once is_processed
  Kept-once event_id consumer_name run h = search keeps_rules

  pub Kept-get_order : (order_id : Uuid) → Keeps P (get_order order_id)
  unfolding get_order
  Kept-get_order order_id = search keeps_rules

  pub Kept-get_order_status : (order_id : Uuid) → Keeps P (get_order_status order_id)
  unfolding get_order_status
  Kept-get_order_status order_id = search keeps_rules

  -- `except` blocks: each arm keeps what the call kept.
  pub Kept-except_insufficient :
      (m handler : Action Unit)
      → Keeps P m
      → Keeps P handler
      → Keeps P (except_insufficient m handler)
  Kept-except_insufficient m handler km kh = record {
    at = λ db h. go (m db).0 (m db).1 (km.at db h);
  }
    where
      go : (r : Result Unit) (db : Db) → P db → P (except_insufficient (λ _. (r, db)) handler db).1
      go (ok a) db h = h
      go (err insufficient_stock) db h = kh.at db h
      go (err _) db h = h

  pub Kept-except_rejected :
      {A : Type 0} (m : Action A) (handler : Action Unit) (rest : A → Action Unit)
      → Keeps P m
      → Keeps P handler
      → ((a : A) → Keeps P (rest a))
      → Keeps P (except_rejected m handler rest)
  Kept-except_rejected {A} m handler rest km kh kr = record {
    at = λ db h. go (m db).0 (m db).1 (km.at db h);
  }
    where
      go : (r : Result A) (db : Db) → P db → P (except_rejected (λ _. (r, db)) handler rest db).1
      go (ok a) db h = (kr a).at db h
      go (err payment_rejected) db h = kh.at db h
      go (err _) db h = h

ruleset kept_rules = (
  primitive_rules, Kept-once, Kept-get_order, Kept-get_order_status, Kept-except_insufficient,
  Kept-except_rejected,
)

module _ {P : Db → Type 0} (k : Primitives P) where
  Kept-reserve_items : (items : List OrderItem) → Keeps P (reserve_items items)
  unfolding reserve_items
  Kept-reserve_items [] = search kept_rules
  Kept-reserve_items (item ∷ items) =
      Keeps-bind (reserve_item item.product_id item.quantity) (λ _. reserve_items items)
        (k.reserve item.product_id item.quantity) (λ _. Kept-reserve_items items)

  Kept-release_items : (items : List OrderItem) → Keeps P (release_items items)
  unfolding release_items
  Kept-release_items [] = search kept_rules
  Kept-release_items (item ∷ items) =
      Keeps-bind (release_item item) (λ _. release_items items) (k.release item)
        (λ _. Kept-release_items items)

  Kept-reserve_or_reject :
      (order_id : String) (items : List OrderItem) → Keeps P (reserve_or_reject order_id items)
  unfolding reserve_or_reject
  Kept-reserve_or_reject order_id items = search (kept_rules, Kept-reserve_items) depth 7

  pub Kept-process_inventory_reservation :
      (parse_uuid : String → Option Uuid) (event_id order_id : String) (items : List OrderItem)
      → Keeps P (process_inventory_reservation parse_uuid event_id order_id items)
  unfolding process_inventory_reservation
  Kept-process_inventory_reservation parse_uuid event_id order_id items =
      search (kept_rules, Kept-reserve_or_reject) depth 10

  pub Kept-process_payment_rejected :
      (event_id : String) (order_id : Uuid) → Keeps P (process_payment_rejected event_id order_id)
  unfolding process_payment_rejected compensate
  Kept-process_payment_rejected event_id order_id = search (kept_rules, Kept-release_items) depth 10

  Kept-new_payment :
      (order_id : Uuid) (status : String) (amount : Decimal) (currency : String)
      (reason : Option String)
      → Keeps P (new_payment order_id status amount currency reason)
  unfolding new_payment
  Kept-new_payment order_id status amount currency reason = search kept_rules depth 10

  Kept-charge :
      (approval_policy : String → Decimal → String → Bool) (order : Order) (derived : Derived)
      → Keeps P (charge approval_policy order derived)
  unfolding charge reject_underived decline announce_authorized authorize_payment
      process_payment_failure
  Kept-charge approval_policy order (refused reason) = search kept_rules
  Kept-charge approval_policy order (total amount currency) =
      search (kept_rules, Kept-new_payment) depth 10

  pub Kept-process_order_inventory_reserved :
      (approval_policy : String → Decimal → String → Bool) (event_id : String) (order_id : Uuid)
      → Keeps P (process_order_inventory_reserved approval_policy event_id order_id)
  unfolding process_order_inventory_reserved charge_reserved
  Kept-process_order_inventory_reserved approval_policy event_id order_id =
      search (kept_rules, Kept-charge) depth 10

  pub Kept-process_order_notification :
      (parse_uuid : String → Option Uuid) (event_id event_type aggregate_id : String)
      → Keeps P (process_order_notification parse_uuid event_id event_type aggregate_id)
  unfolding process_order_notification send_order_notification
  Kept-process_order_notification parse_uuid event_id event_type aggregate_id =
      search kept_rules depth 13
