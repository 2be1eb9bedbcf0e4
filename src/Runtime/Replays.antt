-- ===== src/Runtime/Replays.antt =====
-- The stored response of a checkout, along every run of the whole system: the idempotency keys of
-- backend/app/modules/checkout/application/checkout.py.
use eventcommerce.Base.{
  String, ◌≡◌, refl, Option, none, some, List, find, find-upsert, ◌==◌, string_eq, pair_eq,
  pair_beq_iff, if◌then◌else◌, Bool-cases, inl, inr,
}
use eventcommerce.Base.Int.{ℤ}
use eventcommerce.Result.{ok, err, idempotency_conflict}
use eventcommerce.Session.{Db}
use eventcommerce.Session.Keeps.{Keeps, keeps_rules, Keeps-in_transaction}
use eventcommerce.Messaging.Events.{ProcessedEvent}
use eventcommerce.Messaging.Idempotency.{
  claim_key, mark_processed, mark_processed_lem, is_some, replace_row, new_row,
}
use eventcommerce.Orders.Domain.{OrderItem}
use eventcommerce.Inventory.Domain.{Inventory}
use eventcommerce.Inventory.Repository.{stock_row, save_inventory}
use eventcommerce.Inventory.UseCases.{
  reserve_item, release_item, release_inventory, release_row, adjust_stock,
}
use eventcommerce.Catalog.UseCases.{seed_inventory, is_given}
use eventcommerce.Checkout.Request.{CheckoutRequest}
use eventcommerce.Checkout.Execute.{
  CheckoutServices, CheckoutResult, checkout_consumer_name, execute,
}
use eventcommerce.Checkout.Answers.{Answers}
use eventcommerce.Checkout.Remembered.{HasRow, Remembers}
use eventcommerce.Checkout.Recalled.{execute-Remembers}
use eventcommerce.Checkout.Replay.{execute-Answers, execute-answered}
use eventcommerce.Runtime.Handlers.{Services}
use eventcommerce.Runtime.Deliveries.{delivery-keeps}
use eventcommerce.Runtime.Publishing.{run_once-Keeps}
use eventcommerce.Runtime.Asking.{perform-Keeps}
use eventcommerce.Runtime.Stock.{OfInventory-Primitives}
use eventcommerce.Runtime.Ledger.{
  create_order-Keeps, confirm_order-Keeps, cancel_order-Keeps, mark_published-Keeps,
}
use eventcommerce.Runtime.System.{
  Step, creates, checks_out, confirms, cancels, adjusts, asks, delivers, publishes, Reach, here,
  next,
}

module _ (key : String) (row : ProcessedEvent) where
  abbrev HasItsRow : List Inventory → List ProcessedEvent → Type 0
  HasItsRow _ rows = HasRow key row rows

  -- A message that is processed has another consumer or another id, or a row already.
  mark_processed-Remembers :
      (event_id consumer_name : String)
      → Keeps (Remembers key row) (mark_processed event_id consumer_name)
  mark_processed-Remembers event_id consumer_name = record {
    at = λ db h.
        let name : String × String = (event_id, consumer_name) in
        let looked =
          find-upsert claim_key replace_row (λ _ _. refl) (key, checkout_consumer_name)
            (new_row event_id consumer_name) db.processed_events in
        rw mark_processed_lem
          (elim (Bool-cases (is_some (find claim_key name db.processed_events))) [
            | inl done ↦ rw done h
            | inr fresh ↦ elim (Bool-cases (name == (key, checkout_consumer_name))) [
              | inr other ↦ rw fresh (rw (looked, other) h)
              | inl same ↦
                  let named : name ≡ (key, checkout_consumer_name) =
                    (pair_beq_iff name (key, checkout_consumer_name)).0 same in
                  let missing = rw (named, h) at fresh in cc missing
            ]
          ]);
  }

  save_inventory-Remembers :
      (inventory : Inventory) → Keeps (Remembers key row) (save_inventory inventory)
  unfolding save_inventory
  save_inventory-Remembers inventory = record { at = λ db h. h }

  reserve_item-Remembers :
      (product_id : String) (quantity : ℤ)
      → Keeps (Remembers key row) (reserve_item product_id quantity)
  unfolding reserve_item
  reserve_item-Remembers product_id quantity = search (keeps_rules, save_inventory-Remembers)

  release_row-Remembers :
      (quantity : ℤ) (found : Option Inventory)
      → Keeps (Remembers key row) (release_row quantity found)
  unfolding release_row
  release_row-Remembers quantity none = search keeps_rules
  release_row-Remembers quantity (some inventory) = save_inventory-Remembers _

  release_item-Remembers : (item : OrderItem) → Keeps (Remembers key row) (release_item item)
  unfolding release_item release_inventory
  release_item-Remembers item = search (keeps_rules, release_row-Remembers) depth 9

  adjust_stock-Remembers :
      (product_id : String) (delta : ℤ) → Keeps (Remembers key row) (adjust_stock product_id delta)
  unfolding adjust_stock
  adjust_stock-Remembers product_id delta = search (keeps_rules, save_inventory-Remembers)

  seed_inventory-Remembers :
      (product_id : String) → Keeps (Remembers key row) (seed_inventory product_id)
  unfolding seed_inventory save_inventory
  seed_inventory-Remembers product_id = record {
    at = λ db h. elim (Bool-cases (is_given (stock_row product_id db))) [
      | inl e ↦ rw e h
      | inr e ↦ rw e h
    ];
  }

-- No step of the system touches the row of a key whose response is stored.
Answers-Step :
    (services : Services) (key request_hash : String) (result : CheckoutResult) {db after : Db}
    → Step services db after
    → (a : Answers key request_hash result db) → Remembers key a.row after
Answers-Step services key request_hash result {db} (creates customer_id items fresh e) a = rw e (
    (Keeps-in_transaction _ (create_order-Keeps (HasItsRow key a.row) customer_id items)).at db
      a.found)
Answers-Step services key request_hash result {db} (checks_out checkout request fresh e) a =
    rw e (execute-Remembers checkout key request_hash result request db a)
Answers-Step services key request_hash result {db} (confirms order_id e) a =
    rw e
      ((Keeps-in_transaction _ (confirm_order-Keeps (HasItsRow key a.row) order_id)).at db a.found)
Answers-Step services key request_hash result {db} (cancels order_id reason e) a = rw e (
    (Keeps-in_transaction _ (cancel_order-Keeps (HasItsRow key a.row) order_id reason)).at db
      a.found)
Answers-Step services key request_hash result {db} (adjusts product_id delta e) a =
    rw e
      ((Keeps-in_transaction _ (adjust_stock-Remembers key a.row product_id delta)).at db a.found)
Answers-Step services key request_hash result {db} (asks request e) a = rw e (
    perform-Keeps (λ _ _ rows _. HasRow key a.row rows) (seed_inventory-Remembers key a.row) request
      db a.found)
Answers-Step services key request_hash result {db} (delivers m e) a = rw e (
    delivery-keeps
      (OfInventory-Primitives (HasItsRow key a.row) (mark_processed-Remembers key a.row)
        (reserve_item-Remembers key a.row) (release_item-Remembers key a.row))
      services m db a.found)
Answers-Step services key request_hash result {db} (publishes publish batch_size e) a = rw e (
    (Keeps-in_transaction _
        (run_once-Keeps (mark_published-Keeps (HasItsRow key a.row)) publish batch_size)).at
      db a.found)

Answers-Reach :
    (services : Services) (key request_hash : String) (result : CheckoutResult) {start db : Db}
    → Reach services start db
    → Answers key request_hash result start
    → Answers key request_hash result db
Answers-Reach services key request_hash result here a = a
Answers-Reach services key request_hash result (next r step) a =
    let before = Answers-Reach services key request_hash result r a in
    record {
      row = before.row;
      found = Answers-Step services key request_hash result step before;
      completed = before.completed;
      hash = before.hash;
      response = before.response;
    }

-- Once a checkout with an idempotency key has returned, every later request with that key of a known
-- customer, whatever requests, deliveries and runs of the worker come between the two, is answered
-- without any change of the tables: with the same result, if the hash of its payload is the same, and
-- with an idempotency conflict if it is another. A request in between that creates an order is a step
-- only where its new id is free.
pub later_execute_replays :
    (services : Services) (checkout : CheckoutServices) (key customer_id : String)
    (request later : CheckoutRequest) (result : CheckoutResult) (db after now : Db)
    → request.idempotency_key ≡ some key
    → execute checkout request db ≡ (ok result, after)
    → Reach services after now
    → later.idempotency_key ≡ some key
    → later.customer_id ≡ some customer_id
    → execute checkout later now ≡ (
      if checkout.request_hash request == checkout.request_hash later
          then ok result
          else err idempotency_conflict,
      now,
    )
later_execute_replays services checkout key customer_id request later result db after now keyed done
      run same known =
    execute-answered checkout key (checkout.request_hash request) result now
      (Answers-Reach services key (checkout.request_hash request) result run
        (execute-Answers checkout key request db after result keyed done))
      customer_id later same known
