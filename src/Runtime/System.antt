-- ===== src/Runtime/System.antt =====
-- The whole system as a step relation: the requests to the routes of backend/app/modules, deliveries by the broker in any order and any number, and runs of the outbox worker.
use eventcommerce.Base.{
  ℕ, String, Bool, ◌≡◌, find, none, some, List, [], arith, Bool-cases, inl, inr, string_eq,
}
use eventcommerce.Base.Int.{ℤ}
use eventcommerce.Result.{Uuid}
use eventcommerce.Session.{Db, in_transaction}
use eventcommerce.Session.Keeps.{Keeps, Keeps-in_transaction, in_transaction-keeps}
use eventcommerce.Messaging.Events.{OutboxEvent}
use eventcommerce.Messaging.Worker.{Message, run_once}
use eventcommerce.Messaging.Consumer.{handle_message}
use eventcommerce.Orders.Domain.{Order, OrderItem}
use eventcommerce.Orders.Repository.{order_row}
use eventcommerce.Orders.UseCases.{create_order, confirm_order, cancel_order, status_of}
use eventcommerce.Orders.Announcements.{
  replay, IsAnnounced, create_order-IsAnnounced, terminal_count, ended, terminal_count-replay,
}
use eventcommerce.Orders.Preservation.{Keeps-Changes, Keeps-adjust_stock}
use eventcommerce.Orders.Operations.{Changes-confirm_order, Changes-cancel_order}
use eventcommerce.Inventory.UseCases.{adjust_stock}
use eventcommerce.Checkout.Request.{CheckoutRequest}
use eventcommerce.Checkout.Execute.{CheckoutServices, execute}
use eventcommerce.Checkout.Announced.{execute-IsAnnounced}
use eventcommerce.Catalog.UseCases.{seed_inventory, is_given}
use eventcommerce.Inventory.Repository.{stock_row, save_inventory}
use eventcommerce.Runtime.Requests.{Request, perform}
use eventcommerce.Runtime.Shopping.{OfOthers}
use eventcommerce.Runtime.Asking.{perform-Keeps}
use eventcommerce.Checkout.Untouched.{Announced}
use eventcommerce.Runtime.Handlers.{Services, wired_bindings}
use eventcommerce.Runtime.Deliveries.{delivery-keeps}
use eventcommerce.Runtime.Preservation.{IsAnnounced-Primitives, Keeps-run_once}

seed_inventory-Keeps :
    (Q : List Order → List OutboxEvent → Type 0) (product_id : String)
    → Keeps (OfOthers (λ orders events _ _. Q orders events)) (seed_inventory product_id)
unfolding seed_inventory save_inventory
seed_inventory-Keeps Q product_id = record {
  at = λ db h. elim (Bool-cases (is_given (stock_row product_id db))) [
    | inl e ↦ rw e h
    | inr e ↦ rw e h
  ];
}

perform-IsAnnounced :
    (request : Request) (db : Db) → IsAnnounced db → IsAnnounced (perform request db)
perform-IsAnnounced request db h = record {
  at =
      perform-Keeps (λ orders events _ _. Announced orders events) (seed_inventory-Keeps Announced)
        request db h.at;
}

module _ (services : Services) where
  -- A request is a transaction, a checkout two. A new order gets an id that no stored order has.
  pub data Step (db after : Db) : Type 0 where
    creates :
        (customer_id : String) (items : List OrderItem)
        → order_row (db.next_uuids 0) db ≡ none
        → after ≡ (in_transaction (create_order customer_id items) db).1
        → Step db after
    checks_out :
        (checkout : CheckoutServices) (request : CheckoutRequest)
        → order_row (db.next_uuids 0) db ≡ none
        → after ≡ (execute checkout request db).1
        → Step db after
    confirms :
        (order_id : Uuid) → after ≡ (in_transaction (confirm_order order_id) db).1 → Step db after
    cancels :
        (order_id : Uuid) (reason : String)
        → after ≡ (in_transaction (cancel_order order_id reason) db).1
        → Step db after
    adjusts :
        (product_id : String) (delta : ℤ)
        → after ≡ (in_transaction (adjust_stock product_id delta) db).1
        → Step db after
    asks : (request : Request) → after ≡ perform request db → Step db after
    delivers :
        (m : Message) → after ≡ (handle_message (wired_bindings services) m db).1 → Step db after
    publishes :
        (publish : OutboxEvent → Bool) (batch_size : ℕ)
        → after ≡ (in_transaction (run_once publish batch_size) db).1
        → Step db after

  pub data Reach (start : Db) : Db → Type 0 where
    here : Reach start start
    next : {db after : Db} → Reach start db → Step db after → Reach start after

  Step-IsAnnounced : {db after : Db} → Step db after → IsAnnounced db → IsAnnounced after
  Step-IsAnnounced {db} (creates customer_id items fresh e) h = rw e (
      in_transaction-keeps IsAnnounced (create_order customer_id items) db h
        (create_order-IsAnnounced customer_id items db fresh h))
  Step-IsAnnounced {db} (checks_out checkout request fresh e) h =
      rw e (execute-IsAnnounced checkout request db fresh h)
  Step-IsAnnounced {db} (confirms order_id e) h =
      rw e ((Keeps-in_transaction _ (Keeps-Changes _ (Changes-confirm_order order_id))).at db h)
  Step-IsAnnounced {db} (cancels order_id reason e) h =
      rw e
        ((Keeps-in_transaction _ (Keeps-Changes _ (Changes-cancel_order order_id reason))).at db h)
  Step-IsAnnounced {db} (adjusts product_id delta e) h =
      rw e ((Keeps-in_transaction _ (Keeps-adjust_stock product_id delta)).at db h)
  Step-IsAnnounced {db} (asks request e) h = rw e (perform-IsAnnounced request db h)
  Step-IsAnnounced {db} (delivers m e) h =
      rw e (delivery-keeps IsAnnounced-Primitives services m db h)
  Step-IsAnnounced {db} (publishes publish batch_size e) h =
      rw e ((Keeps-in_transaction _ (Keeps-run_once publish batch_size)).at db h)

  Reach-IsAnnounced : {db after : Db} → Reach db after → IsAnnounced db → IsAnnounced after
  Reach-IsAnnounced here h = h
  Reach-IsAnnounced (next r step) h = Step-IsAnnounced step (Reach-IsAnnounced r h)

  -- Whatever requests (to any route), deliveries (duplicated, lost or out of order) and worker
  -- runs have led from tables with no orders and an empty outbox to `db`: replaying the
  -- announcements of an order in the outbox follows the lifecycle from its creation, and ends at
  -- its stored status. A request that creates an order is a step only where its new id is free.
  pub replay_reaches_status :
      {start db : Db}
      → start.orders ≡ []
      → start.outbox_events ≡ []
      → Reach start db
      → (order_id : Uuid)
      → replay order_id db.outbox_events ≡ some (status_of (order_row order_id db))
  unfolding replay find
  replay_reaches_status p q r = (Reach-IsAnnounced r (record { at = λ k. rw (p, q) })).at

  -- Whatever requests (to any route), deliveries and worker runs have led from tables with no orders
  -- and an empty outbox to `db`: the outbox holds exactly one terminal event, `OrderConfirmed` or
  -- `OrderCancelled`, of an order whose stored status is terminal, and none of any other. A request
  -- that creates an order is a step only where its new id is free.
  pub terminal_event_once :
      {start db : Db}
      → start.orders ≡ []
      → start.outbox_events ≡ []
      → Reach start db
      → (order_id : Uuid)
      → terminal_count order_id db.outbox_events ≡ ended (status_of (order_row order_id db))
  unfolding replay
  terminal_event_once {db} p q r order_id = omega (
    arith,
    terminal_count-replay order_id none (status_of (order_row order_id db)) db.outbox_events
        (replay_reaches_status p q r order_id),
  )
