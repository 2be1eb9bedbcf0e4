-- ===== src/Tests/System.antt =====
-- One run of the whole system.
use eventcommerce.Base.{find, true, false, none, ◌≡◌, refl, some, [], ◌∷◌}
use eventcommerce.Session.{Db, in_transaction}
use eventcommerce.Messaging.Events.{Payload}
use eventcommerce.Messaging.Worker.{Message, run_once}
use eventcommerce.Messaging.Consumer.{handle_message}
use eventcommerce.Orders.Repository.{order_row}
use eventcommerce.Orders.UseCases.{create_order, cancel_order, status_of}
use eventcommerce.Orders.Announcements.{replay, terminal_count, ended}
use eventcommerce.Base.Int.{pos}
use eventcommerce.Base.Decimal.{finite}
use eventcommerce.Catalog.UseCases.{ProductChanges}
use eventcommerce.Runtime.Requests.{perform, adds_item, updates_product}
use eventcommerce.Runtime.Handlers.{wired_bindings}
use eventcommerce.Runtime.System.{
  Reach, here, next, creates, cancels, asks, delivers, publishes, replay_reaches_status,
  terminal_event_once,
}
use eventcommerce.Tests.Data.{start, services, two_cups}

abbrev order_created : Message
order_created = record {
  message_id = some "m";
  event_type = some "OrderCreated";
  aggregate_id = some "i";
  payload = some (Payload.created "ann" (two_cups ∷ []));
}

abbrev ordered : Db
ordered = (in_transaction (create_order "ann" (two_cups ∷ [])) start).1

abbrev reserved : Db
reserved = (handle_message (wired_bindings services) order_created ordered).1

-- A shopper puts two cups into a cart, and an operator changes their price.
abbrev shopped : Db
shopped = perform (adds_item "ann" "cup" (pos 2)) reserved

abbrev dearer : ProductChanges
dearer = record {
  name = none;
  description = none;
  price = some (finite (pos 500) 2);
  currency = none;
  active = none;
  clear_description = false;
}

abbrev priced : Db
priced = perform (updates_product (λ text. text) "cup" dearer) shopped

abbrev sent : Db
sent = (in_transaction (run_once (λ _. true) 100) priced).1

abbrev ended_run : Db
ended_run = (in_transaction (cancel_order "i" "late") sent).1

run : Reach services start ended_run
unfolding find
run =
    next
      (next
        (next
          (next
            (next (next here (creates "ann" (two_cups ∷ []) refl refl))
              (delivers order_created refl))
            (asks (adds_item "ann" "cup" (pos 2)) refl))
          (asks (updates_product (λ text. text) "cup" dearer) refl))
        (publishes (λ _. true) 100 refl))
      (cancels "i" "late" refl)

replay_reaches_status_example :
    replay "i" ended_run.outbox_events ≡ some (status_of (order_row "i" ended_run))
replay_reaches_status_example = replay_reaches_status services refl refl run "i"

terminal_event_once_example :
    terminal_count "i" ended_run.outbox_events ≡ ended (status_of (order_row "i" ended_run))
terminal_event_once_example = terminal_event_once services refl refl run "i"
