-- ===== src/Tests/Deliveries.antt =====
-- Two deliveries of one message.
use eventcommerce.Base.{◌≡◌, some, [], ◌∷◌}
use eventcommerce.Messaging.Events.{Payload}
use eventcommerce.Messaging.Worker.{Message}
use eventcommerce.Messaging.Consumer.{handle_message}
use eventcommerce.Inventory.Repository.{stock_row}
use eventcommerce.Inventory.Conservation.{total_of}
use eventcommerce.Runtime.Handlers.{wired_bindings}
use eventcommerce.Runtime.Redelivery.{Settled, redelivery_settles}
use eventcommerce.Runtime.Stock.{delivery_conserves_stock}
use eventcommerce.Tests.Data.{start, services, two_cups}

abbrev delivered : Message
delivered = record {
  message_id = some "m";
  event_type = some "OrderCreated";
  aggregate_id = some "o";
  payload = some (Payload.created "ann" (two_cups ∷ []));
}

redelivery_settles_example :
    Settled
      (handle_message (wired_bindings services) delivered)
      start
      (handle_message (wired_bindings services) delivered start)
redelivery_settles_example = redelivery_settles services delivered start

delivery_conserves_stock_example :
    total_of (stock_row "cup" (handle_message (wired_bindings services) delivered start).1)
    ≡ total_of (stock_row "cup" start)
delivery_conserves_stock_example = delivery_conserves_stock services delivered start "cup"
