-- ===== src/Notifications/UseCases.antt =====
-- backend/app/modules/notifications/application: send_order_notification.py and
-- process_order_notification.py. A notification has a fresh id, so that `save` inserts it.
use eventcommerce.Base.{String, not, Option, none, some, upsert, string_eq, if◌then◌else◌, ◌==◌}
use eventcommerce.Result.{Uuid, channel_not_supported, value_error}
use eventcommerce.Session.{Action, pure, raise_if, or_raise, modify, uuid4, utc_now, ◌>>=◌, ◌>>◌}
use eventcommerce.Messaging.Idempotency.{mark_processed}
use eventcommerce.Orders.Consumers.{once}
use eventcommerce.Notifications.Domain.{Notification, is_channel_supported}

abbrev notification_key : Notification → Uuid
notification_key notification = notification.id

abbrev update_notification : Notification → Notification → Notification
update_notification existing notification = record existing {
  channel = notification.channel;
  content = notification.content;
  sent_at = notification.sent_at;
}

-- `SqlAlchemyNotificationRepository.save`
unfoldable pub save_notification : Notification → Action Unit
save_notification notification = modify (λ db. record db {
  notifications = upsert notification_key update_notification notification db.notifications;
})

-- `SendOrderNotification.execute`
unfoldable pub send_order_notification : Uuid → String → String → Action Notification
unfolding is_channel_supported save_notification
send_order_notification order_id channel content = do
  raise_if (not (is_channel_supported channel)) channel_not_supported
  id ← uuid4
  sent_at ← utc_now
  let notification : Notification = record {
    id = id;
    order_id = order_id;
    channel = channel;
    content = content;
    sent_at = sent_at;
  }
  save_notification notification
  pure notification

-- The content for a terminal event; other event types are not supported.
abbrev pub content_of : String → Option String
content_of event_type =
    if event_type == "OrderConfirmed"
    then some "Your order has been confirmed"
    else if event_type == "OrderCancelled"
    then some "Your order could not be completed"
    else none

-- `ProcessOrderNotification.execute`
unfoldable pub process_order_notification :
    (String → Option Uuid) → String → String → String → Action Unit
process_order_notification parse_uuid event_id event_type aggregate_id =
    once event_id "ProcessOrderNotification" (do
      order_id ← or_raise (parse_uuid aggregate_id) value_error
      content ← or_raise (content_of event_type) value_error
      send_order_notification order_id "email" content
      mark_processed event_id "ProcessOrderNotification")
