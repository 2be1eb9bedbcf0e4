-- ===== src/Messaging/Outbox.antt =====
-- The transactional outbox and the event store: `save` of
-- backend/app/shared/messaging/outbox_repository.py and `add` of
-- backend/app/shared/events/event_repository.py. The columns `id` and `created_at` of an outbox row
-- are filled by their defaults, `uuid4` and the present time.
use eventcommerce.Base.{String, none, [], ◌∷◌, ◌++◌}
use eventcommerce.Result.{Uuid, Time}
use eventcommerce.Session.{Action, modify, uuid4, utc_now, ◌>>=◌}
use eventcommerce.Messaging.Events.{EventType, Payload, OutboxStatus}

unfoldable pub save_outbox : EventType → String → Payload → Action Unit
save_outbox event_type aggregate_id payload = do
  id ← uuid4
  created_at ← utc_now
  modify (λ db. record db {
    outbox_events =
        db.outbox_events
        ++ record {
          id = id;
          event_type = event_type;
          aggregate_id = aggregate_id;
          payload = payload;
          status = OutboxStatus.pending;
          created_at = created_at;
          published_at = none;
        }
          ∷ [];
  })

unfoldable pub add_event : Uuid → String → EventType → Time → Payload → Action Unit
add_event event_id aggregate_id event_type occurred_at payload = modify (λ db. record db {
  domain_events =
      db.domain_events
      ++ record {
        event_id = event_id;
        aggregate_id = aggregate_id;
        event_type = event_type;
        occurred_at = occurred_at;
        payload = payload;
      }
        ∷ [];
})
