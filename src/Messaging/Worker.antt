-- ===== src/Messaging/Worker.antt =====
-- The outbox worker: `get_pending` and `mark_published` of
-- backend/app/shared/messaging/outbox_repository.py, `publish` of rabbitmq_publisher.py and
-- `run_once` of outbox_worker.py. Rows that another worker has locked are skipped; here one worker
-- runs at a time, so none are.
use eventcommerce.Base.{
  ℕ, zero, suc, String, Bool, Option, some, List, [], ◌∷◌, ◌==◌, string_eq, sort_by, if◌then◌else◌,
}
use eventcommerce.Result.{Uuid, Time}
use eventcommerce.Session.{Action, pure, gets, modify, utc_now, ◌>>=◌, ◌>>◌}
use eventcommerce.Messaging.Events.{Payload, OutboxEvent, OutboxStatus, is_pending, event_name}

-- What a publisher sends, and a consumer receives: the message id, the headers and the decoded body.
-- A missing header or id is `none`, and so is a body that is missing or no JSON.
pub record Message : Type 0 where
  pub message_id : Option String
  pub event_type : Option String
  pub aggregate_id : Option String
  pub payload : Option Payload

-- The message that `RabbitMQPublisher.publish` sends for an event.
abbrev pub message_of : OutboxEvent → Message
message_of event = record {
  message_id = some event.id;
  event_type = some (event_name event.event_type);
  aggregate_id = some event.aggregate_id;
  payload = some event.payload;
}

-- `WHERE status = 'pending'`
unfoldable pub pending_events : List OutboxEvent → List OutboxEvent
pending_events [] = []
pending_events (e ∷ es) =
    let rest = pending_events es in if is_pending e.status then e ∷ rest else rest

-- `LIMIT`
unfoldable pub limited : ℕ → List OutboxEvent → List OutboxEvent
limited zero es = []
limited (suc n) [] = []
limited (suc n) (e ∷ es) = e ∷ limited n es

abbrev pub created : OutboxEvent → Time
created e = e.created_at

unfoldable pub get_pending : ℕ → Action (List OutboxEvent)
unfolding limited sort_by pending_events
get_pending limit = gets (λ db. limited limit (sort_by created (pending_events db.outbox_events)))

abbrev pub publish_row : Time → OutboxEvent → OutboxEvent
publish_row now e = record e { status = OutboxStatus.published; published_at = some now }

-- The row with the id is written; where there is none, nothing is.
unfoldable pub mark_rows : Uuid → Time → List OutboxEvent → List OutboxEvent
mark_rows id now [] = []
mark_rows id now (e ∷ es) = if e.id == id then publish_row now e ∷ es else e ∷ mark_rows id now es

unfoldable pub mark_published : Uuid → Action Unit
unfolding mark_rows
mark_published id = do
  now ← utc_now
  modify (λ db. record db { outbox_events = mark_rows id now db.outbox_events })

abbrev pub count_sent : OutboxEvent → ℕ × List Message → ℕ × List Message
count_sent e (count, sent) = (suc count, message_of e ∷ sent)

-- An event that the publisher has taken is marked, and counted with the rest.
unfoldable pub mark_and_go_on : OutboxEvent → Action (ℕ × List Message) → Action (ℕ × List Message)
mark_and_go_on e rest = do mark_published e.id; done ← rest; pure (count_sent e done)

-- The loop of `run_once`: `publish` says which events the publisher takes without an exception.
-- The result is the count of the code, and what has been sent, in that order.
unfoldable pub publish_all : (OutboxEvent → Bool) → List OutboxEvent → Action (ℕ × List Message)
publish_all publish [] = pure (0, [])
publish_all publish (e ∷ es) =
    let rest = publish_all publish es in if publish e then mark_and_go_on e rest else rest

unfoldable pub run_once : (OutboxEvent → Bool) → ℕ → Action (ℕ × List Message)
unfolding get_pending
run_once publish batch_size = do events ← get_pending batch_size; publish_all publish events
