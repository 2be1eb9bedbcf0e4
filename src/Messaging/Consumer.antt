-- ===== src/Messaging/Consumer.antt =====
-- The message consumer: backend/app/shared/messaging/consumer.py. The broker and the decoding of a
-- body are outside; a message arrives decoded.
use eventcommerce.Base.{
  String, Bool, true, false, not, ◌&&◌, ◌||◌, Option, none, some, List, [], ◌∷◌, ◌++◌, ◌==◌,
  string_eq, contains, if◌then◌else◌,
}
use eventcommerce.Result.{Result, ok, err}
use eventcommerce.Session.{Db, Action, in_transaction}
use eventcommerce.Messaging.Events.{Payload, is_object}
use eventcommerce.Messaging.Worker.{Message}

-- payload, event_id, event_type, aggregate_id
abbrev pub Handler : Type 0
Handler = Payload → String → String → String → Action Unit

pub record ConsumerBinding : Type 0 where
  pub queue : String
  pub event_types : List String
  pub consumer_name : String
  pub handler : Handler

abbrev is_empty : List String → Bool
is_empty [] = true
is_empty (_ ∷ _) = false

-- `ConsumerBinding.__post_init__`
unfoldable pub is_valid_binding : ConsumerBinding → Bool
is_valid_binding b =
    not (b.queue == "") && (not (is_empty b.event_types) && not (b.consumer_name == ""))

abbrev has_duplicate : List String → List String → Bool
has_duplicate seen [] = false
has_duplicate seen (x ∷ xs) = contains x seen || has_duplicate (x ∷ seen) xs

abbrev all_queues : List ConsumerBinding → List String
all_queues [] = []
all_queues (b ∷ bs) = b.queue ∷ all_queues bs

abbrev pub all_event_types : List ConsumerBinding → List String
all_event_types [] = []
all_event_types (b ∷ bs) = b.event_types ++ all_event_types bs

abbrev no_bindings : List ConsumerBinding → Bool
no_bindings [] = true
no_bindings (_ ∷ _) = false

-- The tests of `MessageConsumer.__init__`: the constructor raises where this is false.
unfoldable pub accepts_bindings : List ConsumerBinding → Bool
accepts_bindings bs =
    not (no_bindings bs)
    && (not (has_duplicate [] (all_queues bs)) && not (has_duplicate [] (all_event_types bs)))

abbrev pub keep_later : ConsumerBinding → Option ConsumerBinding → Option ConsumerBinding
keep_later b none = some b
keep_later b (some later) = some later

-- `_event_map.get(event_type)`: a later binding replaces an earlier one.
unfoldable pub binding_for : String → List ConsumerBinding → Option ConsumerBinding
binding_for event_type [] = none
binding_for event_type (b ∷ bs) =
    let rest = binding_for event_type bs in
    if contains event_type b.event_types then keep_later b rest else rest

-- What the broker is told about a message.
pub data Delivery : Type 0 where
  ack nack_requeue : Delivery

-- A header that is missing or empty is malformed.
abbrev pub present : Option String → Option String
present none = none
present (some s) = if s == "" then none else some s

-- The handler's transaction: the message is acknowledged only after it has committed.
abbrev pub settle : Result Unit × Db → Delivery × Db
settle (ok _, db) = (ack, db)
settle (err _, db) = (nack_requeue, db)

abbrev pub dispatch : ConsumerBinding → Payload → String → String → String → Db → Delivery × Db
dispatch b payload event_id event_type aggregate_id db =
    if not (is_object payload)
    then (ack, db)
    else settle (in_transaction (b.handler payload event_id event_type aggregate_id) db)

abbrev pub decoded : Option Payload → (Payload → Db → Delivery × Db) → Db → Delivery × Db
decoded none k db = (ack, db)
decoded (some payload) k db = k payload db

abbrev pub bound :
    Option ConsumerBinding → Option Payload → String → String → String → Db → Delivery × Db
bound none body event_id event_type aggregate_id db = (ack, db)
bound (some b) body event_id event_type aggregate_id db =
    decoded body (λ payload. dispatch b payload event_id event_type aggregate_id) db

abbrev pub routed :
    List ConsumerBinding
    → Option Payload
    → Option String
    → Option String
    → Option String
    → Db
    → Delivery × Db
routed bs body (some event_id) (some event_type) (some aggregate_id) db =
    bound (binding_for event_type bs) body event_id event_type aggregate_id db
routed bs body _ _ _ db = (ack, db)

-- `MessageConsumer._handle_message`
unfoldable pub handle_message : List ConsumerBinding → Message → Db → Delivery × Db
handle_message bs m db =
    routed bs m.payload (present m.message_id) (present m.event_type) (present m.aggregate_id) db
