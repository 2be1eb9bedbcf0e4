-- ===== src/Messaging/Idempotency.antt =====
-- `ProcessedEventStore` of backend/app/shared/messaging/idempotency.py. The advisory lock of a
-- claim serialises the claimers of one key; here one transaction runs at a time.
use eventcommerce.Base.{
  Bool-cases, inl, inr, ℕ, ◌*◌, String, Bool, true, false, ◌≡◌, Option, none, some, List, [], ◌∷◌,
  find, upsert, ltb, if◌then◌else◌, ◌==◌, string_eq, pair_eq,
}
use eventcommerce.Result.{ok, response_too_large}
use eventcommerce.Session.{Db, Action, gets, pure, modify, raise_if, ◌>>=◌, ◌>>◌}
use eventcommerce.Messaging.Events.{
  ProcessedEvent, ResponseBody, ClaimState, in_progress, completed, processed,
}

pub data ClaimResult : Type 0 where
  new replay_match conflict : ClaimResult

pub record CachedResponse : Type 0 where
  pub status : ℕ
  pub body : ResponseBody

-- 16 KiB
abbrev pub max_response_body_bytes : ℕ
max_response_body_bytes = 16 * 1024

abbrev pub claim_key : ProcessedEvent → String × String
claim_key row = (row.event_id, row.consumer_name)

-- `_get_row`, as a read of the tables
abbrev pub claim_row : String → String → Db → Option ProcessedEvent
claim_row event_id consumer_name db = find claim_key (event_id, consumer_name) db.processed_events

abbrev pub is_some : Option ProcessedEvent → Bool
is_some none = false
is_some (some _) = true

abbrev pub has_claim : String → String → Db → Bool
has_claim event_id consumer_name db = is_some (claim_row event_id consumer_name db)

unfoldable pub is_processed : String → String → Action Bool
is_processed event_id consumer_name = gets (has_claim event_id consumer_name)

-- The row that an insert writes, with the defaults of the columns.
abbrev pub new_row : String → String → ProcessedEvent
new_row event_id consumer_name = record {
  event_id = event_id;
  consumer_name = consumer_name;
  payload_hash = none;
  response_status = none;
  response_body = none;
  state = processed;
}

abbrev pub replace_row : ProcessedEvent → ProcessedEvent → ProcessedEvent
replace_row existing row = record existing {
  payload_hash = row.payload_hash;
  response_status = row.response_status;
  response_body = row.response_body;
  state = row.state;
}

-- The row is written in place, or inserted where there is none.
unfoldable pub put_row : ProcessedEvent → Action Unit
put_row row =
    modify
      (λ db. record db { processed_events = upsert claim_key replace_row row db.processed_events })

unfoldable pub mark_processed : String → String → Action Unit
unfolding is_processed put_row
mark_processed event_id consumer_name = do
  done ← is_processed event_id consumer_name
  if done then pure tt else put_row (new_row event_id consumer_name)

abbrev pub is_completed : ClaimState → Bool
is_completed completed = true
is_completed _ = false

abbrev is_in_progress : ClaimState → Bool
is_in_progress in_progress = true
is_in_progress _ = false

-- `row.payload_hash == payload_hash`
abbrev pub same_hash : Option String → String → Bool
same_hash none h = false
same_hash (some stored) h = stored == h

delete_row : String → String → List ProcessedEvent → List ProcessedEvent
delete_row key consumer_name [] = []
delete_row key consumer_name (row ∷ rows) =
    let rest = delete_row key consumer_name rows in
    if claim_key row == (key, consumer_name) then rest else row ∷ rest

-- What a claim does with the row that it finds under the lock.
unfoldable pub claim_with : String → String → String → Option ProcessedEvent → Action ClaimResult
unfolding put_row
claim_with key consumer_name payload_hash none = do
  put_row
      (record (new_row key consumer_name) { payload_hash = some payload_hash; state = in_progress })
  pure new
claim_with key consumer_name payload_hash (some row) =
    if is_completed row.state
    then pure (if same_hash row.payload_hash payload_hash then replay_match else conflict)
    else do put_row (record row { state = in_progress; payload_hash = some payload_hash }); pure new

unfoldable pub claim : String → String → String → Action ClaimResult
unfolding claim_with
claim key consumer_name payload_hash = do
  row ← gets (claim_row key consumer_name)
  claim_with key consumer_name payload_hash row

abbrev pub row_or_new : String → String → Option ProcessedEvent → ProcessedEvent
row_or_new key consumer_name none = new_row key consumer_name
row_or_new key consumer_name (some row) = row

-- `response_bytes` is the length of the JSON text of a body.
unfoldable pub complete_with_response :
    (ResponseBody → ℕ) → String → String → ℕ → ResponseBody → String → Action Unit
unfolding put_row
complete_with_response response_bytes key consumer_name status body payload_hash = do
  raise_if (ltb max_response_body_bytes (response_bytes body)) response_too_large
  row ← gets (claim_row key consumer_name)
  put_row (record (row_or_new key consumer_name row) {
    state = completed;
    payload_hash = some payload_hash;
    response_status = some status;
    response_body = some body;
  })

release_row : String → String → Option ProcessedEvent → Action Unit
unfolding delete_row
release_row key consumer_name none = pure tt
release_row key consumer_name (some row) =
    if is_in_progress row.state
    then modify
        (λ db. record db { processed_events = delete_row key consumer_name db.processed_events })
    else pure tt

unfoldable pub release_claim : String → String → Action Unit
unfolding release_row
release_claim key consumer_name = do
  row ← gets (claim_row key consumer_name)
  release_row key consumer_name row

abbrev cached_body : Option ℕ → Option ResponseBody → Option CachedResponse
cached_body (some status) (some body) = some (record { status = status; body = body })
cached_body _ _ = none

abbrev pub cached : Option ProcessedEvent → Option CachedResponse
cached none = none
cached (some row) =
    if is_completed row.state then cached_body row.response_status row.response_body else none

unfoldable pub fetch_cached : String → String → Action (Option CachedResponse)
fetch_cached key consumer_name = gets (λ db. cached (claim_row key consumer_name db))

-- The rows after `mark_processed`.
abbrev pub marked : String → String → List ProcessedEvent → List ProcessedEvent
marked event_id consumer_name rows =
    if is_some (find claim_key (event_id, consumer_name) rows)
    then rows
    else upsert claim_key replace_row (new_row event_id consumer_name) rows

pub mark_processed_lem :
    (event_id consumer_name : String) (db : Db)
    → mark_processed event_id consumer_name db
      ≡ (ok tt, record db { processed_events = marked event_id consumer_name db.processed_events })
unfolding mark_processed
mark_processed_lem event_id consumer_name db =
    elim (Bool-cases (has_claim event_id consumer_name db)) [ inl h ↦ rw h | inr h ↦ rw h ]
