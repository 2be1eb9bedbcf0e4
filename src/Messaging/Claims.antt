-- ===== src/Messaging/Claims.antt =====
-- The laws of `ProcessedEventStore` (backend/app/shared/messaging/idempotency.py): what a later
-- call sees of the rows that an earlier one has written.
use eventcommerce.Base.{
  ℕ, String, true, ◌≡◌, refl, Option, none, some, merged, find-upsert, ltb, pair_eq, if◌then◌else◌,
  ◌==◌, string_eq, Bool-cases, inl, inr, Option-cases, eq_iff, ap, sym, ◌∙◌, key-find, pair_beq_iff,
}
use eventcommerce.Result.{Result, ok}
use eventcommerce.Session.{Db}
use eventcommerce.Session.Keeps.{Keeps}
use eventcommerce.Messaging.Events.{ProcessedEvent, ResponseBody, completed}
use eventcommerce.Messaging.Idempotency.{
  replay_match, conflict, claim_key, claim_row, has_claim, is_processed, mark_processed, claim,
  claim_with, complete_with_response, put_row, fetch_cached, max_response_body_bytes, row_or_new,
  replace_row, new_row, cached,
}

pub claim_row-put_row :
    (event_id consumer_name : String) (row : ProcessedEvent) (db : Db)
    → claim_row event_id consumer_name (put_row row db).1 ≡ (
        if claim_key row == (event_id, consumer_name)
        then some (merged claim_key replace_row row (claim_row event_id consumer_name db))
        else claim_row event_id consumer_name db)
unfolding put_row
claim_row-put_row event_id consumer_name row db =
    find-upsert claim_key replace_row (λ _ _. refl) (event_id, consumer_name) row
      db.processed_events

module _ (key consumer_name : String) where
  put_row-has_claim_kept :
      (row : ProcessedEvent) (db : Db)
      → has_claim key consumer_name db ≡ true
      → has_claim key consumer_name (put_row row db).1 ≡ true
  put_row-has_claim_kept row db h =
      rw claim_row-put_row (elim (Bool-cases (claim_key row == (key, consumer_name))) [
        | inl e ↦ rw e
        | inr e ↦ rw e h
      ])

  put_row-has_claim :
      (db : Db) → has_claim key consumer_name (put_row (new_row key consumer_name) db).1 ≡ true
  put_row-has_claim db =
      rw claim_row-put_row
        (rw ((eq_iff key key).1 refl, (eq_iff consumer_name consumer_name).1 refl))

  -- A claim is there once it is written, and stays while others are written.
  pub mark_processed-has_claim :
      (db : Db) → has_claim key consumer_name (mark_processed key consumer_name db).1 ≡ true
  unfolding mark_processed is_processed
  mark_processed-has_claim db = elim (Bool-cases (has_claim key consumer_name db)) [
    | inl h ↦ rw h h
    | inr h ↦ rw h (put_row-has_claim db)
  ]

  pub mark_processed-has_claim_kept :
      (event_id other : String)
      → Keeps (λ db. has_claim key consumer_name db ≡ true) (mark_processed event_id other)
  unfolding mark_processed is_processed
  mark_processed-has_claim_kept event_id other = record {
    at = λ db h. elim (Bool-cases (has_claim event_id other db)) [
      | inl done ↦ rw done h
      | inr fresh ↦ rw fresh (put_row-has_claim_kept (new_row event_id other) db h)
    ];
  }

module _ (key consumer_name : String) (status : ℕ) (body : ResponseBody)
    (payload_hash : String) where
  -- The row that stores a response over the row that was found.
  abbrev pub stored_row : Option ProcessedEvent → ProcessedEvent
  stored_row found = record (row_or_new key consumer_name found) {
    state = completed;
    payload_hash = some payload_hash;
    response_status = some status;
    response_body = some body;
  }

  abbrev pub stored : Db → Db
  stored db = (put_row (stored_row (claim_row key consumer_name db)) db).1

  pub row_or_new-key :
      (db : Db)
      → (claim_key (row_or_new key consumer_name (claim_row key consumer_name db))
          == (key, consumer_name))
        ≡ true
  row_or_new-key db = elim (Option-cases (claim_row key consumer_name db)) [
    | inl missing ↦
        rw missing (rw ((eq_iff key key).1 refl, (eq_iff consumer_name consumer_name).1 refl))
    | inr (row, found) ↦ rw found (
        (pair_beq_iff (claim_key row) (key, consumer_name)).1
          (key-find claim_key (key, consumer_name) db.processed_events found))
  ]

  pub claim_row-stored :
      (db : Db)
      → claim_row key consumer_name (stored db)
        ≡ some (
            merged claim_key replace_row
              (stored_row (claim_row key consumer_name db))
              (claim_row key consumer_name db))
  claim_row-stored db = rw claim_row-put_row (rw (row_or_new-key db))

  merged-claim :
      (other_hash : String) (found : Option ProcessedEvent) (db : Db)
      → claim_with key consumer_name other_hash
          (some (merged claim_key replace_row (stored_row found) found))
          db
        ≡ (ok (if payload_hash == other_hash then replay_match else conflict), db)
  unfolding claim_with
  merged-claim other_hash none db = refl
  merged-claim other_hash (some row) db = refl

  merged-cached :
      (found : Option ProcessedEvent)
      → cached (some (merged claim_key replace_row (stored_row found) found))
        ≡ some (record { status = status; body = body })
  merged-cached none = refl
  merged-cached (some row) = refl

  stored-claim :
      (other_hash : String) (db later : Db)
      → claim_row key consumer_name later ≡ claim_row key consumer_name (stored db)
      → (claim key consumer_name other_hash later
          ≡ (ok (if payload_hash == other_hash then replay_match else conflict), later))
        × (fetch_cached key consumer_name later
            ≡ (ok (some (record { status = status; body = body })), later))
  unfolding claim fetch_cached
  stored-claim other_hash db later kept =
      let here = kept ∙ claim_row-stored db in
      (
        rw here (merged-claim other_hash (claim_row key consumer_name db) later),
        rw (here, merged-cached (claim_row key consumer_name db)),
      )

  pub complete-stored :
      (response_bytes : ResponseBody → ℕ) (db db' : Db)
      → complete_with_response response_bytes key consumer_name status body payload_hash db
        ≡ (ok tt, db')
      → stored db ≡ db'
  unfolding complete_with_response
  complete-stored response_bytes db db' done =
      elim (Bool-cases (ltb max_response_body_bytes (response_bytes body))) [
        | inl large ↦ cc (rw large at done)
        | inr fits ↦ ap (λ (r : Result Unit × Db). r.1) (rw fits at done)
      ]

-- After a response within the cap is stored, whatever is written afterwards, as long as the row of
-- the key and the consumer stays: a claim with the same payload hash replays the response and one
-- with another hash conflicts, neither writes anything, and the cached response is the one that was
-- stored.
pub complete_with_response-claim :
    (response_bytes : ResponseBody → ℕ) (key consumer_name : String) (status : ℕ)
    (body : ResponseBody) (payload_hash other_hash : String) (db db' later : Db)
    → complete_with_response response_bytes key consumer_name status body payload_hash db
      ≡ (ok tt, db')
    → claim_row key consumer_name later ≡ claim_row key consumer_name db'
    → (claim key consumer_name other_hash later
        ≡ (ok (if payload_hash == other_hash then replay_match else conflict), later))
      × (fetch_cached key consumer_name later
          ≡ (ok (some (record { status = status; body = body })), later))
complete_with_response-claim response_bytes key consumer_name status body payload_hash other_hash db
      db' later done kept =
    stored-claim key consumer_name status body payload_hash other_hash db later (
      kept
      ∙ ap (claim_row key consumer_name) (
          sym (
            complete-stored key consumer_name status body payload_hash response_bytes db db' done)))
