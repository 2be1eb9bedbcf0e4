-- ===== src/Messaging/Runs.antt =====
-- What the outbox worker sends and leaves when the publisher takes every event: `run_once` of
-- backend/app/shared/messaging/outbox_worker.py, once and repeated.
use eventcommerce.Base.{
  ℕ, zero, suc, ◌+◌, ◌*◌, ◌≤◌, ◌≡◌, refl, sym, ap, subst, ◌∙◌, Bool, true, List, [], ◌∷◌, ◌++◌, map,
  length, drop, drop-add, drop-all, sort_by, insert_by, ltb, ◌≢◌, ◌==◌, string_eq, eq_iff, arith,
  Bool-cases, inl, inr,
}
use eventcommerce.Result.{Uuid, Result, ok}
use eventcommerce.Session.{Db, ◌>>=◌, pure, >>=-eq}
use eventcommerce.Messaging.Events.{OutboxEvent}
use eventcommerce.Messaging.Worker.{
  Message, message_of, pending_events, limited, created, get_pending, mark_published, count_sent,
  mark_and_go_on, publish_all, run_once,
}
use eventcommerce.Messaging.Draining.{
  HasDistinctIds, without, without-Differs, pending-HasDistinctIds, pending-mark_rows,
  mark_rows-HasDistinctIds, without-sort_by, sort_by-HasDistinctIds,
}

-- The pending events in the order in which they are sent.
abbrev pub backlog : Db → List OutboxEvent
backlog db = sort_by created (pending_events db.outbox_events)

abbrev pub takes_all : OutboxEvent → Bool
takes_all e = true

abbrev marked : Uuid → Db → Db
marked id db = (mark_published id db).1

backlog-marked :
    (id : Uuid) (db : Db)
    → HasDistinctIds db.outbox_events
    → backlog (marked id db) ≡ without id (backlog db)
unfolding mark_published
backlog-marked id db h =
    rw (pending-mark_rows id (db.next_times 0) db.outbox_events h)
      (sym (without-sort_by id (pending_events db.outbox_events)))

marked-HasDistinctIds :
    (id : Uuid) (db : Db)
    → HasDistinctIds db.outbox_events
    → HasDistinctIds (marked id db).outbox_events
unfolding mark_published
marked-HasDistinctIds id db h = mark_rows-HasDistinctIds id (db.next_times 0) db.outbox_events h

-- What is sent of a batch, and what is left behind it.
record Sends (es rest : List OutboxEvent) (db : Db) : Type 0 where
  sent :
      publish_all takes_all es db
      ≡ (ok (length es, map message_of es), (publish_all takes_all es db).1)
  left : backlog (publish_all takes_all es db).1 ≡ rest
  distinct : HasDistinctIds (publish_all takes_all es db).1.outbox_events

without_first :
    (e : OutboxEvent) (es : List OutboxEvent) → HasDistinctIds (e ∷ es) → without e.id (e ∷ es) ≡ es
unfolding without
without_first e es h =
    let same : (e.id == e.id) ≡ true = (eq_iff e.id e.id).1 refl in
    rw same (without-Differs e.id es h.0)

publish_step :
    (e : OutboxEvent) (es : List OutboxEvent) (db : Db)
    → publish_all takes_all (e ∷ es) db
      ≡ (publish_all takes_all es >>= λ done. pure (count_sent e done)) (marked e.id db)
unfolding publish_all mark_and_go_on mark_published
publish_step e es db = refl

Sends-none :
    (rest : List OutboxEvent) (db : Db)
    → HasDistinctIds db.outbox_events
    → backlog db ≡ rest
    → Sends [] rest db
unfolding publish_all
Sends-none rest db h start = record { sent = refl; left = start; distinct = h }

publish_all-Sends :
    (es rest : List OutboxEvent) (db : Db)
    → HasDistinctIds db.outbox_events
    → HasDistinctIds (es ++ rest)
    → backlog db ≡ es ++ rest
    → Sends es rest db
publish_all-Sends [] rest db h hs start = Sends-none rest db h start
publish_all-Sends (e ∷ es) rest db h hs start =
    let db1 = marked e.id db in
    let next : backlog db1 ≡ es ++ rest =
      backlog-marked e.id db h ∙ ap (without e.id) start ∙ without_first e (es ++ rest) hs in
    let ih = publish_all-Sends es rest db1 (marked-HasDistinctIds e.id db h) hs.1 next in
    let whole =
      publish_step e es db
      ∙ >>=-eq (publish_all takes_all es) (λ done. pure (count_sent e done)) db1 ih.sent in
    let tables = ap (λ (r : Result (ℕ × List Message) × Db). r.1) whole in
    record {
      sent = whole ∙ λ i. (ok (length (e ∷ es), map message_of (e ∷ es)), sym tables i);
      left = rw tables ih.left;
      distinct = rw tables ih.distinct;
    }

limited-drop : (n : ℕ) (es : List OutboxEvent) → limited n es ++ drop n es ≡ es
unfolding limited drop
limited-drop zero es = refl
limited-drop (suc n) [] = refl
limited-drop (suc n) (e ∷ es) = ap (λ (r : List OutboxEvent). e ∷ r) (limited-drop n es)

run_once-Sends :
    (batch_size : ℕ) (db : Db)
    → HasDistinctIds db.outbox_events
    → Sends (limited batch_size (backlog db)) (drop batch_size (backlog db)) db
run_once-Sends batch_size db h =
    let whole = limited-drop batch_size (backlog db) in
    publish_all-Sends (limited batch_size (backlog db)) (drop batch_size (backlog db)) db h
      (subst HasDistinctIds (sym whole) (
        sort_by-HasDistinctIds (pending_events db.outbox_events)
          (pending-HasDistinctIds db.outbox_events h)))
      (sym whole)

-- A run of the worker whose publisher takes every event sends the oldest pending events, as many as
-- the batch holds, each once and in the order of their creation, and counts them. It leaves exactly
-- the others pending, in their order, and the ids of the rows distinct.
pub run_once-sends_oldest :
    (batch_size : ℕ) (db : Db)
    → HasDistinctIds db.outbox_events
    → ((run_once takes_all batch_size db).0
        ≡ ok (
          length (limited batch_size (backlog db)),
          map message_of (limited batch_size (backlog db)),
        ))
      × (backlog (run_once takes_all batch_size db).1 ≡ drop batch_size (backlog db))
      × HasDistinctIds (run_once takes_all batch_size db).1.outbox_events
unfolding run_once get_pending
run_once-sends_oldest batch_size db h =
    let sends = run_once-Sends batch_size db h in
    (ap (λ (r : Result (ℕ × List Message) × Db). r.0) sends.sent, sends.left, sends.distinct)

-- `n` runs after one another.
unfoldable pub runs : ℕ → ℕ → Db → Db
runs zero batch_size db = db
runs (suc n) batch_size db = runs n batch_size (run_once takes_all batch_size db).1

runs-backlog :
    (n batch_size : ℕ) (db : Db)
    → HasDistinctIds db.outbox_events
    → backlog (runs n batch_size db) ≡ drop (n * batch_size) (backlog db)
unfolding runs drop
runs-backlog zero batch_size db h =
    let none_left : 0 * batch_size ≡ 0 = omega arith in rw none_left refl
runs-backlog (suc n) batch_size db h =
    let after = run_once-sends_oldest batch_size db h in
    let whole : suc n * batch_size ≡ batch_size + n * batch_size = grind arith in
    runs-backlog n batch_size (run_once takes_all batch_size db).1 after.2
    ∙ rw (after.1, whole) (sym (drop-add batch_size (n * batch_size) (backlog db)))

insert_by_full : (e : OutboxEvent) (es : List OutboxEvent) → insert_by created e es ≢ []
unfolding insert_by
insert_by_full e [] = λ h. cc h
insert_by_full e (x ∷ es) = elim (Bool-cases (ltb (created x) (created e))) [
  | inl before ↦ rw before (λ h. cc h)
  | inr after ↦ rw after (λ h. cc h)
]

sort_by_empty : (es : List OutboxEvent) → sort_by created es ≡ [] → es ≡ []
unfolding sort_by
sort_by_empty [] h = refl
sort_by_empty (e ∷ es) h = elim (insert_by_full e (sort_by created es) h) [ ]

-- As soon as the batches of so many runs hold all pending events together, no event is pending any
-- longer.
pub runs-drain :
    (n batch_size : ℕ) (db : Db)
    → HasDistinctIds db.outbox_events
    → length (backlog db) ≤ n * batch_size
    → pending_events (runs n batch_size db).outbox_events ≡ []
runs-drain n batch_size db h enough =
    sort_by_empty (pending_events (runs n batch_size db).outbox_events)
      (runs-backlog n batch_size db h ∙ drop-all (n * batch_size) (backlog db) enough)
