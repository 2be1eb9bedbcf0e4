-- ===== src/Messaging/Draining.antt =====
-- Runs of the outbox worker whose publisher takes every event: `run_once` of
-- backend/app/shared/messaging/outbox_worker.py.
use eventcommerce.Base.{
  ◌≤◌, ◌≡◌, ◌≢◌, refl, sym, ap, subst, ◌∙◌, false, List, [], ◌∷◌, All, sort_by, insert_by,
  IsOrdered, sort_by-IsOrdered, ltb, ◌==◌, string_eq, eq_iff, if◌then◌else◌, arith, Bool-cases, inl,
  inr,
}
use eventcommerce.Result.{Uuid, Time}
use eventcommerce.Messaging.Events.{OutboxEvent, is_pending}
use eventcommerce.Messaging.Worker.{pending_events, created, mark_rows}

-- The ids of the rows are the primary key of the outbox.
abbrev pub Differs : Uuid → OutboxEvent → Type 0
Differs id e = e.id ≢ id

abbrev pub HasDistinctIds : List OutboxEvent → Type 0
HasDistinctIds [] = Unit
HasDistinctIds (e ∷ es) = All (Differs e.id) es × HasDistinctIds es

-- The events that are left when those with an id are taken out.
unfoldable pub without : Uuid → List OutboxEvent → List OutboxEvent
without id [] = []
without id (e ∷ es) = let rest = without id es in if e.id == id then rest else e ∷ rest

pub without-Differs : (id : Uuid) (es : List OutboxEvent) → All (Differs id) es → without id es ≡ es
unfolding without
without-Differs id [] h = refl
without-Differs id (e ∷ es) h = elim (Bool-cases (e.id == id)) [
  | inl same ↦ elim (h.0 (ground (arith, eq_iff e.id id))) [ ]
  | inr other ↦ rw other (ap (λ (r : List OutboxEvent). e ∷ r) (without-Differs id es h.1))
]

pending-Differs :
    (id : Uuid) (es : List OutboxEvent) → All (Differs id) es → All (Differs id) (pending_events es)
unfolding pending_events
pending-Differs id [] h = tt
pending-Differs id (e ∷ es) h = elim (Bool-cases (is_pending e.status)) [
  | inl p ↦ rw p (h.0, pending-Differs id es h.1)
  | inr p ↦ rw p (pending-Differs id es h.1)
]

pub pending-HasDistinctIds :
    (es : List OutboxEvent) → HasDistinctIds es → HasDistinctIds (pending_events es)
unfolding pending_events
pending-HasDistinctIds [] h = tt
pending-HasDistinctIds (e ∷ es) h = elim (Bool-cases (is_pending e.status)) [
  | inl p ↦ rw p (pending-Differs e.id es h.0, pending-HasDistinctIds es h.1)
  | inr p ↦ rw p (pending-HasDistinctIds es h.1)
]

-- Marking takes the event with the id out of the pending ones.
pub pending-mark_rows :
    (id : Uuid) (now : Time) (es : List OutboxEvent)
    → HasDistinctIds es
    → pending_events (mark_rows id now es) ≡ without id (pending_events es)
unfolding pending_events mark_rows without
pending-mark_rows id now [] h = refl
pending-mark_rows id now (e ∷ es) h = elim (Bool-cases (e.id == id)) [
  | inl same ↦
      let named : e.id ≡ id = ground (arith, eq_iff e.id id) in
      let differ = subst (λ (k : Uuid). All (Differs k) es) named h.0 in
      let kept = without-Differs id (pending_events es) (pending-Differs id es differ) in
      elim (Bool-cases (is_pending e.status)) [
        | inl p ↦ rw same (rw p (rw same (sym kept)))
        | inr p ↦ rw same (rw p (sym kept))
      ]
  | inr other ↦
      let rest = pending-mark_rows id now es h.1 in
      elim (Bool-cases (is_pending e.status)) [
        | inl p ↦ rw other (rw p (rw other (ap (λ (r : List OutboxEvent). e ∷ r) rest)))
        | inr p ↦ rw other (rw p rest)
      ]
]

mark_rows-Differs :
    (k id : Uuid) (now : Time) (es : List OutboxEvent)
    → All (Differs k) es
    → All (Differs k) (mark_rows id now es)
unfolding mark_rows
mark_rows-Differs k id now [] h = tt
mark_rows-Differs k id now (e ∷ es) h = elim (Bool-cases (e.id == id)) [
  | inl same ↦ rw same h
  | inr other ↦ rw other (h.0, mark_rows-Differs k id now es h.1)
]

pub mark_rows-HasDistinctIds :
    (id : Uuid) (now : Time) (es : List OutboxEvent)
    → HasDistinctIds es
    → HasDistinctIds (mark_rows id now es)
unfolding mark_rows
mark_rows-HasDistinctIds id now [] h = tt
mark_rows-HasDistinctIds id now (e ∷ es) h = elim (Bool-cases (e.id == id)) [
  | inl same ↦ rw same h
  | inr other ↦
      rw other (mark_rows-Differs e.id id now es h.0, mark_rows-HasDistinctIds id now es h.1)
]

without-All :
    (P : OutboxEvent → Type 0) (id : Uuid) (es : List OutboxEvent)
    → All P es
    → All P (without id es)
unfolding without
without-All P id [] h = tt
without-All P id (e ∷ es) h = elim (Bool-cases (e.id == id)) [
  | inl same ↦ rw same (without-All P id es h.1)
  | inr other ↦ rw other (h.0, without-All P id es h.1)
]

insert_by-first :
    (a : OutboxEvent) (es : List OutboxEvent)
    → All (λ e. created a ≤ created e) es
    → insert_by created a es ≡ a ∷ es
unfolding insert_by
insert_by-first a [] h = refl
insert_by-first a (e ∷ es) h =
    let behind : ltb (created e) (created a) ≡ false = ground (arith, h.0) in rw behind refl

All-later :
    (a x : OutboxEvent) (es : List OutboxEvent)
    → created a ≤ created x
    → All (λ e. created x ≤ created e) es
    → All (λ e. created a ≤ created e) es
All-later a x [] h hs = tt
All-later a x (e ∷ es) h hs = (omega (arith, hs.0), All-later a x es h hs.1)

without-insert_by :
    (id : Uuid) (a : OutboxEvent) (es : List OutboxEvent)
    → IsOrdered created es
    → without id (insert_by created a es)
      ≡ (if a.id == id then without id es else insert_by created a (without id es))
unfolding without insert_by
without-insert_by id a [] h = refl
without-insert_by id a (x ∷ es) h = elim (Bool-cases (ltb (created x) (created a))) [
  | inl before ↦ rw before (
      let rest = without-insert_by id a es h.1 in
      elim (Bool-cases (x.id == id)) [
        | inl x_out ↦ rw x_out rest
        | inr x_in ↦ rw x_in (elim (Bool-cases (a.id == id)) [
          | inl a_out ↦ rw a_out (ap (λ (r : List OutboxEvent). x ∷ r) (rw a_out at rest))
          | inr a_in ↦ rw a_in (rw before (ap (λ (r : List OutboxEvent). x ∷ r) (rw a_in at rest)))
        ])
      ])
  | inr after ↦ rw after (
      let low : created a ≤ created x = ground arith in
      let later =
        without-All (λ e. created a ≤ created e) id (x ∷ es) (low, All-later a x es low h.0) in
      let first = insert_by-first a (without id (x ∷ es)) later in
      elim (Bool-cases (a.id == id)) [ inl a_out ↦ rw a_out refl | inr a_in ↦ rw a_in (sym first) ])
]

pub without-sort_by :
    (id : Uuid) (es : List OutboxEvent)
    → without id (sort_by created es) ≡ sort_by created (without id es)
unfolding without sort_by
without-sort_by id [] = refl
without-sort_by id (a ∷ es) =
    without-insert_by id a (sort_by created es) (sort_by-IsOrdered created es)
    ∙ elim (Bool-cases (a.id == id)) [
      | inl out ↦ rw out (without-sort_by id es)
      | inr kept ↦ rw kept (ap (insert_by created a) (without-sort_by id es))
    ]

insert_by-Differs :
    (k : Uuid) (a : OutboxEvent) (es : List OutboxEvent)
    → Differs k a
    → All (Differs k) es
    → All (Differs k) (insert_by created a es)
unfolding insert_by
insert_by-Differs k a [] h hs = (h, tt)
insert_by-Differs k a (x ∷ es) h hs = elim (Bool-cases (ltb (created x) (created a))) [
  | inl before ↦ rw before (hs.0, insert_by-Differs k a es h hs.1)
  | inr after ↦ rw after (h, hs)
]

sort_by-Differs :
    (k : Uuid) (es : List OutboxEvent) → All (Differs k) es → All (Differs k) (sort_by created es)
unfolding sort_by
sort_by-Differs k [] h = tt
sort_by-Differs k (e ∷ es) h =
    insert_by-Differs k e (sort_by created es) h.0 (sort_by-Differs k es h.1)

insert_by-HasDistinctIds :
    (a : OutboxEvent) (es : List OutboxEvent)
    → All (Differs a.id) es
    → HasDistinctIds es
    → HasDistinctIds (insert_by created a es)
unfolding insert_by
insert_by-HasDistinctIds a [] h hs = (tt, tt)
insert_by-HasDistinctIds a (x ∷ es) h hs = elim (Bool-cases (ltb (created x) (created a))) [
  | inl before ↦
      rw before (
        insert_by-Differs x.id a es (λ e. h.0 (sym e)) hs.0,
        insert_by-HasDistinctIds a es h.1 hs.1,
      )
  | inr after ↦ rw after (h, hs)
]

pub sort_by-HasDistinctIds :
    (es : List OutboxEvent) → HasDistinctIds es → HasDistinctIds (sort_by created es)
unfolding sort_by
sort_by-HasDistinctIds [] h = tt
sort_by-HasDistinctIds (e ∷ es) h =
    insert_by-HasDistinctIds e (sort_by created es) (sort_by-Differs e.id es h.0)
      (sort_by-HasDistinctIds es h.1)
