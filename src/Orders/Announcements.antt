-- ===== src/Orders/Announcements.antt =====
-- The outbox as a record of the lifecycle: replaying the announcements of one order, in the order
-- in which they were written.
use mathlib.Core.Option.{some-injective, none-ne-some}
use mathlib.Core.List.{foldl, foldl-append}
use eventcommerce.Base.{
  String, Bool, true, false, not, ◌&&◌, ◌≡◌, refl, Option, none, some, List, [], ◌∷◌, ◌++◌, arith,
  ◌==◌, string_eq, if◌then◌else◌, eq_iff, find-upsert, Option-cases, inl, inr, Bool-cases, find,
  upsert, subst, ◌≢◌, ◌∙◌, ℕ, ◌+◌, ap, sym,
}
use eventcommerce.Result.{Uuid}
use eventcommerce.Session.{Db}
use eventcommerce.Messaging.Events.{EventType, OutboxEvent}
use eventcommerce.Orders.Domain.{
  Status, Order, status_eq, can_transition, pending, inventory_reserved, payment_authorized,
  confirmed, cancelled, status_beq_iff, OrderItem,
}
use eventcommerce.Orders.Repository.{order_row, order_key, update_order}
use eventcommerce.Orders.UseCases.{status_of, create_order}
use eventcommerce.Orders.Changes.{OrderChange, idle, moved, announcement}
use eventcommerce.Orders.Consumers.{is_terminal}

-- The status that an event type announces, if it announces one.
abbrev pub announced : EventType → Option Status
announced EventType.order_created = some pending
announced EventType.order_inventory_reserved = some inventory_reserved
announced EventType.order_payment_authorized = some payment_authorized
announced EventType.order_confirmed = some confirmed
announced EventType.order_cancelled = some cancelled
announced _ = none

announced-announcement : (s : Status) → announced (announcement s) ≡ some s
announced-announcement pending = refl
announced-announcement inventory_reserved = refl
announced-announcement payment_authorized = refl
announced-announcement confirmed = refl
announced-announcement cancelled = refl

-- An order begins as pending, and goes on along an edge of the lifecycle to another status.
abbrev pub may_follow : Option Status → Status → Bool
may_follow none t = t == pending
may_follow (some s) t = can_transition s t && not (s == t)

abbrev pub follow : Option Status → Option Status → Option (Option Status)
follow s none = some s
follow s (some t) = if may_follow s t then some (some t) else none

-- One event, for the order `order_id`: `none` outside if an announcement is out of order.
abbrev pub observe : Uuid → Option (Option Status) → OutboxEvent → Option (Option Status)
observe order_id none e = none
observe order_id (some s) e =
    if e.aggregate_id == order_id then follow s (announced e.event_type) else some s

unfoldable pub replay : Uuid → List OutboxEvent → Option (Option Status)
replay order_id events = foldl (observe order_id) (some none) events

-- The announcements of every order are a path of the lifecycle that ends at its stored status.
pub record IsAnnounced (db : Db) : Type 0 where
  pub at :
      (order_id : Uuid)
      → replay order_id db.outbox_events ≡ some (status_of (order_row order_id db))

pub replay-append :
    (order_id : Uuid) (events : List OutboxEvent) (e : OutboxEvent)
    → replay order_id (events ++ e ∷ []) ≡ observe order_id (replay order_id events) e
unfolding replay
replay-append order_id events e = rw foldl-append

observe-elsewhere :
    (k : Uuid) (s : Option Status) (e : OutboxEvent)
    → (e.aggregate_id == k) ≡ false
    → observe k (some s) e ≡ some s
observe-elsewhere k s e h = rw h

observe-here :
    (k : Uuid) (s t : Status) (e : OutboxEvent)
    → (e.aggregate_id == k) ≡ true
    → e.event_type ≡ announcement t
    → can_transition s t ≡ true
    → s ≢ t
    → observe k (some (some s)) e ≡ some (some t)
observe-here k s t e here announces allowed differs =
    rw (here, announces, announced-announcement t, allowed) (ground (arith, status_beq_iff s t))

-- What the replay sees of a transition, whichever order it follows.
pub observe-moved :
    (k : Uuid) (order order' : Order) (event : OutboxEvent) (orders : List Order)
    → find order_key order.id orders ≡ some order
    → order'.id ≡ order.id
    → can_transition order.status order'.status ≡ true
    → order.status ≢ order'.status
    → event.event_type ≡ announcement order'.status
    → event.aggregate_id ≡ order.id
    → observe k (some (status_of (find order_key k orders))) event
      ≡ some (status_of (find order_key k (upsert order_key update_order order' orders)))
observe-moved k order order' event orders found i allowed differs x y =
    rw (find-upsert order_key update_order (λ _ _. refl) k order' orders)
      (elim (Bool-cases (order.id == k)) [
        | inl here ↦
            let found_here : find order_key k orders ≡ some order =
              subst (λ j. find order_key j orders ≡ some order) ((eq_iff order.id k).0 here)
                found in
            rw (i, here, found_here)
              (observe-here k order.status order'.status event (rw y here) x allowed differs)
        | inr elsewhere ↦
            rw (i, elsewhere)
              (observe-elsewhere k (status_of (find order_key k orders)) event (rw y elsewhere))
      ])

pub OrderChange-IsAnnounced :
    {before after : Db} → OrderChange before after → IsAnnounced before → IsAnnounced after
OrderChange-IsAnnounced (idle p q t) h = record { at = λ k. rw (p, q) (h.at k) }
OrderChange-IsAnnounced {before}
      (moved order order' event entry found i allowed differs o b x y d z) h =
    record {
      at = λ k.
          rw (o, b)
            (rw replay-append (
              rw (h.at k)
                (observe-moved k order order' event before.orders found i allowed differs x y)));
    }

-- A new order, under an id that no order has, is announced as pending.
pub create_order-IsAnnounced :
    (customer_id : String) (items : List OrderItem) (db : Db)
    → order_row (db.next_uuids 0) db ≡ none
    → IsAnnounced db
    → IsAnnounced (create_order customer_id items db).1
unfolding create_order
create_order-IsAnnounced customer_id [] db fresh h = h
create_order-IsAnnounced customer_id (item ∷ items) db fresh h = record {
  at = λ k. rw replay-append (
      rw (h.at k) (
        rw (find-upsert order_key update_order (λ _ _. refl) k _ db.orders)
          (ground (arith, eq_iff (db.next_uuids 0) k))));
}

-- 1 for a terminal status, 0 for any other or for none
abbrev pub ended : Option Status → ℕ
ended none = 0
ended (some status) = if is_terminal status then 1 else 0

-- How many events of a list announce that an order is confirmed or cancelled.
unfoldable pub terminal_count : Uuid → List OutboxEvent → ℕ
terminal_count order_id [] = 0
terminal_count order_id (e ∷ es) =
    (if e.aggregate_id == order_id then ended (announced e.event_type) else 0)
    + terminal_count order_id es

-- One more announcement, in the lifecycle's order, ends an order that had not ended.
follow-ended :
    (s t : Option Status) (u : Option Status) → follow s t ≡ some u → ended t + ended s ≡ ended u
unfolding can_transition
follow-ended s none u h = ground arith
follow-ended none (some t) u h = ground arith
follow-ended (some s) (some t) u h = ground arith

observe-ended :
    (k : Uuid) (s u : Option Status) (e : OutboxEvent)
    → observe k (some s) e ≡ some u
    → (if e.aggregate_id == k then ended (announced e.event_type) else 0) + ended s ≡ ended u
observe-ended k s u e h = elim (Bool-cases (e.aggregate_id == k)) [
  | inl here ↦ rw here (follow-ended s (announced e.event_type) u (rw here at h))
  | inr elsewhere ↦ rw elsewhere (omega (arith, ap ended (some-injective s u (rw elsewhere at h))))
]

replay-stuck : (k : Uuid) (es : List OutboxEvent) → foldl (observe k) none es ≡ none
replay-stuck k [] = refl
replay-stuck k (e ∷ es) = replay-stuck k es

pub terminal_count-replay :
    (k : Uuid) (s u : Option Status) (es : List OutboxEvent)
    → foldl (observe k) (some s) es ≡ some u
    → terminal_count k es + ended s ≡ ended u
unfolding terminal_count
terminal_count-replay k s u [] h = omega (arith, ap ended (some-injective s u h))
terminal_count-replay k s u (e ∷ es) h = elim (Option-cases (observe k (some s) e)) [
  | inl stuck ↦ absurd (none-ne-some u (sym (replay-stuck k es) ∙ (rw stuck at h)))
  | inr (t, seen) ↦
      omega (arith, observe-ended k s t e seen, terminal_count-replay k t u es (rw seen at h))
]
