-- ===== src/Operator/Latest.antt =====
-- The money of a row of the order queue: list_order_queue.py of
-- backend/app/modules/operator/application.
use eventcommerce.Base.{
  ℕ, String, ◌≡◌, ◌<◌, ◌≤◌, ◌⊎◌, refl, sym, ap, subst, ◌∙◌, Bool, true, Option, none, some, List,
  [], ◌∷◌, All, find, upsert, merged, find-upsert, ◌==◌, string_eq, eq_iff, nat_eq, if◌then◌else◌,
  arith, Bool-cases, inl, inr,
}
use eventcommerce.Result.{Uuid}
use eventcommerce.Base.Decimal.{Decimal}
use eventcommerce.Payments.Domain.{Payment}
use eventcommerce.Orders.Domain.{Order}
use eventcommerce.Operator.OrderQueue.{
  payments_of, is_later, Latest, latest_key, put_latest, supersedes, latest_from, queue_row,
  payment_amount, payment_currency,
}

abbrev pub paid : Option (Uuid × Payment) → Option Payment
paid none = none
paid (some entry) = some entry.1

abbrev pub IsIn : Payment → List Payment → Type 0
IsIn payment [] = ⊥
IsIn payment (other ∷ others) = (payment ≡ other) ⊎ IsIn payment others

abbrev pub amount_of : Option Payment → Option Decimal
amount_of none = none
amount_of (some payment) = some payment.amount

abbrev pub currency_of_payment : Option Payment → Option String
currency_of_payment none = none
currency_of_payment (some payment) = some payment.currency

paid_amount : (o : Option (Uuid × Payment)) → payment_amount o ≡ amount_of (paid o)
paid_amount none = refl
paid_amount (some entry) = refl

paid_currency : (o : Option (Uuid × Payment)) → payment_currency o ≡ currency_of_payment (paid o)
paid_currency none = refl
paid_currency (some entry) = refl

module _ (uuid_int : Uuid → ℕ) where
  -- One was created before the other, or at the same time with an id that is not greater.
  abbrev pub AtMost : Payment → Payment → Type 0
  AtMost one other =
      (one.created_at < other.created_at)
      ⊎ ((one.created_at ≡ other.created_at) × (uuid_int one.id ≤ uuid_int other.id))

  -- The latest of some payments: one of them that they all come before or equal, and none if there
  -- are none.
  abbrev pub IsLatestOf : List Payment → Option Payment → Type 0
  IsLatestOf own none = own ≡ []
  IsLatestOf own (some payment) = IsIn payment own × All (λ other. AtMost other payment) own

  abbrev beats : Payment → Option Payment → Bool
  beats payment none = true
  beats payment (some current) = is_later uuid_int payment current

  abbrev later_of : Payment → Option Payment → Option Payment
  later_of payment old = if beats payment old then some payment else old

  -- The loop, as it is seen from one order.
  unfoldable latest_among : Uuid → List Payment → Option Payment → Option Payment
  latest_among k [] old = old
  latest_among k (payment ∷ payments) old =
      latest_among k payments (if payment.order_id == k then later_of payment old else old)

  supersedes-beats :
      (payment : Payment) (o : Option (Uuid × Payment))
      → supersedes uuid_int payment o ≡ beats payment (paid o)
  supersedes-beats payment none = refl
  supersedes-beats payment (some entry) = refl

  paid-merged :
      (entry : Uuid × Payment) (o : Option (Uuid × Payment))
      → paid (some (merged latest_key put_latest entry o)) ≡ some entry.1
  paid-merged entry none = refl
  paid-merged entry (some old) = refl

  abbrev step : Payment → Latest → Latest
  step payment latest =
      if supersedes uuid_int payment (find latest_key payment.order_id latest)
      then upsert latest_key put_latest (payment.order_id, payment) latest
      else latest

  -- The entry of an order after a round.
  find-step :
      (k : Uuid) (payment : Payment) (latest : Latest)
      → paid (find latest_key k (step payment latest)) ≡ (
          if payment.order_id == k
          then later_of payment (paid (find latest_key k latest))
          else paid (find latest_key k latest))
  find-step k payment latest =
      let entry : Uuid × Payment = (payment.order_id, payment) in
      let found = find-upsert latest_key put_latest (λ _ _. refl) k entry latest in
      elim (Bool-cases (payment.order_id == k)) [
        | inl same ↦
            let named : payment.order_id ≡ k = ground (arith, eq_iff payment.order_id k) in
            let tested : supersedes uuid_int payment (find latest_key payment.order_id latest)
                ≡ beats payment (paid (find latest_key k latest)) =
              subst
                (λ (id : Uuid).
                  supersedes uuid_int payment (find latest_key id latest)
                  ≡ beats payment (paid (find latest_key k latest)))
                (sym named) (supersedes-beats payment (find latest_key k latest)) in
            rw same (elim (Bool-cases (beats payment (paid (find latest_key k latest)))) [
              | inl wins ↦
                  rw (tested ∙ wins)
                    (rw (found, same, wins) (paid-merged entry (find latest_key k latest)))
              | inr loses ↦ rw (tested ∙ loses) (rw loses refl)
            ])
        | inr other ↦
            rw other
              (elim (Bool-cases
                (supersedes uuid_int payment (find latest_key payment.order_id latest))) [
                  | inl wins ↦ rw wins (rw (found, other) refl)
                  | inr loses ↦ rw loses refl
                ])
      ]

  latest_from-latest_among :
      (k : Uuid) (payments : List Payment) (latest : Latest)
      → paid (find latest_key k (latest_from uuid_int payments latest))
        ≡ latest_among k payments (paid (find latest_key k latest))
  unfolding latest_from latest_among
  latest_from-latest_among k [] latest = refl
  latest_from-latest_among k (payment ∷ payments) latest =
      latest_from-latest_among k payments (step payment latest)
      ∙ ap (latest_among k payments) (find-step k payment latest)

  abbrev Covers : Option Payment → Payment → Type 0
  Covers none payment = ⊥
  Covers (some current) payment = AtMost payment current

  Covers-later_of :
      (o : Option Payment) (payment other : Payment)
      → Covers o other
      → Covers (later_of payment o) other
  Covers-later_of none payment other h = elim h [ ]
  Covers-later_of (some current) payment other h = ground arith

  Covers-new : (o : Option Payment) (payment : Payment) → Covers (later_of payment o) payment
  Covers-new none payment = ground arith
  Covers-new (some current) payment = ground arith

  Covers-latest_among :
      (k : Uuid) (payments : List Payment) (o : Option Payment) (other : Payment)
      → Covers o other
      → Covers (latest_among k payments o) other
  unfolding latest_among
  Covers-latest_among k [] o other h = h
  Covers-latest_among k (payment ∷ payments) o other h = elim (Bool-cases (payment.order_id == k)) [
    | inl own ↦ rw own (
        Covers-latest_among k payments (later_of payment o) other
          (Covers-later_of o payment other h))
    | inr foreign ↦ rw foreign (Covers-latest_among k payments o other h)
  ]

  abbrev own : Uuid → List Payment → List Payment
  own k payments = payments_of (k ∷ []) payments

  All-Covers :
      (k : Uuid) (payments : List Payment) (o : Option Payment)
      → All (Covers (latest_among k payments o)) (own k payments)
  unfolding latest_among payments_of
  All-Covers k [] o = tt
  All-Covers k (payment ∷ payments) o = elim (Bool-cases (payment.order_id == k)) [
    | inl mine ↦ rw mine (
      Covers-latest_among k payments (later_of payment o) payment (Covers-new o payment),
      All-Covers k payments (later_of payment o),
    )
    | inr foreign ↦ rw foreign (All-Covers k payments o)
  ]

  IsIn-latest_among :
      (k : Uuid) (payments : List Payment) (o : Option Payment)
      → (latest_among k payments o ≡ o)
        ⊎ ((payment : Payment) × (latest_among k payments o ≡ some payment)
            × IsIn payment (own k payments))
  unfolding latest_among payments_of
  IsIn-latest_among k [] o = inl refl
  IsIn-latest_among k (payment ∷ payments) o = elim (Bool-cases (payment.order_id == k)) [
    | inl mine ↦ rw mine (elim (IsIn-latest_among k payments (later_of payment o)) [
      | inl kept ↦ elim (Bool-cases (beats payment o)) [
        | inl wins ↦ inr (payment, kept ∙ rw wins refl, inl refl)
        | inr loses ↦ inl (kept ∙ rw loses refl)
      ]
      | inr (other, e, inside) ↦ inr (other, e, inr inside)
    ])
    | inr foreign ↦ rw foreign (IsIn-latest_among k payments o)
  ]

  nothing_covered : (payments : List Payment) → All (Covers none) payments → payments ≡ []
  nothing_covered [] h = refl
  nothing_covered (payment ∷ payments) h = elim h.0 [ ]

  latest_among-IsLatestOf :
      (k : Uuid) (payments : List Payment)
      → IsLatestOf (own k payments) (latest_among k payments none)
  latest_among-IsLatestOf k payments =
      let covered = All-Covers k payments none in
      elim (IsIn-latest_among k payments none) [
        | inl e ↦ rw e (nothing_covered (own k payments) (rw e at covered))
        | inr (payment, e, inside) ↦ rw e (inside, rw e at covered)
      ]

  -- The money of a row of the order queue is the amount and the currency of one payment of its order
  -- that no other payment of that order is later than, by the time of creation and then by the id;
  -- where the order has no payment, both fields are empty.
  pub queue_row-latest :
      (payments : List Payment) (order : Order)
      → (latest : Option Payment) × (IsLatestOf (payments_of (order.id ∷ []) payments) latest)
        × ((queue_row (latest_from uuid_int payments []) order).total ≡ amount_of latest)
        × ((queue_row (latest_from uuid_int payments []) order).currency
            ≡ currency_of_payment latest)
  unfolding queue_row find
  queue_row-latest payments order =
      let entry = find latest_key order.id (latest_from uuid_int payments []) in
      let same = latest_from-latest_among order.id payments [] in
      (
        latest_among order.id payments none,
        latest_among-IsLatestOf order.id payments,
        paid_amount entry ∙ ap amount_of same,
        paid_currency entry ∙ ap currency_of_payment same,
      )
