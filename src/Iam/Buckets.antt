-- ===== src/Iam/Buckets.antt =====
-- The buckets of the rate limiter and the log of what it let through, one call at a time:
-- backend/app/modules/iam/api/rate_limit.py.
use eventcommerce.Base.{
  ℕ, suc, ◌+◌, ◌≤◌, String, Bool, true, false, ◌≡◌, refl, Option, none, some, List, [], ◌∷◌, ◌++◌,
  find, find-upsert, merged, ltb, leb, ◌==◌, string_eq, eq_iff, if◌then◌else◌, length, arith,
  Bool-cases, inl, inr, ap,
}
use eventcommerce.Iam.RateLimit.{
  Attempts, RateLimiter, attempts_of, put_bucket, pop_bucket, bucket_key, replace_bucket, live,
  is_empty, appended, Verdict, allowed, record_in, check_and_record, bucket_or_empty,
}

-- The attempts that were let through, in order.
abbrev pub Log : Type 0
Log = List (String × ℕ)

-- The moments of one key in the log.
unfoldable pub moments_of : String → Log → List ℕ
moments_of key [] = []
moments_of key ((k, seen) ∷ log) =
    let rest = moments_of key log in if k == key then seen ∷ rest else rest

-- How many of the moments lie within the window that ends at `t`, the last ones less than `window`
-- ago.
unfoldable pub in_window : ℕ → ℕ → List ℕ → ℕ
in_window window t [] = 0
in_window window t (seen ∷ moments) =
    let rest = in_window window t moments in if leb (seen + window) t then rest else suc rest

pub in_window-live :
    (window t : ℕ) (moments : List ℕ) → in_window window t moments ≡ length (live window t moments)
unfolding in_window live
in_window-live window t [] = refl
in_window-live window t (seen ∷ moments) = ground (arith, in_window-live window t moments)

-- What a limiter promises: an attempt is let through when fewer than `max_attempts` attempts with
-- its key were let through in the last `window`.
unfoldable pub admits : ℕ → ℕ → String → ℕ → Log → Bool
unfolding moments_of in_window
admits max_attempts window key now log =
    ltb (in_window window now (moments_of key log)) max_attempts

unfoldable pub admitted : ℕ → ℕ → List (String × ℕ) → Log → List Bool
unfolding admits
admitted max_attempts window [] log = []
admitted max_attempts window ((key, now) ∷ calls) log =
    let ok = admits max_attempts window key now log in
    ok ∷ admitted max_attempts window calls (if ok then log ++ (key, now) ∷ [] else log)

abbrev pub lets_through : Verdict → Bool
lets_through allowed = true
lets_through _ = false

-- The limiter, called at the same moments.
unfoldable pub outcomes : List (String × ℕ) → RateLimiter → List Bool
unfolding check_and_record
outcomes [] limiter = []
outcomes ((key, now) ∷ calls) limiter =
    let (verdict, limiter') = check_and_record key now limiter in
    lets_through verdict ∷ outcomes calls limiter'

-- The calls come at moments that do not fall, from `now` on.
abbrev pub Ascends : ℕ → List (String × ℕ) → Type 0
Ascends now [] = Unit
Ascends now ((_, moment) ∷ calls) = (now ≤ moment) × Ascends moment calls

-- From `now` on the limiter sees what the log holds, for every key.
pub record Shows (limiter : RateLimiter) (log : Log) (now : ℕ) : Type 0 where
  pub at :
      (key : String) (t : ℕ)
      → now ≤ t
      → live limiter.window t (attempts_of key limiter.attempts)
        ≡ live limiter.window t (moments_of key log)

pub live-live :
    (window now t : ℕ) (moments : List ℕ)
    → now ≤ t
    → live window t (live window now moments) ≡ live window t moments
unfolding live
live-live window now t [] h = refl
live-live window now t (seen ∷ moments) h = ground (arith, live-live window now t moments h)

pub live-append :
    (window t : ℕ) (xs ys : List ℕ)
    → live window t (xs ++ ys) ≡ live window t xs ++ live window t ys
unfolding live
live-append window t [] ys = refl
live-append window t (x ∷ xs) ys = ground (arith, live-append window t xs ys)

pub appended-append : (xs : List ℕ) (x : ℕ) → appended xs x ≡ xs ++ x ∷ []
appended-append [] x = refl
appended-append (y ∷ xs) x = ap (λ (r : List ℕ). y ∷ r) (appended-append xs x)

pub moments_of-append :
    (key k : String) (now : ℕ) (log : Log)
    → moments_of key (log ++ (k, now) ∷ [])
      ≡ (if k == key then moments_of key log ++ now ∷ [] else moments_of key log)
unfolding moments_of
moments_of-append key k now [] = ground arith
moments_of-append key k now ((j, seen) ∷ log) = ground (arith, moments_of-append key k now log)

find-pop :
    (k key : String) (attempts : Attempts)
    → find bucket_key k (pop_bucket key attempts)
      ≡ (if key == k then none else find bucket_key k attempts)
unfolding find pop_bucket
find-pop k key [] = ground arith
find-pop k key (entry ∷ attempts) =
    ground (arith, eq_iff entry.0 key, eq_iff entry.0 k, eq_iff key k, find-pop k key attempts)

attempts_of-put_bucket :
    (k key : String) (bucket : List ℕ) (attempts : Attempts)
    → attempts_of k (put_bucket key bucket attempts)
      ≡ (if key == k then bucket else attempts_of k attempts)
attempts_of-put_bucket k key bucket attempts =
    rw (find-upsert bucket_key replace_bucket (λ _ _. refl) k (key, bucket) attempts)
      (elim (Bool-cases (key == k)) [
        | inl e ↦ rw e (of_found (find bucket_key k attempts))
        | inr e ↦ rw e refl
      ])
  where
    of_found :
        (o : Option (String × List ℕ))
        → bucket_or_empty (some (merged bucket_key replace_bucket (key, bucket) o)) ≡ bucket
    of_found none = refl
    of_found (some _) = refl

attempts_of-pop_bucket :
    (k key : String) (attempts : Attempts)
    → attempts_of k (pop_bucket key attempts) ≡ (if key == k then [] else attempts_of k attempts)
attempts_of-pop_bucket k key attempts =
    rw (find-pop k key attempts)
      (elim (Bool-cases (key == k)) [ inl e ↦ rw e refl | inr e ↦ rw e refl ])

-- The bucket that a check with the live bucket `bucket` leaves.
abbrev pub next_bucket : RateLimiter → ℕ → List ℕ → List ℕ
next_bucket limiter now bucket =
    if leb limiter.max_attempts (length bucket) then bucket else appended bucket now

pub record_in_lem :
    (k key : String) (now : ℕ) (bucket : List ℕ) (limiter : RateLimiter)
    → attempts_of k (record_in key now bucket limiter).1.attempts
      ≡ (if key == k then next_bucket limiter now bucket else attempts_of k limiter.attempts)
record_in_lem k key now bucket limiter =
    elim (Bool-cases (leb limiter.max_attempts (length bucket))) [
      | inl e ↦ rw e (put bucket)
      | inr e ↦ rw e (put (appended bucket now))
    ]
  where
    put :
        (b : List ℕ)
        → attempts_of k (
            put_bucket key b
              (if is_empty bucket then pop_bucket key limiter.attempts else limiter.attempts))
          ≡ (if key == k then b else attempts_of k limiter.attempts)
    put b =
        rw
          (attempts_of-put_bucket k key b
            (if is_empty bucket then pop_bucket key limiter.attempts else limiter.attempts))
          (elim (Bool-cases (key == k)) [
            | inl e ↦ rw e refl
            | inr e ↦ rw e (elim (Bool-cases (is_empty bucket)) [
              | inl e' ↦ rw e' (rw (attempts_of-pop_bucket k key limiter.attempts) (rw e refl))
              | inr e' ↦ rw e' refl
            ])
          ])

pub record_in-window :
    (key : String) (now : ℕ) (bucket : List ℕ) (limiter : RateLimiter)
    → ((record_in key now bucket limiter).1.window ≡ limiter.window)
      × ((record_in key now bucket limiter).1.max_attempts ≡ limiter.max_attempts)
record_in-window key now bucket limiter =
    elim (Bool-cases (leb limiter.max_attempts (length bucket))) [
      | inl e ↦ rw e (refl, refl)
      | inr e ↦ rw e (refl, refl)
    ]

pub record_in-lets_through :
    (key : String) (now : ℕ) (bucket : List ℕ) (limiter : RateLimiter)
    → lets_through (record_in key now bucket limiter).0 ≡ ltb (length bucket) limiter.max_attempts
record_in-lets_through key now [] limiter = ground arith
record_in-lets_through key now (b ∷ bucket) limiter = ground arith
