-- ===== src/Iam/Windows.antt =====
-- How many attempts of one key the rate limiter lets through in a window:
-- backend/app/modules/iam/api/rate_limit.py.
use eventcommerce.Base.{
  ℕ, ◌+◌, ◌≤◌, String, ◌≡◌, refl, List, [], ◌∷◌, ◌++◌, find, ltb, ◌==◌, string_eq, eq_iff, arith,
  Bool-cases, inl, inr, sym,
}
use eventcommerce.Iam.RateLimit.{RateLimiter, check_and_record}
use eventcommerce.Iam.Buckets.{Log, moments_of, admits, lets_through, Ascends, Shows, in_window}
use eventcommerce.Iam.Admission.{
  noted, moments_of-noted, shown_next, lets_through_next, shown_later, settings_next,
}

-- The log of the attempts that the limiter let through.
unfoldable pub logged : List (String × ℕ) → RateLimiter → Log → Log
unfolding check_and_record
logged [] limiter log = log
logged ((key, now) ∷ calls) limiter log =
    let (verdict, limiter') = check_and_record key now limiter in
    logged calls limiter' (noted (lets_through verdict) key now log)

-- Every call came at `t` or before.
abbrev pub Precede : List (String × ℕ) → ℕ → Type 0
Precede [] t = Unit
Precede ((_, moment) ∷ calls) t = (moment ≤ t) × Precede calls t

-- No key has more than `max_attempts` in a window that ends at `now` or later.
record Fits (max_attempts window : ℕ) (log : Log) (now : ℕ) : Type 0 where
  at : (key : String) (t : ℕ) → now ≤ t → in_window window t (moments_of key log) ≤ max_attempts

in_window-shrinks :
    (window now t : ℕ) (moments : List ℕ)
    → now ≤ t
    → in_window window t moments ≤ in_window window now moments
unfolding in_window
in_window-shrinks window now t [] h = omega arith
in_window-shrinks window now t (seen ∷ moments) h =
    ground (arith, in_window-shrinks window now t moments h)

in_window-append_le :
    (window t now : ℕ) (moments : List ℕ)
    → in_window window t (moments ++ now ∷ []) ≤ 1 + in_window window t moments
unfolding in_window
in_window-append_le window t now [] = ground arith
in_window-append_le window t now (seen ∷ moments) =
    ground (arith, in_window-append_le window t now moments)

Fits-noted :
    (max_attempts window : ℕ) (key : String) (now : ℕ) (log : Log)
    → Fits max_attempts window log now
    → Fits max_attempts window (noted (admits max_attempts window key now log) key now log) now
unfolding admits
Fits-noted max_attempts window key now log fits = record {
  at = λ k t h.
      rw
        (moments_of-noted k key now (ltb (in_window window now (moments_of key log)) max_attempts)
          log)
        (elim (Bool-cases (key == k)) [
          | inl e ↦ rw e (
              let same : key ≡ k = ground (arith, eq_iff key k) in
              rw (sym same) (
                ground (
                  arith,
                  in_window-append_le window t now (moments_of key log),
                  in_window-shrinks window now t (moments_of key log) h,
                  fits.at key t h,
                )))
          | inr e ↦ rw e (fits.at k t h)
        ]);
}

logged_from :
    (calls : List (String × ℕ)) (limiter : RateLimiter) (log : Log) (now t : ℕ) (key : String)
    → Ascends now calls
    → Precede calls t
    → now ≤ t
    → Shows limiter log now
    → Fits limiter.max_attempts limiter.window log now
    → in_window limiter.window t (moments_of key (logged calls limiter log)) ≤ limiter.max_attempts
unfolding logged
logged_from [] limiter log now t key a p h shows fits = fits.at key t h
logged_from ((k, moment) ∷ calls) limiter log now t key (h, a) (before, p) _ shows fits =
    let here = shown_later limiter log now moment h shows in
    let fits' : Fits limiter.max_attempts limiter.window log moment = record {
      at = λ k t h'. fits.at k t (omega arith);
    } in
    let same = lets_through_next k moment limiter log here in
    let ok = admits limiter.max_attempts limiter.window k moment log in
    let after = (check_and_record k moment limiter).1 in
    let settings = settings_next k moment limiter in
    let next : Fits after.max_attempts after.window (noted ok k moment log) moment =
      rw settings.0
        (rw settings.1 (Fits-noted limiter.max_attempts limiter.window k moment log fits')) in
    let rest =
      logged_from calls after (noted ok k moment log) moment t key a p before
        (shown_next k moment limiter log here) next in
    rw same (rw settings.0 at (rw settings.1 at rest))

-- However often a key calls a limiter that starts with no attempts, at moments that never fall, no
-- more than `max_attempts` of its calls are let through in a window that ends at the last call or
-- later.
pub logged-bounded :
    (max_attempts window ticks_per_second : ℕ) (calls : List (String × ℕ)) (key : String) (t : ℕ)
    → Ascends 0 calls
    → Precede calls t
    → (in_window window t (
        moments_of key (
          logged calls
            (record {
              max_attempts = max_attempts;
              window = window;
              ticks_per_second = ticks_per_second;
              attempts = [];
            })
            [])))
      ≤ max_attempts
unfolding find moments_of in_window
logged-bounded max_attempts window ticks_per_second calls key t a p =
    logged_from calls
      (record {
        max_attempts = max_attempts;
        window = window;
        ticks_per_second = ticks_per_second;
        attempts = [];
      })
      [] 0 t key a p (omega arith) (record { at = λ k t h. refl })
      (record { at = λ k t h. omega arith })
