-- ===== src/Iam/Admission.antt =====
-- The rate limiter against a log of the attempts that it let through, which forgets nothing:
-- backend/app/modules/iam/api/rate_limit.py.
use eventcommerce.Base.{
  ℕ, ◌≤◌, String, Bool, true, false, ◌≡◌, refl, List, [], ◌∷◌, ◌++◌, find, ltb, ◌==◌, string_eq,
  eq_iff, if◌then◌else◌, length, arith, Bool-cases, inl, inr, sym, ◌∙◌,
}
use eventcommerce.Iam.RateLimit.{RateLimiter, attempts_of, live, appended, check_and_record}
use eventcommerce.Iam.Buckets.{
  Log, moments_of, admits, admitted, lets_through, outcomes, Ascends, Shows, live-live, live-append,
  in_window-live, appended-append, moments_of-append, next_bucket, record_in_lem, record_in-window,
  record_in-lets_through,
}

-- The log after a call.
abbrev pub noted : Bool → String → ℕ → Log → Log
noted ok key now log = if ok then log ++ (key, now) ∷ [] else log

next_bucket-live :
    (limiter : RateLimiter) (now t : ℕ) (bucket seen : List ℕ)
    → live limiter.window t bucket ≡ live limiter.window t seen
    → live limiter.window t (next_bucket limiter now bucket)
      ≡ live limiter.window t
          (if ltb (length bucket) limiter.max_attempts then seen ++ now ∷ [] else seen)
next_bucket-live limiter now t bucket seen h =
    let appends : live limiter.window t (appended bucket now)
        ≡ live limiter.window t (seen ++ now ∷ []) =
      rw
        (
          appended-append bucket now,
          live-append limiter.window t bucket (now ∷ []),
          live-append limiter.window t seen (now ∷ []),
          h,
        )
        refl in
    ground (arith, h, appends)

pub moments_of-noted :
    (k key : String) (now : ℕ) (ok : Bool) (log : Log)
    → moments_of k (noted ok key now log) ≡ (
        if key == k
        then (if ok then moments_of k log ++ now ∷ [] else moments_of k log)
        else moments_of k log)
moments_of-noted k key now true log = moments_of-append k key now log
moments_of-noted k key now false log = elim (Bool-cases (key == k)) [
  | inl e ↦ rw e refl
  | inr e ↦ rw e refl
]

pub shown_next :
    (key : String) (now : ℕ) (limiter : RateLimiter) (log : Log)
    → Shows limiter log now
    → Shows
        (check_and_record key now limiter).1
        (noted (admits limiter.max_attempts limiter.window key now log) key now log)
        now
unfolding check_and_record admits
shown_next key now limiter log shows = record {
  at = λ k t h.
      let bucket = live limiter.window now (attempts_of key limiter.attempts) in
      let seen : live limiter.window t bucket ≡ live limiter.window t (moments_of key log) =
        live-live limiter.window now t (attempts_of key limiter.attempts) h ∙ shows.at key t h in
      rw
        (
          (record_in-window key now bucket limiter).0,
          record_in_lem k key now bucket limiter,
          in_window-live limiter.window now (moments_of key log),
          sym (shows.at key now (omega arith)),
          moments_of-noted k key now (ltb (length bucket) limiter.max_attempts) log,
        )
        (elim (Bool-cases (key == k)) [
          | inl e ↦ rw e (
              let same : key ≡ k = ground (arith, eq_iff key k) in
              rw (sym same) (next_bucket-live limiter now t bucket (moments_of key log) seen))
          | inr e ↦ rw e (shows.at k t h)
        ]);
}

pub lets_through_next :
    (key : String) (now : ℕ) (limiter : RateLimiter) (log : Log)
    → Shows limiter log now
    → lets_through (check_and_record key now limiter).0
      ≡ admits limiter.max_attempts limiter.window key now log
unfolding check_and_record admits
lets_through_next key now limiter log shows =
    let bucket = live limiter.window now (attempts_of key limiter.attempts) in
    rw
      (
        record_in-lets_through key now bucket limiter,
        shows.at key now (omega arith),
        in_window-live limiter.window now (moments_of key log),
      )
      refl

pub shown_later :
    (limiter : RateLimiter) (log : Log) (now t : ℕ)
    → now ≤ t
    → Shows limiter log now
    → Shows limiter log t
shown_later limiter log now t h shows = record { at = λ k t' h'. shows.at k t' (omega arith) }

pub settings_next :
    (key : String) (now : ℕ) (limiter : RateLimiter)
    → ((check_and_record key now limiter).1.window ≡ limiter.window)
      × ((check_and_record key now limiter).1.max_attempts ≡ limiter.max_attempts)
unfolding check_and_record
settings_next key now limiter =
    record_in-window key now (live limiter.window now (attempts_of key limiter.attempts)) limiter

outcomes_from :
    (calls : List (String × ℕ)) (limiter : RateLimiter) (log : Log) (now : ℕ)
    → Ascends now calls
    → Shows limiter log now
    → outcomes calls limiter ≡ admitted limiter.max_attempts limiter.window calls log
unfolding outcomes admitted
outcomes_from [] limiter log now a shows = refl
outcomes_from ((key, moment) ∷ calls) limiter log now (h, a) shows =
    let here = shown_later limiter log now moment h shows in
    let ok = admits limiter.max_attempts limiter.window key moment log in
    let after = (check_and_record key moment limiter).1 in
    let rest : outcomes calls after
        ≡ admitted after.max_attempts after.window calls (noted ok key moment log) =
      outcomes_from calls after (noted ok key moment log) moment a
        (shown_next key moment limiter log here) in
    rw (lets_through_next key moment limiter log here, rest)
      (rw ((settings_next key moment limiter).0, (settings_next key moment limiter).1) refl)

-- What the checks that a limiter runs at moments that never fall let through is what the
-- specification lets through: an attempt with fewer than `max_attempts` attempts of its key let
-- through less than the window before it. A limiter starts with no attempts.
pub outcomes-admitted :
    (max_attempts window ticks_per_second : ℕ) (calls : List (String × ℕ))
    → Ascends 0 calls
    → outcomes calls (record {
      max_attempts = max_attempts;
      window = window;
      ticks_per_second = ticks_per_second;
      attempts = [];
    })
      ≡ admitted max_attempts window calls []
unfolding find moments_of
outcomes-admitted max_attempts window ticks_per_second calls a =
    outcomes_from calls
      (record {
        max_attempts = max_attempts;
        window = window;
        ticks_per_second = ticks_per_second;
        attempts = [];
      })
      [] 0 a (record { at = λ k t h. refl })
