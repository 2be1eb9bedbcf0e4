-- ===== src/Iam/RateLimit.antt =====
-- The sliding-window rate limiter: backend/app/modules/iam/api/rate_limit.py.
--
-- The clock is monotonic and counts in ticks, `ticks_per_second` to the second; its floats are taken
-- to be exact. Comparisons with `now - window` are written without the subtraction.
use Prim.Native.Nat.{max}
use Prim.Native.String.{◌++◌}
use eventcommerce.Base.{
  ℕ, ◌+◌, ◌-◌, ◌/◌, String, Bool, true, false, Option, none, some, List, [], ◌∷◌, find, upsert, ltb,
  leb, ◌==◌, string_eq, if◌then◌else◌, length,
}

-- The dict from keys to the moments of their attempts.
abbrev pub Attempts : Type 0
Attempts = List (String × List ℕ)

pub record RateLimiter : Type 0 where
  pub max_attempts : ℕ
  pub window : ℕ
  pub ticks_per_second : ℕ
  pub attempts : Attempts

abbrev pub bucket_key : String × List ℕ → String
bucket_key entry = entry.0

abbrev pub replace_bucket : String × List ℕ → String × List ℕ → String × List ℕ
replace_bucket old new = (old.0, new.1)

abbrev pub bucket_or_empty : Option (String × List ℕ) → List ℕ
bucket_or_empty none = []
bucket_or_empty (some entry) = entry.1

-- `self._attempts.get(key, [])`
abbrev pub attempts_of : String → Attempts → List ℕ
attempts_of key attempts = bucket_or_empty (find bucket_key key attempts)

-- `self._attempts[key] = bucket`
abbrev pub put_bucket : String → List ℕ → Attempts → Attempts
put_bucket key bucket attempts = upsert bucket_key replace_bucket (key, bucket) attempts

-- `self._attempts.pop(key, None)`
unfoldable pub pop_bucket : String → Attempts → Attempts
pop_bucket key [] = []
pop_bucket key (entry ∷ attempts) =
    let rest = pop_bucket key attempts in if entry.0 == key then rest else entry ∷ rest

-- The moments that are still in the window: `seen > now - window_seconds`.
unfoldable pub live : ℕ → ℕ → List ℕ → List ℕ
live window now [] = []
live window now (seen ∷ moments) =
    let rest = live window now moments in if ltb now (seen + window) then seen ∷ rest else rest

abbrev pub is_empty : List ℕ → Bool
is_empty [] = true
is_empty (_ ∷ _) = false

-- What a check comes to: allowed (0), the seconds to wait, or the IndexError of `bucket[0]` on an
-- empty bucket, which a limit of no attempts at all runs into.
pub data Verdict : Type 0 where
  allowed : Verdict
  wait : ℕ → Verdict
  index_error : Verdict

-- `max(math.ceil(first + window_seconds - now), 1)`
abbrev pub seconds_to_wait : RateLimiter → ℕ → ℕ → ℕ
seconds_to_wait limiter now first =
    max ((first + limiter.window - now + (limiter.ticks_per_second - 1)) / limiter.ticks_per_second)
      1

abbrev pub refusal : RateLimiter → ℕ → List ℕ → Verdict
refusal limiter now [] = index_error
refusal limiter now (first ∷ _) = wait (seconds_to_wait limiter now first)

-- `bucket.append(now)`
abbrev pub appended : List ℕ → ℕ → List ℕ
appended [] now = now ∷ []
appended (seen ∷ bucket) now = seen ∷ appended bucket now

-- `check_and_record` with the live bucket of the key
abbrev pub record_in : String → ℕ → List ℕ → RateLimiter → Verdict × RateLimiter
record_in key now bucket limiter =
    let attempts = if is_empty bucket then pop_bucket key limiter.attempts else limiter.attempts in
    if leb limiter.max_attempts (length bucket)
    then (refusal limiter now bucket, record limiter { attempts = put_bucket key bucket attempts })
    else (allowed, record limiter { attempts = put_bucket key (appended bucket now) attempts })

unfoldable pub check_and_record : String → ℕ → RateLimiter → Verdict × RateLimiter
unfolding live pop_bucket
check_and_record key now limiter =
    record_in key now (live limiter.window now (attempts_of key limiter.attempts)) limiter

-- The keys with a live attempt; the others are deleted.
unfoldable pub live_entries : ℕ → ℕ → Attempts → Attempts
unfolding live
live_entries window now [] = []
live_entries window now (entry ∷ attempts) =
    let rest = live_entries window now attempts in
    if is_empty (live window now entry.1) then rest else entry ∷ rest

unfoldable pub tracked_key_count : ℕ → RateLimiter → ℕ × RateLimiter
unfolding live_entries
tracked_key_count now limiter =
    let attempts = live_entries limiter.window now limiter.attempts in
    (length attempts, record limiter { attempts = attempts })

abbrev pub fallback_host : String
fallback_host = "unknown"

-- `normalized` is `email.strip().lower()`.
abbrev pub login_key : String → String → String
login_key host normalized = "login:" ++ (host ++ (":" ++ normalized))

abbrev pub login_host_key : String → String
login_host_key host = "login-host:" ++ host

abbrev pub register_key : String → String
register_key host = "register:" ++ host

-- `client_host`: `none` is a request without a client.
abbrev pub client_host : Option String → String
client_host none = fallback_host
client_host (some host) = if host == "" then fallback_host else host

-- The limiters of one app.
pub record Limiters : Type 0 where
  pub login : RateLimiter
  pub login_host : RateLimiter
  pub register : RateLimiter

-- The bucket of the account first; the bucket of the host only if that one let the attempt through.
abbrev pub then_host : String → ℕ → Limiters → Verdict × RateLimiter → Verdict × Limiters
then_host host now limiters (allowed, login) =
    let (verdict, login_host) = check_and_record (login_host_key host) now limiters.login_host in
    (verdict, record limiters { login = login; login_host = login_host })
then_host host now limiters (verdict, login) = (verdict, record limiters { login = login })

unfoldable pub enforce_login_rate_limit : Option String → String → ℕ → Limiters → Verdict × Limiters
unfolding check_and_record
enforce_login_rate_limit client normalized now limiters =
    let host = client_host client in
    then_host host now limiters (check_and_record (login_key host normalized) now limiters.login)

unfoldable pub enforce_register_rate_limit : Option String → ℕ → Limiters → Verdict × Limiters
unfolding check_and_record
enforce_register_rate_limit client now limiters =
    let (verdict, register) =
      check_and_record (register_key (client_host client)) now limiters.register in
    (verdict, record limiters { register = register })
