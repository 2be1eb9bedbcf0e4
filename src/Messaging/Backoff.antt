-- ===== src/Messaging/Backoff.antt =====
-- The reconnection of the publisher and of the consumer: `_jittered_backoff` and `_retry_loop` of
-- backend/app/messaging_runtime.py. `random.uniform` is a parameter; delays are in seconds.
use Prim.Native.Nat.{min}
use eventcommerce.Base.{
  ℕ, zero, suc, ◌+◌, ◌^◌, ◌≤◌, ◌<◌, ◌≡◌, refl, Bool, true, false, Option, none, some, List, [], ◌∷◌,
  length, All, leb, if◌then◌else◌, arith,
}

-- `_CAP`; `_BASE` is 1.
abbrev pub cap : ℕ
cap = 30

-- A float holds powers of two below 2 ** 1024.
abbrev pub float_exponents : ℕ
float_exponents = 1024

-- `base * (2**attempt)`: `none` is the OverflowError of the conversion of the integer to a float.
abbrev pub scaled : ℕ → Option ℕ
scaled attempt = if leb float_exponents attempt then none else some (2 ^ attempt)

abbrev pub jittered : (ℕ → ℕ → ℕ) → Option ℕ → Option ℕ
jittered jitter none = none
jittered jitter (some scale) = some (jitter 0 (min cap scale))

-- `_jittered_backoff`
unfoldable pub jittered_backoff : (ℕ → ℕ → ℕ) → ℕ → Option ℕ
jittered_backoff jitter attempt = jittered jitter (scaled attempt)

-- What becomes of the loop: the delays that it slept for, and how it ended.
pub data Retry : Type 0 where
  connected : List ℕ → Retry
  overflow_error : List ℕ → Retry
  retrying : List ℕ → Retry

abbrev pub slept : ℕ → Retry → Retry
slept delay (connected delays) = connected (delay ∷ delays)
slept delay (overflow_error delays) = overflow_error (delay ∷ delays)
slept delay (retrying delays) = retrying (delay ∷ delays)

-- The handler of a failed attempt; an exception of its own leaves the loop.
abbrev pub retry_after : Option ℕ → Retry → Retry
retry_after none rest = overflow_error []
retry_after (some delay) rest = slept delay rest

-- `_retry_loop`, over the outcomes of the attempts to connect, true for one that does not raise. The
-- loop is still at it when the outcomes end.
unfoldable pub retry_loop : (ℕ → ℕ → ℕ) → ℕ → List Bool → Retry
unfolding jittered_backoff
retry_loop jitter attempt [] = retrying []
retry_loop jitter attempt (true ∷ outcomes) = connected []
retry_loop jitter attempt (false ∷ outcomes) =
    let rest = retry_loop jitter (suc attempt) outcomes in
    retry_after (jittered_backoff jitter attempt) rest

-- `n` failures, and then the other outcomes.
unfoldable pub failing : ℕ → List Bool → List Bool
failing zero outcomes = outcomes
failing (suc n) outcomes = false ∷ failing n outcomes

abbrev pub delays_of : Retry → List ℕ
delays_of (connected delays) = delays
delays_of (overflow_error delays) = delays
delays_of (retrying delays) = delays

-- The loop has ended with a connection, after so many delays, each within the cap.
abbrev pub Connects : ℕ → Retry → Type 0
Connects n (connected delays) = (length delays ≡ n) × All (λ delay. delay ≤ cap) delays
Connects n _ = ⊥

-- The loop has ended with an OverflowError, after so many delays.
abbrev pub Overflows : ℕ → Retry → Type 0
Overflows n (overflow_error delays) = length delays ≡ n
Overflows n _ = ⊥

module _ (jitter : ℕ → ℕ → ℕ) where
  slept-Connects :
      (delay n : ℕ) (r : Retry) → delay ≤ cap → Connects n r → Connects (suc n) (slept delay r)
  slept-Connects delay n (connected delays) low h = (omega (arith, h.0), (low, h.1))
  slept-Connects delay n (overflow_error delays) low h = elim h [ ]
  slept-Connects delay n (retrying delays) low h = elim h [ ]

  slept-Overflows : (delay n : ℕ) (r : Retry) → Overflows n r → Overflows (suc n) (slept delay r)
  slept-Overflows delay n (connected delays) h = elim h [ ]
  slept-Overflows delay n (overflow_error delays) h = omega (arith, h)
  slept-Overflows delay n (retrying delays) h = elim h [ ]

  backoff_early :
      (attempt : ℕ)
      → attempt < 1024
      → jittered_backoff jitter attempt ≡ some (jitter 0 (min cap (2 ^ attempt)))
  unfolding jittered_backoff
  backoff_early attempt h =
      let small : leb float_exponents attempt ≡ false = ground arith in rw small refl

  backoff_late : (attempt : ℕ) → 1024 ≤ attempt → jittered_backoff jitter attempt ≡ none
  unfolding jittered_backoff
  backoff_late attempt h =
      let large : leb float_exponents attempt ≡ true = ground arith in rw large refl

  Connects-retry :
      (n attempt : ℕ) (outcomes : List Bool)
      → ((lo hi : ℕ) → jitter lo hi ≤ hi)
      → n + attempt ≤ 1024
      → Connects n (retry_loop jitter attempt (failing n (true ∷ outcomes)))
  unfolding retry_loop failing
  Connects-retry zero attempt outcomes bounded h = (refl, tt)
  Connects-retry (suc n) attempt outcomes bounded h =
      let delay = jitter 0 (min cap (2 ^ attempt)) in
      let rest = Connects-retry n (suc attempt) outcomes bounded (omega arith) in
      rw (backoff_early attempt (omega arith)) (
        slept-Connects delay n (retry_loop jitter (suc attempt) (failing n (true ∷ outcomes)))
          (omega (arith, bounded 0 (min cap (2 ^ attempt)))) rest)

  Overflows-retry :
      (n attempt : ℕ) (outcomes : List Bool)
      → n + attempt ≡ 1024
      → Overflows n (retry_loop jitter attempt (failing (suc n) outcomes))
  unfolding retry_loop failing
  Overflows-retry zero attempt outcomes h = rw (backoff_late attempt (omega arith)) refl
  Overflows-retry (suc n) attempt outcomes h = rw (backoff_early attempt (omega arith)) (
      slept-Overflows (jitter 0 (min cap (2 ^ attempt))) n
        (retry_loop jitter (suc attempt) (failing (suc n) outcomes))
        (Overflows-retry n (suc attempt) outcomes (omega arith)))

  -- With a jitter that stays below its upper bound the loop connects at the first attempt that the
  -- broker takes, after one delay of at most 30 seconds for each attempt before it, as long as at
  -- most 1024 attempts have failed before. After 1025 failed attempts it has ended with an
  -- OverflowError, whatever the broker would have done later: it never connects again.
  pub retry_loop-Connects :
      (n : ℕ) (outcomes : List Bool)
      → ((lo hi : ℕ) → jitter lo hi ≤ hi)
      → n ≤ 1024
      → Connects n (retry_loop jitter 0 (failing n (true ∷ outcomes)))
        × Overflows 1024 (retry_loop jitter 0 (failing 1025 outcomes))
  retry_loop-Connects n outcomes bounded h = (
    Connects-retry n 0 outcomes bounded (omega arith),
    Overflows-retry 1024 0 outcomes (omega arith),
  )
