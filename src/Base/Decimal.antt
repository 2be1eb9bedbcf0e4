-- ===== src/Base/Decimal.antt =====
-- Python's `Decimal`: a coefficient and a number of decimal places, so that `finite c p` is
-- c / 10 ^ p with `as_tuple().exponent` equal to -p. A value with a positive exponent is written
-- out with no decimal places. `non_finite` is an infinity or a NaN.
use eventcommerce.Base.{ℕ, zero, suc, Bool, true, false, ltb, ◌-◌, ◌^◌}
use Prim.Native.Nat.{max}
use eventcommerce.Base.Int.{ℤ, pos, ◌+ℤ◌, ◌*ℤ◌, ltb_ℤ}

pub data Decimal : Type 0 where
  finite : ℤ → ℕ → Decimal
  non_finite : Decimal

-- `isinstance(exponent, int) and exponent < -2`: the exponent of a value that is not finite is text.
abbrev pub has_more_than_two_places : Decimal → Bool
has_more_than_two_places (finite _ places) = ltb 2 places
has_more_than_two_places non_finite = false

abbrev pub is_finite : Decimal → Bool
is_finite (finite _ _) = true
is_finite non_finite = false

-- `value < 0`, of a finite value
abbrev pub is_negative : Decimal → Bool
is_negative (finite coefficient _) = ltb_ℤ coefficient (pos 0)
is_negative non_finite = false

-- A value with at most two decimal places in hundredths.
abbrev pub cents : Decimal → ℤ
cents (finite coefficient zero) = coefficient *ℤ pos 100
cents (finite coefficient (suc zero)) = coefficient *ℤ pos 10
cents (finite coefficient _) = coefficient
cents non_finite = pos 0

-- `value * quantity` by an integer, and `a + b`, which has as many decimal places as the longer of
-- the two. The coefficients that the program meets have at most 17 digits, so that the 28 of the
-- standard context are never rounded to.
abbrev pub times : Decimal → ℤ → Decimal
times (finite coefficient places) quantity = finite (coefficient *ℤ quantity) places
times non_finite quantity = non_finite

-- The coefficient at a number of places that is no less than its own.
abbrev pub at_places : ℕ → ℤ → ℕ → ℤ
at_places places coefficient own = coefficient *ℤ pos (10 ^ (places - own))

infixl 65 ◌+decimal◌
abbrev pub ◌+decimal◌ : Decimal → Decimal → Decimal
finite a p +decimal finite b q =
    finite (at_places (max p q) a p +ℤ at_places (max p q) b q) (max p q)
non_finite +decimal _ = non_finite
finite _ _ +decimal non_finite = non_finite

-- `a > b`, of finite values
abbrev pub exceeds : Decimal → Decimal → Bool
exceeds (finite a p) (finite b q) = ltb_ℤ (at_places (max p q) b q) (at_places (max p q) a p)
exceeds _ _ = false
