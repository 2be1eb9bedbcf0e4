-- ===== src/Payments/Domain.antt =====
-- Payments: backend/app/modules/payments/domain (entities.py, services.py).
use eventcommerce.Base.{String, Option, ◌||◌, if◌then◌else◌}
use eventcommerce.Base.Int.{pos, ltb_ℤ}
use eventcommerce.Base.Decimal.{Decimal, finite, non_finite, has_more_than_two_places}
use eventcommerce.Result.{Uuid, Time, Result, ok, err, payment_rejected, value_error}

pub record Payment : Type 0 where
  pub id : Uuid
  pub order_id : Uuid
  pub status : String
  pub amount : Decimal
  pub currency : String
  pub created_at : Time
  pub failure_reason : Option String

-- `amount <= 0` raises for a NaN; an amount that is not finite never gets here.
unfoldable pub ensure_payment_amount_is_valid : Decimal → Result Unit
ensure_payment_amount_is_valid (finite coefficient places) =
    if ltb_ℤ coefficient (pos 1) || has_more_than_two_places (finite coefficient places)
    then err payment_rejected
    else ok tt
ensure_payment_amount_is_valid non_finite = err value_error
