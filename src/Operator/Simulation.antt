-- ===== src/Operator/Simulation.antt =====
-- `simulate_payment` of backend/app/modules/operator/api/routes.py. `str.upper` is a parameter.
use eventcommerce.Base.{ℕ, String, Bool, if◌then◌else◌}
use eventcommerce.Base.Decimal.{Decimal, has_more_than_two_places}
use eventcommerce.Result.{Uuid}
use eventcommerce.Payments.Policy.{
  Hashing, approval_threshold, payment_digest_byte, is_payment_approved,
}
use eventcommerce.Web.Response.{text, Response, success, failure}

pub record PaymentSimulation : Type 0 where
  pub order_id : Uuid
  pub amount : Decimal
  pub currency : String
  pub approved : Bool
  pub digest_byte : ℕ
  pub threshold : ℕ

module _ (hashing : Hashing) (upper : String → String) where
  unfoldable pub simulate_payment : Uuid → Decimal → String → Response PaymentSimulation
  unfolding is_payment_approved payment_digest_byte
  simulate_payment order_id amount currency =
      if has_more_than_two_places amount
      then failure 422 (text "amount must have at most two decimal places")
      else success 200 (record {
        order_id = order_id;
        amount = amount;
        currency = upper currency;
        approved = is_payment_approved hashing order_id amount (upper currency);
        digest_byte = payment_digest_byte hashing order_id amount (upper currency);
        threshold = approval_threshold;
      })
