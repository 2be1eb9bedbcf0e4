-- ===== src/Payments/Policy.antt =====
-- backend/app/modules/payments/domain/policy.py. SHA-256 and the text of a decimal with two places
-- are the standard library's, so they are parameters.
use eventcommerce.Base.{ℕ, String, Bool, ltb}
use eventcommerce.Base.Decimal.{Decimal}
use Prim.Native.String.{◌++◌}

pub record Hashing : Type 0 where
  -- `hashlib.sha256(text.encode("utf-8")).digest()[0]`
  pub first_digest_byte : String → ℕ
  -- `f"{amount:.2f}"`
  pub format_amount : Decimal → String

abbrev pub approval_threshold : ℕ
approval_threshold = 192

module _ (hashing : Hashing) where
  unfoldable pub payment_digest_byte : String → Decimal → String → ℕ
  payment_digest_byte order_id amount currency =
      hashing.first_digest_byte
        (order_id ++ ("|" ++ (hashing.format_amount amount ++ ("|" ++ currency))))

  unfoldable pub is_payment_approved : String → Decimal → String → Bool
  unfolding payment_digest_byte
  is_payment_approved order_id amount currency =
      ltb (payment_digest_byte order_id amount currency) approval_threshold
