-- ===== src/Result.antt =====
-- Identifiers, times, and the exceptions that the use cases raise (the errors.py of each module).
use eventcommerce.Base.{ℕ, String}

-- A UUID is its canonical text, as `str` renders it; the program only compares and renders UUIDs.
abbrev pub Uuid : Type 0
Uuid = String

-- Points of time, as seconds from some origin.
abbrev pub Time : Type 0
Time = ℕ

pub data Error : Type 0 where
  invalid_state_transition order_not_found : Error
  insufficient_stock inventory_not_found : Error
  payment_rejected : Error
  product_not_found product_already_exists invalid_product : Error
  channel_not_supported : Error
  response_too_large idempotency_conflict : Error
  cart_product_not_found cart_item_not_found invalid_quantity : Error
  cart_limit_exceeded currency_mismatch : Error
  cart_not_found empty_cart cart_currency_mismatch cart_total_exceeded : Error
  duplicate_email invalid_credentials invalid_token : Error
  jwt_configuration : Error
  integrity_error value_error key_error : Error

pub data Result (A : Type 0) : Type 0 where
  ok : A → Result A
  err : Error → Result A
