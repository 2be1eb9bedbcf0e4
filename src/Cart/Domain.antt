-- ===== src/Cart/Domain.antt =====
-- Carts: backend/app/modules/cart/domain (entities.py, services.py).
use eventcommerce.Base.{String, ◌||◌, if◌then◌else◌}
use eventcommerce.Base.Int.{ℤ, pos, ltb_ℤ}
use eventcommerce.Result.{Uuid, Time, Result, ok, err, invalid_quantity}

pub record Cart : Type 0 where
  pub id : Uuid
  pub customer_id : Uuid
  pub created_at : Time
  pub updated_at : Time

pub record CartLine : Type 0 where
  pub cart_id : Uuid
  pub product_id : String
  pub quantity : ℤ

abbrev pub min_quantity : ℤ
min_quantity = pos 1

abbrev pub max_quantity : ℤ
max_quantity = pos 10000

-- A quantity is an integer here, so the test of its Python type always passes.
unfoldable pub validate_quantity : ℤ → Result ℤ
validate_quantity quantity =
    if ltb_ℤ quantity min_quantity || ltb_ℤ max_quantity quantity
    then err invalid_quantity
    else ok quantity
