-- ===== src/Iam/Domain.antt =====
-- Identity: backend/app/modules/iam/domain/entities.py. Times are aware of their zone by their type,
-- so the tests of `__post_init__` on them always pass.
use eventcommerce.Base.{String, Option}
use eventcommerce.Result.{Uuid, Time}

-- `ALLOWED_ROLES`
pub data UserRole : Type 0 where
  shopper operator : UserRole

pub record User : Type 0 where
  pub id : Uuid
  pub email : String
  pub password_hash : String
  pub role : UserRole
  pub created_at : Time
  pub updated_at : Time

pub record RefreshToken : Type 0 where
  pub id : Uuid
  pub user_id : Uuid
  pub family_id : Uuid
  pub token_hash : String
  pub created_at : Time
  pub expires_at : Time
  pub consumed_at : Option Time
  pub revoked_at : Option Time
