-- ===== src/Catalog/Domain.antt =====
-- Catalog: backend/app/modules/catalog/domain/entities.py.
use eventcommerce.Base.{String, Bool, Option}
use eventcommerce.Base.Decimal.{Decimal}
use eventcommerce.Result.{Time}

pub record Product : Type 0 where
  pub id : String
  pub name : String
  pub price : Decimal
  pub currency : String
  pub active : Bool
  pub description : Option String
  pub created_at : Time
  pub updated_at : Time
