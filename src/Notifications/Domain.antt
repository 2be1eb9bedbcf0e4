-- ===== src/Notifications/Domain.antt =====
-- Notifications: backend/app/modules/notifications/domain (entities.py, services.py).
use eventcommerce.Base.{String, Bool, [], ◌∷◌, contains, string_eq}
use eventcommerce.Result.{Uuid, Time}

pub record Notification : Type 0 where
  pub id : Uuid
  pub order_id : Uuid
  pub channel : String
  pub content : String
  pub sent_at : Time

unfoldable pub is_channel_supported : String → Bool
is_channel_supported channel = contains channel ("email" ∷ "sms" ∷ "push" ∷ [])
