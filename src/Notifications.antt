-- ===== src/Notifications.antt =====
-- The notifications context, backend/app/modules/notifications.
pub mod Domain
pub mod UseCases
