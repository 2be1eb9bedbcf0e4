-- ===== src/Payments.antt =====
-- The payments context, backend/app/modules/payments.
pub mod Domain
pub mod Policy
pub mod Totals
pub mod UseCases
