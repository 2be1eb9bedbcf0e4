-- ===== src/Inventory.antt =====
-- The inventory context, backend/app/modules/inventory.
pub mod Domain
pub mod Repository
pub mod UseCases
pub mod Locking
pub mod Conservation
pub mod Nonneg
pub mod Rejection
