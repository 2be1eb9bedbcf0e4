-- ===== src/Catalog.antt =====
-- The catalog context, backend/app/modules/catalog: the parts that the other contexts read.
pub mod Domain
pub mod Repository
pub mod Checks
pub mod Validation
pub mod UseCases
pub mod Stored
pub mod Writes
