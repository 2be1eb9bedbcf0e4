-- ===== src/Operator.antt =====
-- The operator's read models, backend/app/modules/operator.
pub mod OrderQueue
pub mod Latest
pub mod CatalogRows
pub mod Simulation
