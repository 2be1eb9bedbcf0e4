-- ===== src/Cart.antt =====
-- The cart context, backend/app/modules/cart.
pub mod Domain
pub mod Repository
pub mod View
pub mod UseCases
pub mod Ranges
pub mod Made
pub mod Bounds
pub mod Counts
pub mod LineLimit
