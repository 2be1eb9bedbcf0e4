-- ===== src/Orders.antt =====
-- The orders context, backend/app/modules/orders, and the lifecycle of an order.
pub mod Domain
pub mod Repository
pub mod UseCases
pub mod Consumers
pub mod Changes
pub mod Operations
pub mod Announcements
pub mod Preservation
