-- ===== src/Runtime.antt =====
-- How the parts meet: the handlers of the queues and their wiring (backend/app/messaging_runtime.py),
-- and what holds of every delivery and of every run of the whole system.
pub mod Handlers
pub mod Requests
pub mod Shopping
pub mod Asking
pub mod Primitives
pub mod Kept
pub mod Deliveries
pub mod Publishing
pub mod Preservation
pub mod Stock
pub mod Claimed
pub mod Repeats
pub mod Redelivery
pub mod System
pub mod Ledger
pub mod Replays
