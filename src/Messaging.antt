-- ===== src/Messaging.antt =====
-- The shared messaging of backend/app/shared/messaging and the event store of shared/events.
pub mod Events
pub mod Outbox
pub mod Idempotency
pub mod Claims
pub mod Worker
pub mod Backoff
pub mod Draining
pub mod Runs
pub mod Consumer
pub mod Routing
