-- ===== src/Messaging.antt =====
-- The durable inbox and outbox of the messenger channels: server/messaging.
pub mod Payload
pub mod Rows
pub mod Lifecycle
pub mod Queue
pub mod Resolve
pub mod Responses
pub mod Service
pub mod Invariant
pub mod Steps
pub mod Order
pub mod Replay
pub mod Reconcile
mod Tests
