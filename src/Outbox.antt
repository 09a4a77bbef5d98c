-- ===== src/Outbox.antt =====
-- crates/outbox-worker: the events of the outbox on their way to the broker.
pub mod Worker
pub mod Delivered
pub mod Spent
pub mod Drained
pub mod Examples
