-- ===== src/Webhook.antt =====
-- crates/webhook-service: the fan-out of events to endpoints, and the retries of deliveries.
pub mod Deliveries
pub mod Attempts
pub mod Dispatcher
pub mod Consumer
pub mod Once
pub mod Untyped
pub mod Examples
