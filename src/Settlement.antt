-- ===== src/Settlement.antt =====
-- crates/settlement-worker/src: the nightly settlement of captured payments.
pub mod Settler
pub mod Paid
pub mod Batches
pub mod Kept
pub mod Examples
