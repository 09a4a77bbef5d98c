-- ===== src/Reconciliation.antt =====
-- crates/reconciliation-service: the payments compared with the charges of the provider.
pub mod Tables
pub mod Reconciler
pub mod Reports
pub mod Completed
pub mod Examples
