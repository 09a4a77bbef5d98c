-- ===== src/Fraud.antt =====
-- crates/fraud-service: the rules, the engine that runs them, and what becomes of its verdicts.
pub mod Rules
pub mod Engine
pub mod Verdicts
pub mod Examples
