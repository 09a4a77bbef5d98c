-- ===== src/Merchant.antt =====
-- crates/merchant-service: merchants, their API keys and webhook endpoints.
pub mod Tables
pub mod Store
pub mod Handlers
pub mod Keys
pub mod Versions
pub mod Examples
