-- ===== src/Vault.antt =====
-- crates/vault-service: card numbers kept as tokens.
pub mod Luhn
pub mod Tokenizer
pub mod Detected
pub mod Roundtrip
pub mod Examples
