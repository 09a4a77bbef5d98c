-- ===== src/Crypto.antt =====
-- crates/common/src/crypto.rs: digests, signatures of webhooks, encryption and secrets. A byte is a
-- number and a text is the list of its bytes.
pub mod Bytes
pub mod Primitives
pub mod Digests
pub mod Cipher
pub mod Signatures
pub mod Accepted
pub mod Examples
