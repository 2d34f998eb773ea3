-- ===== src/Crypto.antt =====
-- The crypto crate (crates/crypto/src): hashing, addresses, and Merkle trees.
pub mod Hash
pub mod Merkle
