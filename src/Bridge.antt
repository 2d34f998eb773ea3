-- ===== src/Bridge.antt =====
-- The bridge crate (crates/bridge/src): chains and records, atomic swaps, transfers, validators,
-- and the relayer that joins them.
pub mod Types
pub mod Htlc
pub mod State
pub mod Validators
pub mod Relay
