-- ===== src/Core.antt =====
-- The core crate (crates/core/src): the records that the other crates pass around.
pub mod Params
pub mod Validator
pub mod Error
pub mod Transaction
pub mod Block
pub mod Account
pub mod Receipt
pub mod Epoch
pub mod Genesis
mod Tests
