-- ===== src/Contracts.antt =====
-- The contracts (contracts): the development kit, the token and the bridge.
pub mod Sdk
pub mod Token
pub mod Bridge
mod Tests
