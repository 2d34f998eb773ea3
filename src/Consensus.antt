-- ===== src/Consensus.antt =====
-- The consensus crate (crates/consensus/src): finality, slashing, proposer selection, the transaction
-- pool, the chain state with its ledger, execution and epochs, and the engine that drives them.
pub mod Finality
pub mod Slashing
pub mod Proposer
pub mod TxPool
pub mod Ledger
pub mod Execution
pub mod Chain
pub mod Engine
mod Samples
mod Tests
