-- ===== src/Vm.antt =====
-- The virtual machine crate (crates/vm/src): the gas meter, the execution context of a call, and the
-- engine that runs contracts in it.
pub mod Error
pub mod Gas
pub mod Context
pub mod Engine
mod Tests
