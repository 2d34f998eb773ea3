-- ===== src/Vm/Error.antt =====
-- crates/vm/src/error.rs: the errors of the virtual machine. Sizes and counts are numbers; a text is
-- what the code prints.
use rustblockchain.Base.{ℕ}
use rustblockchain.Base.Text.{Text}

pub data VmError : Type 0 where
  compilation execution invalid_module function_not_found contract_not_found : Text → VmError
  host_function trap state : Text → VmError
  out_of_gas : (limit used : ℕ) → VmError
  memory_out_of_bounds : (offset len memory_size : ℕ) → VmError
  call_depth_exceeded : (max : ℕ) → VmError
  code_too_large : (max got : ℕ) → VmError
