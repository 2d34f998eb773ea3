-- ===== src/Vm/Gas.antt =====
-- crates/vm/src/gas.rs: the gas meter.
pub mod Metering
mod Tests
use rustblockchain.Base.{
  ℕ, ◌-◌, Bool, true, false, if◌then◌else◌, ltb, leb, saturating_add64, saturating_sub,
}
use rustblockchain.Base.Result.{Result, ok, err}
use rustblockchain.Base.Action.{Action}
use rustblockchain.Vm.Error.{VmError, out_of_gas}

pub record GasMeter : Type 0 where
  pub limit : ℕ
  pub consumed : ℕ

unfoldable pub new : ℕ → GasMeter
new limit = record { limit = limit; consumed = 0 }

unfoldable pub consume : ℕ → Action VmError GasMeter (Unit {0})
consume amount m =
    let new_consumed = saturating_add64 m.consumed amount in
    if ltb m.limit new_consumed
    then (err (out_of_gas m.limit new_consumed), record m { consumed = m.limit })
    else (ok tt, record m { consumed = new_consumed })

unfoldable pub remaining : GasMeter → ℕ
remaining m = saturating_sub m.limit m.consumed

unfoldable pub is_exhausted : GasMeter → Bool
is_exhausted m = leb m.limit m.consumed

-- The costs of host operations.
pub record GasCosts : Type 0 where
  pub storage_read : ℕ
  pub storage_write : ℕ
  pub storage_delete : ℕ
  pub balance_check : ℕ
  pub transfer : ℕ
  pub hash_blake3 : ℕ
  pub hash_per_byte : ℕ
  pub event_base : ℕ
  pub event_per_topic : ℕ
  pub event_per_byte : ℕ
  pub call_base : ℕ
  pub memory_page : ℕ
  pub wasm_instruction : ℕ

abbrev pub default_costs : GasCosts
default_costs = record {
  storage_read = 200;
  storage_write = 5000;
  storage_delete = 5000;
  balance_check = 100;
  transfer = 2300;
  hash_blake3 = 30;
  hash_per_byte = 6;
  event_base = 375;
  event_per_topic = 375;
  event_per_byte = 8;
  call_base = 700;
  memory_page = 3;
  wasm_instruction = 1;
}
