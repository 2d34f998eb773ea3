-- ===== src/Vm/Context.antt =====
-- crates/vm/src/context.rs: what a contract call reads, and the journal of what it writes. A balance
-- delta is an i128, kept as its 128 bits; `signed_sum` is `(base as i128 + delta).max(0) as u128`.
pub mod Balances
use rustblockchain.Base.{
  ℕ, ◌+◌, ◌-◌, ◌%◌, ◌^◌, Bool, true, false, Option, none, some, List, [], ◌∷◌, ◌++◌, if◌then◌else◌,
  Eq, ◌==◌, nat_eq, pair_eq, ltb, leb, unwrap_or, add128, sub128,
}
use rustblockchain.Base.Dict.{Dict, lookup, insert, update_or}
use rustblockchain.Base.Text.{Text, text, text_eq, decimal}
use rustblockchain.Base.Result.{Result, ok, err, err_if, ◌>>=◌, ◌>>◌}
use rustblockchain.Base.Action.{Action}
use rustblockchain.Core.Account.{Account}
use rustblockchain.Core.Receipt.{EventLog}
use rustblockchain.Vm.Error.{VmError, host_function, call_depth_exceeded}
use rustblockchain.Vm.Gas
use rustblockchain.Vm.Gas.{GasMeter}

-- The trait through which a call reads the state.
pub record StateReader : Type 0 where
  pub get_account : ℕ → Result VmError (Option Account)
  pub get_storage : ℕ → Text → Result VmError (Option Text)
  pub get_code : ℕ → Result VmError (Option Text)

pub record ExecutionContext : Type 0 where
  pub caller : ℕ
  pub origin : ℕ
  pub contract_address : ℕ
  pub value : ℕ
  pub block_number : ℕ
  pub block_timestamp : ℕ
  pub chain_id : ℕ
  pub gas_meter : GasMeter
  pub call_depth : ℕ
  pub max_call_depth : ℕ
  pub logs : List EventLog
  pub storage_changes : Dict (ℕ × Text) (Option Text)
  pub balance_changes : Dict ℕ ℕ
  pub state_reader : StateReader
  pub return_data : Text

unfoldable pub new :
    (caller origin contract_address value block_number block_timestamp chain_id gas_limit : ℕ)
    → StateReader
    → ExecutionContext
new caller origin contract_address value block_number block_timestamp chain_id gas_limit reader =
    record {
      caller = caller;
      origin = origin;
      contract_address = contract_address;
      value = value;
      block_number = block_number;
      block_timestamp = block_timestamp;
      chain_id = chain_id;
      gas_meter = Gas.new gas_limit;
      call_depth = 0;
      max_call_depth = 256;
      logs = [];
      storage_changes = [];
      balance_changes = [];
      state_reader = reader;
      return_data = [];
    }

unfoldable pub storage_read : ℕ → Text → ExecutionContext → Result VmError (Option Text)
storage_read addr key c = elim (lookup (addr, key) c.storage_changes) [
  | some value ↦ ok value
  | none ↦ c.state_reader.get_storage addr key
]

unfoldable pub storage_write : ℕ → Text → Text → ExecutionContext → ExecutionContext
storage_write addr key value c = record c {
  storage_changes = insert (addr, key) (some value) c.storage_changes;
}

unfoldable pub storage_delete : ℕ → Text → ExecutionContext → ExecutionContext
storage_delete addr key c = record c { storage_changes = insert (addr, key) none c.storage_changes }

abbrev pub i128_min : ℕ
i128_min = 2 ^ 127

-- The sign bit tells a sum below zero, which counts as zero.
abbrev pub signed_sum : ℕ → ℕ → ℕ
signed_sum base delta = let sum = add128 base delta in if leb i128_min sum then 0 else sum

abbrev pub base_balance : Option Account → ℕ
base_balance none = 0
base_balance (some a) = a.balance

abbrev pub delta_of : ExecutionContext → ℕ → ℕ
delta_of c addr = unwrap_or (lookup addr c.balance_changes) 0

unfoldable pub get_balance : ℕ → ExecutionContext → Result VmError ℕ
get_balance addr c = do
  a ← c.state_reader.get_account addr
  ok (signed_sum (base_balance a) (delta_of c addr))

-- The two deltas are changed one after the other.
abbrev pub move_balance : (from to amount : ℕ) → ExecutionContext → ExecutionContext
move_balance from to amount c = record c {
  balance_changes =
      update_or to 0 (λ d. add128 d amount)
        (update_or from 0 (λ d. sub128 d amount) c.balance_changes);
}

abbrev pub insufficient : ℕ → ℕ → VmError
insufficient have need =
    host_function
      (text "insufficient balance: have " ++ (decimal have ++ (text ", need " ++ decimal need)))

unfoldable pub transfer :
    (from to amount : ℕ) → ExecutionContext → Result VmError (Unit {0}) × ExecutionContext
transfer from to amount c = elim (get_balance from c) [
  | err e ↦ (err e, c)
  | ok balance ↦
      if ltb balance amount
      then (err (insufficient balance amount), c)
      else (ok tt, move_balance from to amount c)
]

unfoldable pub emit_event : EventLog → ExecutionContext → ExecutionContext
emit_event log c = record c { logs = c.logs ++ log ∷ [] }

unfoldable pub check_call_depth : ExecutionContext → Result VmError (Unit {0})
check_call_depth c =
    err_if (leb c.max_call_depth c.call_depth) (call_depth_exceeded c.max_call_depth)
