-- ===== src/Vm/Engine.antt =====
-- crates/vm/src/engine.rs: contracts are compiled, cached, deployed and called. Wasmtime is another
-- crate's code: `Wasmtime` holds what the engine gets from it.
pub mod Calls
pub mod Host
use rustblockchain.Base.{
  ◌*◌, ◌%◌, ◌^◌, ◌==◌, ℕ, ◌-◌, Bool, true, false, Option, none, some, List, [], ◌∷◌, ◌++◌,
  if◌then◌else◌, Eq, nat_eq, ltb, length, take, sub64,
}
use rustblockchain.Base.Dict.{Dict, lookup, insert}
use rustblockchain.Base.Text.{Text, text}
use rustblockchain.Base.Bytes.{le_bytes, from_le}
use rustblockchain.Base.Result.{Result, ok, err, err_if, ◌>>=◌, ◌>>◌}
use rustblockchain.Crypto.Hash.{Primitives, hash, hash_multiple}
use rustblockchain.Core.Receipt.{EventLog, TxStatus, success, failure, out_of_gas as ran_out}
use rustblockchain.Vm.Error
use rustblockchain.Vm.Error.{VmError}
use rustblockchain.Vm.Gas.{GasCosts, default_costs, remaining}
use rustblockchain.Vm.Context
use rustblockchain.Vm.Context.{ExecutionContext, StateReader}

pub record VmConfig : Type 0 where
  pub max_memory_pages : ℕ
  pub max_call_depth : ℕ
  pub max_code_size : ℕ
  pub max_stack_size : ℕ
  pub fuel_metering : Bool

abbrev pub default_config : VmConfig
default_config = record {
  max_memory_pages = 256;
  max_call_depth = 256;
  max_code_size = 262144;
  max_stack_size = 1048576;
  fuel_metering = true;
}

pub record DeployResult : Type 0 where
  pub contract_address : ℕ
  pub code_hash : ℕ
  pub gas_used : ℕ
  pub logs : List EventLog

pub record CallResult : Type 0 where
  pub return_data : Text
  pub gas_used : ℕ
  pub logs : List EventLog
  pub status : TxStatus VmError

pub record HostState : Type 0 where
  pub context : ExecutionContext
  pub gas_costs : GasCosts

-- What the engine gets from Wasmtime. A store holds the host state and one instance of a module.
pub record Wasmtime (Module : Type 0) : Type 1 where
  pub Store : Type 0
  pub validate : Text → Result Text (Unit {0})
  pub compile : Text → Result Text Module
  -- A store with the host state and the fuel, and in it an instance linked to the host functions.
  pub instantiate : (fuel : Option ℕ) → HostState → Module → Result Text Store
  -- A call of an exported function on i32s; `none` if there is none with the name and the type.
  pub call : (name : Text) → (args : List ℕ) → Store → Option (Result Text ℕ × Store)
  -- A write to the exported memory, or its size in pages if it does not fit; `none` without a memory.
  pub write : (ptr : ℕ) → Text → Store → Option (Result ℕ Store)
  pub host_state : Store → HostState

pub record WasmEngine (Module : Type 0) : Type 0 where
  pub module_cache : Dict ℕ Module
  pub config : VmConfig
  pub gas_costs : GasCosts

unfoldable pub new : {Module : Type 0} → VmConfig → WasmEngine Module
new config = record { module_cache = []; config = config; gas_costs = default_costs }

abbrev pub compiled {ℓ} : {A : Type ℓ} → (Text → VmError) → Result Text A → Result VmError A
compiled f (ok a) = ok a
compiled f (err e) = err (f e)

-- The context that stands in for one that has moved into the store.
abbrev pub blank : ExecutionContext → ExecutionContext
blank x = Context.new 0 0 0 0 0 0 0 0 x.state_reader

abbrev pub contract_of : Primitives → ExecutionContext → ℕ
contract_of c x = from_le (
    take 20 (le_bytes 32 (hash_multiple c (le_bytes 20 x.caller ∷ le_bytes 8 x.block_number ∷ []))))

module _ {Module : Type 0} (w : Wasmtime Module) (c : Primitives) where
  unfoldable pub validate_module : WasmEngine Module → Text → Result VmError (Unit {0})
  validate_module e bytecode =
      err_if (ltb e.config.max_code_size (length bytecode))
        (Error.code_too_large e.config.max_code_size (length bytecode))
      >> compiled Error.invalid_module (w.validate bytecode)

  -- The compiled module and the engine that has it in its cache.
  unfoldable pub compile_module :
      WasmEngine Module → Text → Result VmError (Module × WasmEngine Module)
  compile_module e bytecode = elim (lookup (hash c bytecode) e.module_cache) [
    | some cached ↦ ok (cached, e)
    | none ↦ do
      validate_module e bytecode
      m ← compiled Error.compilation (w.compile bytecode)
      ok (m, record e { module_cache = insert (hash c bytecode) m e.module_cache })
  ]

  -- A call whose result is its lowest byte.
  abbrev pub called : (name : Text) → (args : List ℕ) → w.Store → Result VmError (Text × w.Store)
  called name args store = elim (w.call name args store) [
    | none ↦ err (Error.function_not_found name)
    | some (err e, after) ↦ err (Error.trap e)
    | some (ok n, after) ↦ ok (n % 256 ∷ [], after)
  ]

  -- The arguments are written where the contract's allocator says, if it has one.
  abbrev pub with_arguments : (name args : Text) → w.Store → Result VmError (Text × w.Store)
  with_arguments name args store =
      let len = length args % 2 ^ 32 in
      elim (w.call (text "allocate") (len ∷ []) store) [
        | none ↦ called name [] store
        | some (err e, after) ↦ err (Error.execution e)
        | some (ok ptr, after) ↦ elim (w.write ptr args after) [
          | none ↦ err (Error.execution (text "no memory export"))
          | some (err pages) ↦ err (Error.memory_out_of_bounds ptr len (pages * 65536 % 2 ^ 32))
          | some (ok written) ↦ called name (ptr ∷ len ∷ []) written
        ]
      ]

  -- What happens in the store: the host state comes back only from a call that succeeds.
  unfoldable pub run :
      WasmEngine Module
      → Module
      → (function args : Text) → HostState
      → Result VmError (Text × HostState)
  run e m function args host =
      let fuel = if e.config.fuel_metering then some (remaining host.context.gas_meter) else none in
      elim (w.instantiate fuel host m) [
        | err x ↦ err (Error.execution x)
        | ok store ↦
            let r =
              if length args == 0
              then called function [] store
              else with_arguments function args store in
            elim r [ err f ↦ err f | ok (bytes, after) ↦ ok (bytes, w.host_state after) ]
      ]

  -- The context moves into the store; it moves back only if the call succeeds.
  unfoldable pub execute_function :
      WasmEngine Module
      → Module
      → (function args : Text) → ExecutionContext
      → Result VmError Text × ExecutionContext
  execute_function e m function args x =
      elim (run e m function args (record { context = x; gas_costs = e.gas_costs })) [
        | ok (bytes, host) ↦ (ok bytes, host.context)
        | err f ↦ (err f, blank x)
      ]

  -- Whether the constructor ended well or there was none.
  abbrev pub constructed : Result VmError Text → Result VmError (Unit {0})
  constructed (ok bytes) = ok tt
  constructed (err f) = elim f [ Error.function_not_found name ↦ ok tt | other ↦ err other ]

  abbrev pub take_logs : ExecutionContext → ExecutionContext
  take_logs x = record x { logs = [] }

  unfoldable pub deploy_contract :
      (code args : Text)
      → WasmEngine Module
      → ExecutionContext
      → Result VmError DeployResult × WasmEngine Module × ExecutionContext
  deploy_contract code args e x = elim (compile_module e code) [
    | err f ↦ (err f, e, x)
    | ok (m, e') ↦
        let before = x.gas_meter.consumed in
        let (r, x') =
          execute_function e' m (text "init") args
            (record x { contract_address = contract_of c x }) in
        elim (constructed r) [
          | err f ↦ (err f, e', x')
          | ok u ↦ (
            ok (record {
              contract_address = contract_of c x;
              code_hash = hash c code;
              gas_used = sub64 x'.gas_meter.consumed before;
              logs = x'.logs;
            }),
            e',
            take_logs x',
          )
        ]
  ]

  -- A cached module, or the one that the stored code compiles to.
  unfoldable pub load_module :
      ℕ
      → (ℕ → Text)
      → WasmEngine Module
      → ExecutionContext
      → Result VmError (Module × WasmEngine Module)
  load_module code_hash to_hex e x = elim (lookup code_hash e.module_cache) [
    | some cached ↦ ok (cached, e)
    | none ↦ do
      code ← x.state_reader.get_code code_hash
      elim code [
        | none ↦ err (Error.contract_not_found (to_hex code_hash))
        | some bytecode ↦ compile_module e bytecode
      ]
  ]

  abbrev pub failed_call : ℕ → VmError → ExecutionContext → CallResult
  failed_call before (Error.out_of_gas limit used) x = record {
    return_data = [];
    gas_used = limit;
    logs = [];
    status = ran_out;
  }
  failed_call before f x = record {
    return_data = [];
    gas_used = sub64 x.gas_meter.consumed before;
    logs = [];
    status = failure f;
  }

  unfoldable pub call_contract :
      ℕ
      → (ℕ → Text)
      → (function args : Text) → WasmEngine Module
      → ExecutionContext
      → Result VmError CallResult × WasmEngine Module × ExecutionContext
  call_contract code_hash to_hex function args e x = elim (load_module code_hash to_hex e x) [
    | err f ↦ (err f, e, x)
    | ok (m, e') ↦
        let before = x.gas_meter.consumed in
        let (r, x') = execute_function e' m function args x in
        elim r [
          | err f ↦ (ok (failed_call before f x'), e', x')
          | ok bytes ↦ (
            ok (record {
              return_data = bytes;
              gas_used = sub64 x'.gas_meter.consumed before;
              logs = x'.logs;
              status = success;
            }),
            e',
            take_logs x',
          )
        ]
  ]
