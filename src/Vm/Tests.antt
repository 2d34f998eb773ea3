-- ===== src/Vm/Tests.antt =====
-- Tests of the virtual machine and the instances of its theorems.
use rustblockchain.Base.{ℕ, ◌≡◌, ◌≢◌, refl, true, none, some, [], ◌∷◌, arith}
use rustblockchain.Base.Text.{text}
use rustblockchain.Base.Result.{ok, err}
use rustblockchain.Crypto.Hash.{Primitives}
use rustblockchain.Core.Receipt.{failure}
use rustblockchain.Vm.Error
use rustblockchain.Vm.Error.{VmError}
use rustblockchain.Vm.Gas
use rustblockchain.Vm.Gas.{consume, default_costs}
use rustblockchain.Vm.Context
use rustblockchain.Vm.Context.{ExecutionContext, StateReader}
use rustblockchain.Vm.Engine.{
  Wasmtime, WasmEngine, HostState, default_config, blank, run, load_module, call_contract,
}
use rustblockchain.Vm.Engine.Calls.{call_contract_failed}

abbrev primitives : Primitives
primitives = record { blake3 = λ bytes. 0; ed25519 = λ key message signature. true }

abbrev reader : StateReader
reader = record {
  get_account = λ addr. ok none;
  get_storage = λ addr key. ok none;
  get_code = λ code_hash. ok none;
}

-- A contract that spends 700 units of gas, and traps.
abbrev spent : HostState → HostState
spent host = record host {
  context = record host.context { gas_meter = record host.context.gas_meter { consumed = 700 } };
}

abbrev wasm : Wasmtime (Unit {0})
wasm = record {
  Store = HostState;
  validate = λ code. ok tt;
  compile = λ code. ok tt;
  instantiate = λ fuel host m. ok host;
  call = λ name args store. some (err (text "unreachable"), spent store);
  write = λ ptr bytes store. some (ok store);
  host_state = λ store. store;
}

abbrev trap : VmError
trap = Error.trap (text "unreachable")

abbrev engine : WasmEngine (Unit {0})
engine = record { module_cache = (7, tt) ∷ []; config = default_config; gas_costs = default_costs }

abbrev call : ExecutionContext
call = Context.new 1 1 2 0 1 0 1 30000 reader

loaded_test : load_module wasm primitives 7 (λ n. []) engine call ≡ ok (tt, engine)
unfolding load_module
loaded_test = refl

trap_test :
    run wasm primitives engine tt
      (text "run")
      []
      (record { context = call; gas_costs = default_costs })
    ≡ err trap
unfolding run
trap_test = refl

unused_test : call.gas_meter.consumed ≡ 0
unfolding Context.new Gas.new
unused_test = refl

trap_ne : (limit used : ℕ) → trap ≢ Error.out_of_gas limit used
trap_ne limit used e = ground arith

call_contract_failed_example :
    call_contract wasm primitives 7 (λ n. []) (text "run") [] engine call ≡ (
      ok (record { return_data = []; gas_used = 0; logs = []; status = failure trap }),
      engine,
      blank call,
    )
call_contract_failed_example =
    call_contract_failed wasm primitives 7 (λ n. []) (text "run") [] engine engine tt call trap
      loaded_test trap_test unused_test trap_ne
