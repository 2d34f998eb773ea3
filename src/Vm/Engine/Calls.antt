-- ===== src/Vm/Engine/Calls.antt =====
-- What deployments and calls of crates/vm/src/engine.rs cost, and where they put a contract.
use rustblockchain.Base.{
  ℕ, ◌≤◌, ◌≡◌, ◌≢◌, ◌⊎◌, refl, sym, ◌∙◌, inl, inr, some, [], arith, nat_eq, length, Option-cases,
}
use rustblockchain.Base.Dict.{lookup, lookup-insert_self}
use rustblockchain.Base.Text.{Text, text, text_eq}
use rustblockchain.Base.Result.{ok, err, Result-cases}
use rustblockchain.Crypto.Hash.{Primitives, hash}
use rustblockchain.Core.Receipt.{failure}
use rustblockchain.Vm.Error
use rustblockchain.Vm.Error.{VmError}
use rustblockchain.Vm.Gas
use rustblockchain.Vm.Gas.{GasMeter, remaining, consume}
use rustblockchain.Vm.Context
use rustblockchain.Vm.Context.{ExecutionContext, storage_read}
use rustblockchain.Vm.Engine.{
  Wasmtime, WasmEngine, DeployResult, run, validate_module, compile_module, execute_function,
  deploy_contract, call_contract, load_module, failed_call, contract_of, blank, constructed,
}

module _ {Module : Type 0} (w : Wasmtime Module) (c : Primitives) where
  -- What compiled comes from the cache or is within the size limit and valid, and then stands in the
  -- cache, so that compiling it again gives the same module and changes nothing.
  pub compile_module_again :
      (e e' : WasmEngine Module) (m : Module) (bytecode : Text)
      → compile_module w c e bytecode ≡ ok (m, e')
      → (compile_module w c e' bytecode ≡ ok (m, e'))
        × ((lookup (hash c bytecode) e.module_cache ≡ some m)
            ⊎ ((length bytecode ≤ e.config.max_code_size)
                × (w.validate bytecode ≡ ok tt)
                × (w.compile bytecode ≡ ok m)))
  unfolding compile_module validate_module
  compile_module_again e e' m bytecode h =
      elim (Option-cases (lookup (hash c bytecode) e.module_cache)) [
        | inr (cached, known) ↦ ground arith
        | inl fresh ↦ elim (Result-cases (w.validate bytecode)) [
          | inr (x, bad) ↦ ground arith
          | inl (u, good) ↦ elim (Result-cases (w.compile bytecode)) [
            | inr (x, bad) ↦ ground arith
            | inl (m', built) ↦
                ground (arith, lookup-insert_self (hash c bytecode) m' e.module_cache)
          ]
        ]
      ]

  pub deploy-contract_of :
      (code args : Text) (e : WasmEngine Module) (x : ExecutionContext) (r : DeployResult)
      → (deploy_contract w c code args e x).0 ≡ ok r
      → r.contract_address ≡ contract_of c x
  unfolding deploy_contract
  deploy-contract_of code args e x r d = elim (Result-cases (compile_module w c e code)) [
    | inr (f, bad) ↦ ground arith
    | inl ((m, e'), good) ↦
        elim (Result-cases (
          constructed w c
            (execute_function w c e' m (text "init") args
              (record x { contract_address = contract_of c x })).0)) [
                | inr (f, bad) ↦ ground arith
                | inl (u, built) ↦ ground arith
              ]
  ]

  -- A contract's address is made of the caller and the block number: whatever a caller deploys in one
  -- block, in whatever state, gets the same address.
  pub deploy_contract_address :
      (code other args : Text) (e f : WasmEngine Module) (x y : ExecutionContext)
      (r s : DeployResult)
      → x.caller ≡ y.caller
      → x.block_number ≡ y.block_number
      → (deploy_contract w c code [] e x).0 ≡ ok r
      → (deploy_contract w c other args f y).0 ≡ ok s
      → r.contract_address ≡ s.contract_address
  deploy_contract_address code other args e f x y r s caller block d d' =
      let same : contract_of c x ≡ contract_of c y = cc in
      deploy-contract_of code [] e x r d ∙ same ∙ sym (deploy-contract_of other args f y s d')

  failed_call-blank :
      (f : VmError) (x : ExecutionContext)
      → ((limit used : ℕ) → f ≢ Error.out_of_gas limit used)
      → failed_call w c 0 f (blank x)
        ≡ record { return_data = []; gas_used = 0; logs = []; status = failure f }
  unfolding Context.new Gas.new
  failed_call-blank (Error.out_of_gas limit used) x g = absurd (g limit used refl)
  failed_call-blank f x g = refl

  -- A call that fails in the instance costs nothing, whatever it used: the context with the meter is
  -- gone, and a new one has consumed no gas. Stated for a call that starts with a fresh meter, and a
  -- failure that is none of gas.
  pub call_contract_failed :
      (code_hash : ℕ) (to_hex : ℕ → Text) (function args : Text) (e e' : WasmEngine Module)
      (m : Module) (x : ExecutionContext) (f : VmError)
      → load_module w c code_hash to_hex e x ≡ ok (m, e')
      → run w c e' m function args (record { context = x; gas_costs = e'.gas_costs }) ≡ err f
      → x.gas_meter.consumed ≡ 0
      → ((limit used : ℕ) → f ≢ Error.out_of_gas limit used)
      → call_contract w c code_hash to_hex function args e x ≡ (
        ok (record { return_data = []; gas_used = 0; logs = []; status = failure f }),
        e',
        blank x,
      )
  unfolding call_contract execute_function Context.new Gas.new
  call_contract_failed code_hash to_hex function args e e' m x f l r z g =
      ground (arith, failed_call-blank f x g)
