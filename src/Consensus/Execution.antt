-- ===== src/Consensus/Execution.antt =====
-- crates/consensus/src/state.rs: how a block's transactions are executed one after the other. The
-- ledger holds the accounts and the validators, the database the contracts; the virtual machine's
-- modules are cached in its engine. Writes to the database succeed here; a failed one of a contract
-- is ignored by the code.
pub mod Calls
pub mod Names
pub mod Kept
pub mod Replays
mod Tests
use rustblockchain.Base.{
  ℕ, ◌+◌, Bool, true, false, Option, none, some, List, [], ◌∷◌, ◌++◌, unwrap_or, add64, mul64,
  saturating_sub, nat_eq,
}
use rustblockchain.Base.Dict.{Dict, lookup, insert}
use rustblockchain.Base.Text.{Text}
use rustblockchain.Base.Result.{Result, ok, err}
use rustblockchain.Crypto.Hash.{Primitives}
use rustblockchain.Core.Account
use rustblockchain.Core.Account.{Account}
use rustblockchain.Core.Block.{BlockHeader}
use rustblockchain.Core.Receipt.{
  TxStatus, success, failure, out_of_gas, EventLog, TransactionReceipt,
}
use rustblockchain.Core.Transaction.{
  Transaction, SignedTransaction, TxType, transfer, contract_deploy, contract_call, stake, unstake,
}
use rustblockchain.Storage
use rustblockchain.Storage.{
  ChainDatabase, get_contract_storage, get_contract_code, put_contract_code, put_contract_storage,
  delete_contract_storage,
}
use rustblockchain.Vm.Error.{VmError}
use rustblockchain.Vm.Context
use rustblockchain.Vm.Context.{StateReader, ExecutionContext, signed_sum}
use rustblockchain.Vm.Engine.{
  Wasmtime, WasmEngine, DeployResult, CallResult, deploy_contract, call_contract,
}
use rustblockchain.Consensus.Ledger
use rustblockchain.Consensus.Ledger.{
  Ledger, Failure, Outcome, or_else, load, put, prepare, credit, debit, base_gas, apply_transfer,
  apply_stake, apply_unstake,
}
use rustblockchain.Consensus.Execution.Names.{extract_function_name}

-- What a failed receipt's text says.
pub data Cause : Type 0 where
  ledger_failure : Failure → Cause
  vm_failure : VmError → Cause
  target_not_contract contract_not_found : Cause

-- The part of a receipt that the execution decides.
pub record Report : Type 0 where
  pub status : TxStatus Cause
  pub gas_used : ℕ
  pub logs : List EventLog
  pub contract_address : Option ℕ
  pub return_data : Text

pub record World (Module : Type 0) : Type 0 where
  pub ledger : Ledger
  pub storage : ChainDatabase Cause
  pub engine : WasmEngine Module

-- A report with no logs, no address and no data.
abbrev pub bare : TxStatus Cause → ℕ → Report
bare status gas = record {
  status = status;
  gas_used = gas;
  logs = [];
  contract_address = none;
  return_data = [];
}

abbrev pub outcome_status : Outcome → TxStatus Cause
outcome_status o = elim o.failure [ none ↦ success | some f ↦ failure (ledger_failure f) ]

abbrev pub call_status : TxStatus VmError → TxStatus Cause
call_status success = success
call_status (failure e) = failure (vm_failure e)
call_status out_of_gas = out_of_gas

abbrev pub state_reader : ChainDatabase Cause → StateReader
state_reader db = record {
  get_account = λ addr. ok (Storage.get_account addr db);
  get_storage = λ addr key. ok (get_contract_storage addr key db);
  get_code = λ code_hash. ok (get_contract_code code_hash db);
}

abbrev pub refund_after : ℕ → Transaction → ℕ
refund_after gas_used t = mul64 (saturating_sub t.gas_limit gas_used) t.gas_price

abbrev pub apply_balance_changes : Dict ℕ ℕ → Ledger → Ledger
apply_balance_changes [] l = l
apply_balance_changes ((addr, delta) ∷ rest) l =
    let a = load l addr in
    apply_balance_changes rest (put addr (record a { balance = signed_sum a.balance delta }) l)

abbrev pub apply_storage_changes :
    Dict (ℕ × Text) (Option Text) → ChainDatabase Cause → ChainDatabase Cause
apply_storage_changes [] db = db
apply_storage_changes (((addr, key), some value) ∷ rest) db =
    apply_storage_changes rest (put_contract_storage addr key value db)
apply_storage_changes (((addr, key), none) ∷ rest) db =
    apply_storage_changes rest (delete_contract_storage addr key db)

module _ {Module : Type 0} where
  abbrev pub with_ledger : Ledger → World Module → World Module
  with_ledger l w = record w { ledger = l }

  abbrev pub context_for : BlockHeader → Transaction → ℕ → World Module → ExecutionContext
  context_for h t contract w =
      Context.new t.from t.from contract t.value h.number h.timestamp h.chain_id t.gas_limit
        (state_reader w.storage)

  -- What the journal of a call changes.
  abbrev pub flush_changes : ExecutionContext → World Module → World Module
  flush_changes x w = record w {
    ledger = apply_balance_changes x.balance_changes w.ledger;
    storage = apply_storage_changes x.storage_changes w.storage;
  }

  abbrev pub apply_deployed :
      SignedTransaction
      → Account
      → DeployResult
      → ExecutionContext
      → World Module
      → Report × World Module
  apply_deployed s sender r x w =
      let t = s.transaction in
      let stored = record w {
        ledger =
            put r.contract_address (Account.new_contract r.contract_address t.value r.code_hash)
              w.ledger;
        storage = put_contract_code r.code_hash t.data_bytes w.storage;
      } in
      let flushed = flush_changes x stored in
      (
        record {
          status = success;
          gas_used = r.gas_used;
          logs = r.logs;
          contract_address = some r.contract_address;
          return_data = [];
        },
        with_ledger
            (put t.from (credit (refund_after r.gas_used t) (debit t.value sender)) flushed.ledger)
            flushed,
      )

  -- A call that fails changes no contract.
  abbrev pub apply_called :
      SignedTransaction
      → Account
      → CallResult
      → ExecutionContext
      → World Module
      → Report × World Module
  apply_called s sender r x w =
      let t = s.transaction in
      let flushed : World Module = elim r.status [
        | success ↦ flush_changes x w
        | failure e ↦ w
        | out_of_gas ↦ w
      ] in
      (
        record {
          status = call_status r.status;
          gas_used = r.gas_used;
          logs = r.logs;
          contract_address = none;
          return_data = r.return_data;
        },
        with_ledger (put t.from (credit (refund_after r.gas_used t) sender) flushed.ledger) flushed,
      )

  -- The sender's account is written back with the gas paid for and nothing refunded.
  abbrev pub keep_charged : SignedTransaction → Account → World Module → World Module
  keep_charged s sender w = with_ledger (put s.transaction.from sender w.ledger) w

  abbrev pub on_ledger : (Ledger → Outcome × Ledger) → World Module → Report × World Module
  on_ledger f w = let (o, l) = f w.ledger in (bare (outcome_status o) o.gas_used, with_ledger l w)

  module _ (m : Wasmtime Module) (c : Primitives) (to_hex : ℕ → Text) where
    unfoldable pub apply_deploy :
        BlockHeader → SignedTransaction → World Module → Report × World Module
    apply_deploy h s w = elim (prepare w.ledger s) [
      | err f ↦ (bare (failure (ledger_failure f)) 0, w)
      | ok sender ↦
          let t = s.transaction in
          let (r, e, x) = deploy_contract m c t.data_bytes [] w.engine (context_for h t 0 w) in
          let w' = record w { engine = e } in
          elim r [
            | ok deployed ↦ apply_deployed s sender deployed x w'
            | err f ↦ (bare (failure (vm_failure f)) t.gas_limit, keep_charged s sender w')
          ]
    ]

    unfoldable pub call_code :
        BlockHeader
        → SignedTransaction
        → Account
        → (to code_hash : ℕ) → World Module
        → Report × World Module
    call_code h s sender to code_hash w =
        let t = s.transaction in
        let (name, args) = extract_function_name t.data_bytes in
        let (r, e, x) =
          call_contract m c code_hash to_hex name args w.engine (context_for h t to w) in
        let w' = record w { engine = e } in
        elim r [
          | ok called ↦ apply_called s sender called x w'
          | err f ↦ (bare (failure (vm_failure f)) t.gas_limit, keep_charged s sender w')
        ]

    unfoldable pub apply_call :
        BlockHeader → SignedTransaction → World Module → Report × World Module
    apply_call h s w = elim (prepare w.ledger s) [
      | err f ↦ (bare (failure (ledger_failure f)) 0, w)
      | ok sender ↦
          let t = s.transaction in
          let to = unwrap_or t.to 0 in
          elim (or_else (lookup to w.ledger.modified) (lookup to w.ledger.stored)) [
            | none ↦ (bare (failure contract_not_found) base_gas, keep_charged s sender w)
            | some target ↦ elim target.code_hash [
              | none ↦ (bare (failure target_not_contract) base_gas, keep_charged s sender w)
              | some code_hash ↦ call_code h s sender to code_hash w
            ]
          ]
    ]

    unfoldable pub apply_transaction :
        BlockHeader → SignedTransaction → World Module → Report × World Module
    apply_transaction h s w = elim s.transaction.tx_type [
      | transfer ↦ on_ledger (apply_transfer s) w
      | contract_deploy ↦ apply_deploy h s w
      | contract_call ↦ apply_call h s w
      | stake ↦ on_ledger (apply_stake s) w
      | unstake ↦ on_ledger (apply_unstake s) w
    ]

    abbrev pub receipt_of :
        BlockHeader → (block_hash i : ℕ) → SignedTransaction → Report → TransactionReceipt Cause
    receipt_of h block_hash i s r = record {
      tx_hash = s.tx_hash;
      block_number = h.number;
      block_hash = block_hash;
      index = i;
      status = r.status;
      gas_used = r.gas_used;
      logs = r.logs;
      contract_address = r.contract_address;
      return_data = r.return_data;
    }

    -- The loop over the transactions, from position `i` on.
    unfoldable pub execute_from :
        BlockHeader
        → (block_hash i : ℕ) → List SignedTransaction
        → World Module
        → List (TransactionReceipt Cause) × World Module
    execute_from h block_hash i [] w = ([], w)
    execute_from h block_hash i (s ∷ rest) w =
        let (r, w') = apply_transaction h s w in
        let (receipts, w'') = execute_from h block_hash (i + 1) rest w' in
        (receipt_of h block_hash i s r ∷ receipts, w'')
