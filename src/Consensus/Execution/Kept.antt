-- ===== src/Consensus/Execution/Kept.antt =====
-- The parts of the database that the transactions of crates/consensus/src/state.rs leave alone.
use rustblockchain.Base.{
  ℕ, ◌+◌, ◌≡◌, inl, inr, refl, ◌∙◌, Option, none, some, List, [], ◌∷◌, unwrap_or, Option-cases,
  nat_eq,
}
use rustblockchain.Base.Dict.{Dict, lookup}
use rustblockchain.Base.Text.{Text}
use rustblockchain.Base.Result.{Result-cases}
use rustblockchain.Crypto.Hash.{Primitives}
use rustblockchain.Core.Account.{Account}
use rustblockchain.Core.Block.{Block, BlockHeader}
use rustblockchain.Core.Receipt.{success, failure, out_of_gas}
use rustblockchain.Core.Transaction.{SignedTransaction, TxType-cases}
use rustblockchain.Storage.{
  ChainDatabase, put_contract_storage, delete_contract_storage, put_contract_code,
}
use rustblockchain.Vm.Engine.{Wasmtime, CallResult, deploy_contract, call_contract}
use rustblockchain.Vm.Context.{ExecutionContext}
use rustblockchain.Consensus.Ledger.{or_else, prepare}
use rustblockchain.Consensus.Execution.{
  World, Cause, apply_deploy, apply_call, apply_called, call_code, apply_transaction,
  apply_storage_changes, execute_from, context_for,
}
use rustblockchain.Consensus.Execution.Names.{extract_function_name}

-- The stored blocks and the genesis hash.
abbrev pub chain_part : {F : Type 0} → ChainDatabase F → Dict Text Block × Option ℕ
chain_part db = (db.blocks, db.genesis_hash)

storage_changes_kept :
    (changes : Dict (ℕ × Text) (Option Text)) (db : ChainDatabase Cause)
    → chain_part (apply_storage_changes changes db) ≡ chain_part db
unfolding put_contract_storage delete_contract_storage
storage_changes_kept [] db = refl
storage_changes_kept (((addr, key), some value) ∷ rest) db =
    storage_changes_kept rest (put_contract_storage addr key value db)
storage_changes_kept (((addr, key), none) ∷ rest) db =
    storage_changes_kept rest (delete_contract_storage addr key db)

module _ {Module : Type 0} (m : Wasmtime Module) (c : Primitives) (to_hex : ℕ → Text)
    (h : BlockHeader) where
  module _ (s : SignedTransaction) (w : World Module) where
    called_kept :
        (w : World Module) (sender : Account) (r : CallResult) (x : ExecutionContext)
        → chain_part (apply_called s sender r x w).1.storage ≡ chain_part w.storage
    called_kept w sender r x =
        elim r.status
          as (λ k.
            chain_part (apply_called s sender (record r { status = k }) x w).1.storage
            ≡ chain_part w.storage) [
              | success ↦ storage_changes_kept x.storage_changes w.storage
              | failure e ↦ refl
              | out_of_gas ↦ refl
            ]

    deploy_kept : chain_part (apply_deploy m c to_hex h s w).1.storage ≡ chain_part w.storage
    unfolding apply_deploy
    deploy_kept =
        let (r, e, x) =
          deploy_contract m c s.transaction.data_bytes [] w.engine
            (context_for h s.transaction 0 w) in
        elim (Result-cases (prepare w.ledger s)) [
          | inr (f, e) ↦ rw (apply_deploy, e) refl
          | inl (sender, e) ↦ elim (Result-cases r) [
            | inl (r, n) ↦
                rw (apply_deploy, e, n)
                  (storage_changes_kept x.storage_changes
                    (put_contract_code r.code_hash s.transaction.data_bytes w.storage))
            | inr (f, n) ↦ rw (apply_deploy, e, n) refl
          ]
        ]

    code_kept :
        (sender : Account) (to code_hash : ℕ)
        → chain_part (call_code m c to_hex h s sender to code_hash w).1.storage
          ≡ chain_part w.storage
    unfolding call_code
    code_kept sender to code_hash =
        let t = s.transaction in
        let (name, args) = extract_function_name t.data_bytes in
        let (r, e, x) =
          call_contract m c code_hash to_hex name args w.engine (context_for h t to w) in
        elim (Result-cases r) [
          | inl (called, n) ↦
              rw (call_code, n) (called_kept (record w { engine = e }) sender called x)
          | inr (f, n) ↦ rw (call_code, n) refl
        ]

    call_kept : chain_part (apply_call m c to_hex h s w).1.storage ≡ chain_part w.storage
    unfolding apply_call
    call_kept =
        let to = unwrap_or s.transaction.to 0 in
        elim (Result-cases (prepare w.ledger s)) [
          | inr (f, e) ↦ rw (apply_call, e) refl
          | inl (sender, e) ↦
              elim (Option-cases
                (or_else (lookup to w.ledger.modified) (lookup to w.ledger.stored))) [
                  | inl n ↦ rw (apply_call, e, n) refl
                  | inr (target, n) ↦ elim (Option-cases target.code_hash) [
                    | inl k ↦ rw (apply_call, e, n, k) refl
                    | inr (code_hash, k) ↦ rw (apply_call, e, n, k) (code_kept sender to code_hash)
                  ]
                ]
        ]

    apply_transaction_kept :
        chain_part (apply_transaction m c to_hex h s w).1.storage ≡ chain_part w.storage
    unfolding apply_transaction
    apply_transaction_kept = elim (TxType-cases s.transaction.tx_type) [
      | inl k ↦ rw (apply_transaction, k) refl
      | inr (inl k) ↦ rw (apply_transaction, k) deploy_kept
      | inr (inr (inl k)) ↦ rw (apply_transaction, k) call_kept
      | inr (inr (inr (inl k))) ↦ rw (apply_transaction, k) refl
      | inr (inr (inr (inr k))) ↦ rw (apply_transaction, k) refl
    ]

  -- The transactions of a block, deployments and calls included, leave the stored blocks and the
  -- genesis hash as they are.
  pub execute_from_kept :
      (block_hash i : ℕ) (ss : List SignedTransaction) (w : World Module)
      → chain_part (execute_from m c to_hex h block_hash i ss w).1.storage ≡ chain_part w.storage
  unfolding execute_from
  execute_from_kept block_hash i [] w = refl
  execute_from_kept block_hash i (s ∷ ss) w =
      execute_from_kept block_hash (i + 1) ss (apply_transaction m c to_hex h s w).1
      ∙ apply_transaction_kept s w
