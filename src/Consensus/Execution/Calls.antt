-- ===== src/Consensus/Execution/Calls.antt =====
-- What a transaction of crates/consensus/src/state.rs leaves of its sender's account.
use rustblockchain.Base.{
  ℕ, ◌≡◌, ◌⊎◌, inl, inr, ap, [], arith, nat_eq, unwrap_or, Option-cases, Bool-cases, ltb,
}
use rustblockchain.Base.Dict.{lookup}
use rustblockchain.Base.Text.{Text}
use rustblockchain.Base.Result.{ok, err, Result-cases}
use rustblockchain.Crypto.Hash.{Primitives}
use rustblockchain.Core.Account.{Account}
use rustblockchain.Core.Block.{BlockHeader}
use rustblockchain.Core.Receipt.{failure}
use rustblockchain.Core.Transaction.{
  SignedTransaction, TxType-cases, transfer, contract_deploy, contract_call, stake, unstake,
}
use rustblockchain.Core.Validator.{get_validator}
use rustblockchain.Vm.Engine.{Wasmtime, deploy_contract, call_contract}
use rustblockchain.Consensus.Ledger.{
  Failure, or_else, load, prepare, credit, apply_transfer, apply_stake, apply_unstake,
}
use rustblockchain.Consensus.Ledger.Transfers.{load-put_self}
use rustblockchain.Consensus.Execution.{
  World, Report, bare, ledger_failure, apply_deploy, apply_call, call_code, apply_transaction,
  refund_after, context_for,
}
use rustblockchain.Consensus.Execution.Names.{extract_function_name}

module _ {Module : Type 0} (m : Wasmtime Module) (c : Primitives) (to_hex : ℕ → Text)
    (h : BlockHeader) (s : SignedTransaction) (w : World Module) where
  -- A transaction that its sender cannot pay for, or with the wrong nonce, fails with no gas used and
  -- changes nothing, whatever its type.
  pub apply_transaction_rejected :
      (f : Failure)
      → prepare w.ledger s ≡ err f
      → apply_transaction m c to_hex h s w ≡ (bare (failure (ledger_failure f)) 0, w)
  unfolding apply_transaction apply_transfer apply_stake apply_unstake apply_deploy apply_call
  apply_transaction_rejected f e = elim s.transaction.tx_type [
    | transfer ↦ ground arith
    | contract_deploy ↦ ground arith
    | contract_call ↦ ground arith
    | stake ↦ ground arith
    | unstake ↦ ground arith
  ]

  ledger_nonce :
      (sender : Account)
      → prepare w.ledger s ≡ ok sender
      → ((load (apply_transfer s w.ledger).1 s.transaction.from).nonce ≡ sender.nonce)
        × ((load (apply_stake s w.ledger).1 s.transaction.from).nonce ≡ sender.nonce)
        × ((load (apply_unstake s w.ledger).1 s.transaction.from).nonce ≡ sender.nonce)
  unfolding apply_transfer apply_stake apply_unstake
  ledger_nonce sender e = (
    rw (apply_transfer, e) (ap (λ a. a.nonce) (load-put_self _ _ _)),
    rw (apply_stake, e) (ap (λ a. a.nonce) (load-put_self _ _ _)),
    elim (Option-cases (get_validator w.ledger.validator_set s.transaction.from)) [
      | inl n ↦ rw (apply_unstake, e, n) (ap (λ a. a.nonce) (load-put_self _ _ _))
      | inr (v, n) ↦ elim (Bool-cases (ltb v.stake s.transaction.value)) [
        | inl b ↦ rw (apply_unstake, e, n, b) (ap (λ a. a.nonce) (load-put_self _ _ _))
        | inr b ↦ rw (apply_unstake, e, n, b) (ap (λ a. a.nonce) (load-put_self _ _ _))
      ]
    ],
  )

  deploy_nonce :
      (sender : Account)
      → prepare w.ledger s ≡ ok sender
      → (load (apply_deploy m c to_hex h s w).1.ledger s.transaction.from).nonce ≡ sender.nonce
  unfolding apply_deploy
  deploy_nonce sender e =
      elim (Result-cases
        (deploy_contract m c s.transaction.data_bytes [] w.engine
          (context_for h s.transaction 0 w)).0) [
            | inl (r, n) ↦ rw (apply_deploy, e, n) (ap (λ a. a.nonce) (load-put_self _ _ _))
            | inr (f, n) ↦ rw (apply_deploy, e, n) (ap (λ a. a.nonce) (load-put_self _ _ _))
          ]

  -- What a call leaves in the sender's account.
  abbrev Left : Account → Report × World Module → Type 0
  Left sender r =
      (load r.1.ledger s.transaction.from ≡ sender)
      ⊎ (load r.1.ledger s.transaction.from
          ≡ credit (refund_after r.0.gas_used s.transaction) sender)

  call_code-Left :
      (sender : Account) (to code_hash : ℕ)
      → Left sender (call_code m c to_hex h s sender to code_hash w)
  unfolding call_code
  call_code-Left sender to code_hash =
      let t = s.transaction in
      let (name, args) = extract_function_name t.data_bytes in
      elim (Result-cases
        (call_contract m c code_hash to_hex name args w.engine (context_for h t to w)).0) [
          | inl (r, n) ↦ rw (call_code, n) (inr (load-put_self _ _ _))
          | inr (f, n) ↦ rw (call_code, n) (inl (load-put_self _ _ _))
        ]

  -- After a contract call that its sender can pay for, the sender's account is the one that has paid for
  -- the gas, or that account with the unused gas paid back: the call's value is not taken from it, and
  -- nothing that the contract pays to it arrives.
  pub apply_call_sender :
      (sender : Account)
      → prepare w.ledger s ≡ ok sender
      → let r = apply_call m c to_hex h s w in
        (load r.1.ledger s.transaction.from ≡ sender)
        ⊎ (load r.1.ledger s.transaction.from
            ≡ credit (refund_after r.0.gas_used s.transaction) sender)
  unfolding apply_call
  apply_call_sender sender e =
      let to = unwrap_or s.transaction.to 0 in
      elim (Option-cases (or_else (lookup to w.ledger.modified) (lookup to w.ledger.stored))) [
        | inl n ↦ rw (apply_call, e, n) (inl (load-put_self _ _ _))
        | inr (target, n) ↦ elim (Option-cases target.code_hash) [
          | inl k ↦ rw (apply_call, e, n, k) (inl (load-put_self _ _ _))
          | inr (code_hash, k) ↦ rw (apply_call, e, n, k) (call_code-Left sender to code_hash)
        ]
      ]

  Left-nonce :
      (sender : Account) (r : Report × World Module)
      → Left sender r
      → (load r.1.ledger s.transaction.from).nonce ≡ sender.nonce
  Left-nonce sender r (inl e) = ap (λ a. a.nonce) e
  Left-nonce sender r (inr e) = ap (λ a. a.nonce) e

  pub apply_transaction_nonce :
      (sender : Account)
      → prepare w.ledger s ≡ ok sender
      → (load (apply_transaction m c to_hex h s w).1.ledger s.transaction.from).nonce ≡ sender.nonce
  unfolding apply_transaction
  apply_transaction_nonce sender e =
      let (moved, staked, unstaked) = ledger_nonce sender e in
      elim (TxType-cases s.transaction.tx_type) [
        | inl k ↦ rw (apply_transaction, k) moved
        | inr (inl k) ↦ rw (apply_transaction, k) (deploy_nonce sender e)
        | inr (inr (inl k)) ↦
            rw (apply_transaction, k)
              (Left-nonce sender (apply_call m c to_hex h s w) (apply_call_sender sender e))
        | inr (inr (inr (inl k))) ↦ rw (apply_transaction, k) staked
        | inr (inr (inr (inr k))) ↦ rw (apply_transaction, k) unstaked
      ]
