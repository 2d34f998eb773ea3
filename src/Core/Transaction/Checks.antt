-- ===== src/Core/Transaction/Checks.antt =====
-- Which transactions crates/core/src/transaction.rs accepts.
use rustblockchain.Base.{
  ◌+◌, ◌*◌, ◌≤◌, ◌<◌, ◌≡◌, ◌≢◌, ◌↔◌, true, none, [], arith, nat_eq, is_some, length, u64_mod,
  u128_mod,
}
use rustblockchain.Base.Text.{Text}
use rustblockchain.Base.Bytes.{le_bytes}
use rustblockchain.Base.Result.{ok}
use rustblockchain.Crypto.Hash.{Primitives, to_address}
use rustblockchain.Core.Transaction.{
  transfer, contract_deploy, contract_call, stake, unstake, Transaction, SignedTransaction,
  validate_basic, validate_type, max_transaction_data_size, max_gas_cost, total_cost, signing_hash,
  verify,
}

-- What the kind of a transaction asks of its fields.
abbrev pub FitsType : Transaction → Type 0
FitsType t = elim t.tx_type [
  | transfer ↦ is_some t.to ≡ true
  | contract_deploy ↦ (t.to ≡ none) × (t.data_bytes ≢ [])
  | contract_call ↦ is_some t.to ≡ true
  | stake ↦ 0 < t.value
  | unstake ↦ 0 < t.value
]

abbrev pub IsBasic : Transaction → Type 0
IsBasic t =
    (length t.data_bytes ≤ max_transaction_data_size)
    × (0 < t.gas_limit)
    × (0 < t.gas_price)
    × FitsType t

validate_type_iff : (t : Transaction) → (validate_type t ≡ ok tt) ↔ FitsType t
unfolding validate_type
validate_type_iff t = elim t.tx_type [
  | transfer ↦ ground arith
  | contract_deploy ↦ ground arith
  | contract_call ↦ ground arith
  | stake ↦ ground arith
  | unstake ↦ ground arith
]

-- Basic validation accepts exactly the transactions with data within the size limit, gas, a gas
-- price, and the fields that their kind needs.
pub validate_basic_iff : (t : Transaction) → (validate_basic t ≡ ok tt) ↔ IsBasic t
unfolding validate_basic
validate_basic_iff t = ground (arith, validate_type_iff t)

-- A signed transaction is accepted exactly when it passes basic validation, its sender is the
-- address of its key, and its signature is valid for the signing hash.
pub verify_iff :
    (c : Primitives) (serialize : Transaction → Text) (s : SignedTransaction)
    → (verify c serialize s ≡ ok tt) ↔ (
        IsBasic s.transaction
        × (to_address c s.public_key ≡ s.transaction.from)
        × (c.ed25519 s.public_key (le_bytes 32 (signing_hash c serialize s.transaction)) s.signature
            ≡ true))
unfolding verify
verify_iff c serialize s = ground (arith, validate_basic_iff s.transaction)

-- The total cost is exactly the value and the most that the gas can cost. Stated for 64-bit gas
-- fields and a sum that fits into a u128.
pub total_cost_exact :
    (t : Transaction)
    → t.gas_limit < u64_mod
    → t.gas_price < u64_mod
    → t.value + t.gas_limit * t.gas_price < u128_mod
    → total_cost t ≡ t.value + t.gas_limit * t.gas_price
unfolding total_cost max_gas_cost
total_cost_exact t l p f = omega arith
