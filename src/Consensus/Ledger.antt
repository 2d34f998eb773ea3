-- ===== src/Consensus/Ledger.antt =====
-- crates/consensus/src/state.rs: how a block's transfers, stakes and unstakes change the accounts
-- and the validators. The changed accounts lie over the stored ones until the block is committed.
-- Writes of a validator to the database succeed here; a failed one is ignored by the code.
pub mod Transfers
pub mod Staking
mod Tests
use rustblockchain.Base.{
  ℕ, zero, suc, ◌+◌, ◌-◌, Bool, true, false, not, Option, none, some, List, [], ◌∷◌, ◌++◌,
  if◌then◌else◌, Eq, ◌==◌, nat_eq, ltb, leb, unwrap_or, add64, add128, sub128, mul64,
  saturating_sub,
}
use rustblockchain.Base.Dict.{Dict, lookup, insert}
use rustblockchain.Base.Result.{Result, ok, err, err_if, ◌>>=◌, ◌>>◌}
use rustblockchain.Core.Account
use rustblockchain.Core.Account.{Account, has_sufficient_balance, increment_nonce}
use rustblockchain.Core.Transaction.{Transaction, SignedTransaction, max_gas_cost, total_cost}
use rustblockchain.Core.Validator.{
  ValidatorInfo, ValidatorSet, new_info, get_validator, recalculate_total_stake,
}

pub record Ledger : Type 0 where
  pub modified : Dict ℕ Account
  pub stored : Dict ℕ Account
  pub validator_set : ValidatorSet
  pub stored_validators : Dict ℕ ValidatorInfo

-- What a failure's message says.
pub data Failure : Type 0 where
  nonce_mismatch : (expected got : ℕ) → Failure
  insufficient_balance : (have need : ℕ) → Failure
  insufficient_stake : (have wanted : ℕ) → Failure
  not_validator : Failure

-- The part of a receipt that the transaction decides.
pub record Outcome : Type 0 where
  pub failure : Option Failure
  pub gas_used : ℕ

abbrev pub base_gas : ℕ
base_gas = 21000

abbrev pub or_else : Option Account → Option Account → Option Account
or_else none b = b
or_else (some a) b = some a

unfoldable pub load : Ledger → ℕ → Account
load l address =
    unwrap_or (or_else (lookup address l.modified) (lookup address l.stored))
      (Account.new address 0)

abbrev pub put : ℕ → Account → Ledger → Ledger
put address a l = record l { modified = insert address a l.modified }

-- The nonce and the balance are checked, and the gas is paid for in advance.
unfoldable pub prepare : Ledger → SignedTransaction → Result Failure Account
prepare l s = do
  let t = s.transaction
  let sender = load l t.from
  err_if (not (t.nonce == sender.nonce)) (nonce_mismatch sender.nonce t.nonce)
  err_if (not (has_sufficient_balance sender (total_cost t)))
      (insufficient_balance sender.balance (total_cost t))
  ok (increment_nonce (record sender { balance = sub128 sender.balance (max_gas_cost t) }))

-- A product of 64-bit numbers.
unfoldable pub gas_refund : Transaction → ℕ
gas_refund t = mul64 (saturating_sub t.gas_limit base_gas) t.gas_price

abbrev pub credit : ℕ → Account → Account
credit amount a = record a { balance = add128 a.balance amount }

abbrev pub debit : ℕ → Account → Account
debit amount a = record a { balance = sub128 a.balance amount }

abbrev pub succeeded : Outcome
succeeded = record { failure = none; gas_used = base_gas }

abbrev pub failed : Failure → ℕ → Outcome
failed f gas = record { failure = some f; gas_used = gas }

-- The recipient is read before the sender's account is written back.
unfoldable pub apply_transfer : SignedTransaction → Ledger → Outcome × Ledger
apply_transfer s l = elim (prepare l s) [
  | err f ↦ (failed f 0, l)
  | ok sender ↦
      let t = s.transaction in
      let to_addr = unwrap_or t.to 0 in
      let paid = put to_addr (credit t.value (load l to_addr)) l in
      (succeeded, put t.from (credit (gas_refund t) (debit t.value sender)) paid)
]

-- A change in place of the first validator with the address.
abbrev pub update_validator :
    ℕ → (ValidatorInfo → ValidatorInfo) → List ValidatorInfo → List ValidatorInfo
update_validator address f [] = []
update_validator address f (v ∷ vs) =
    if v.address == address then f v ∷ vs else v ∷ update_validator address f vs

abbrev pub put_validators : List ValidatorInfo → ValidatorInfo → Ledger → Ledger
put_validators vs written l = record l {
  validator_set = recalculate_total_stake (record l.validator_set { validators = vs });
  stored_validators = insert written.address written l.stored_validators;
}

abbrev pub add_stake : ℕ → ValidatorInfo → ValidatorInfo
add_stake amount v = record v { stake = add128 v.stake amount; is_active = true }

abbrev pub staked : SignedTransaction → Ledger → Ledger
staked s l =
    let t = s.transaction in
    let vs = l.validator_set.validators in
    elim (get_validator l.validator_set t.from) [
      | some v ↦
          put_validators (update_validator t.from (add_stake t.value) vs) (add_stake t.value v) l
      | none ↦ let v = new_info t.from s.public_key t.value in put_validators (vs ++ v ∷ []) v l
    ]

unfoldable pub apply_stake : SignedTransaction → Ledger → Outcome × Ledger
apply_stake s l = elim (prepare l s) [
  | err f ↦ (failed f 0, l)
  | ok sender ↦
      let t = s.transaction in
      (succeeded, put t.from (credit (gas_refund t) (debit t.value sender)) (staked s l))
]

abbrev pub cut_stake : (amount min_stake : ℕ) → ValidatorInfo → ValidatorInfo
cut_stake amount min_stake v =
    let rest = sub128 v.stake amount in
    record v { stake = rest; is_active = if ltb rest min_stake then false else v.is_active }

abbrev pub unstaked : ℕ → ℕ → ValidatorInfo → Ledger → Ledger
unstaked address amount v l =
    let cut = cut_stake amount l.validator_set.min_stake in
    put_validators (update_validator address cut l.validator_set.validators) (cut v) l

unfoldable pub apply_unstake : SignedTransaction → Ledger → Outcome × Ledger
apply_unstake s l = elim (prepare l s) [
  | err f ↦ (failed f 0, l)
  | ok sender ↦
      let t = s.transaction in
      elim (get_validator l.validator_set t.from) [
        | none ↦ (failed not_validator base_gas, put t.from (credit (gas_refund t) sender) l)
        | some v ↦
            if ltb v.stake t.value
            then (
              failed (insufficient_stake v.stake t.value) base_gas,
              put t.from (credit (gas_refund t) sender) l,
            )
            else (
              succeeded,
              put t.from (credit (gas_refund t) (credit t.value sender))
                  (unstaked t.from t.value v l),
            )
      ]
]
