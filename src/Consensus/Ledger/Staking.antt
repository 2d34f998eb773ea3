-- ===== src/Consensus/Ledger/Staking.antt =====
-- What a stake and an unstake of crates/consensus/src/state.rs move between a sender's account and
-- its validator.
use mathlib.Core.Path.{subst}
use rustblockchain.Base.{
  ℕ, ◌+◌, ◌*◌, ◌≤◌, ◌<◌, ◌≡◌, ◌↔◌, ◌⊎◌, refl, ap, sym, ◌∙◌, inl, inr, false, Option, none, some,
  List, [], ◌∷◌, ◌++◌, arith, ◌==◌, nat_eq, ==_iff, find, u128_mod, Bool-cases, Option-cases,
}
use rustblockchain.Base.Result.{ok}
use rustblockchain.Core.Account.{Account}
use rustblockchain.Core.Transaction.{Transaction, SignedTransaction, max_gas_cost, total_cost}
use rustblockchain.Core.Validator.{
  ValidatorInfo, ValidatorSet, new_info, get_validator, recalculate_total_stake,
}
use rustblockchain.Consensus.Ledger.{
  Ledger, load, put, prepare, gas_refund, apply_stake, apply_unstake, credit, debit, succeeded,
  update_validator, add_stake, staked, cut_stake, unstaked,
}
use rustblockchain.Consensus.Ledger.Transfers.{
  IsPayable, charged, prepare-ok, fee, debited-balance, load-put_self, gas_refund-fee,
}

abbrev found : ℕ → List ValidatorInfo → Option ValidatorInfo
found address vs = find (λ (v : ValidatorInfo). v.address == address) vs

-- The validator that a change in place leaves.
found-update_validator :
    (address : ℕ) (f : ValidatorInfo → ValidatorInfo) (vs : List ValidatorInfo) (v : ValidatorInfo)
    → ((w : ValidatorInfo) → (f w).address ≡ w.address)
    → found address vs ≡ some v
    → found address (update_validator address f vs) ≡ some (f v)
found-update_validator address f [] v keeps h = cc
found-update_validator address f (w ∷ vs) v keeps h = elim (Bool-cases (w.address == address)) [
  | inl e ↦ rw e (
      rw (ap (λ a. a == address) (keeps w) ∙ e)
        (ap (λ o. elim o [ none ↦ none | some x ↦ some (f x) ]) (rw e at h)))
  | inr e ↦ rw e (rw e (found-update_validator address f vs v keeps (rw e at h)))
]

found-append :
    (address : ℕ) (vs : List ValidatorInfo) (v : ValidatorInfo)
    → v.address ≡ address
    → found address vs ≡ none
    → found address (vs ++ v ∷ []) ≡ some v
found-append address [] v same h = ground (arith, ==_iff v.address address)
found-append address (w ∷ vs) v same h = ground (arith, found-append address vs v)

abbrev pub StakedTo : SignedTransaction → ValidatorSet → ValidatorSet → Type 0
StakedTo s vs vs' =
    ((get_validator vs s.transaction.from ≡ none)
      × (get_validator vs' s.transaction.from
          ≡ some (new_info s.transaction.from s.public_key s.transaction.value)))
    ⊎ ((v : ValidatorInfo) × (get_validator vs s.transaction.from ≡ some v)
        × (get_validator vs' s.transaction.from ≡ some (add_stake s.transaction.value v)))

staked-StakedTo :
    (s : SignedTransaction) (l : Ledger) → StakedTo s l.validator_set (staked s l).validator_set
unfolding get_validator recalculate_total_stake
staked-StakedTo s l =
    let a = s.transaction.from in
    let vs = l.validator_set.validators in
    elim (Option-cases (found a vs)) [
      | inl e ↦
          inl (e, ground (arith, found-append a vs (new_info a s.public_key s.transaction.value)))
      | inr (v, e) ↦ inr (
        v,
        e,
        ground (arith, found-update_validator a (add_stake s.transaction.value) vs v (λ w. refl) e),
      )
    ]

apply_stake-ok :
    (s : SignedTransaction) (l : Ledger) (sender : Account)
    → prepare l s ≡ ok sender
    → let t = s.transaction in
      apply_stake s l
      ≡ (succeeded, put t.from (credit (gas_refund t) (debit t.value sender)) (staked s l))
unfolding apply_stake
apply_stake-ok s l sender h = ground arith

-- What a payable stake does: the sender pays the amount and the fee, and its validator holds the
-- amount more, as a sum of u128 values, and is active; a sender that was no validator becomes one
-- with that stake.
pub apply_stake_lem :
    (s : SignedTransaction) (l : Ledger)
    → IsPayable l s.transaction
    → let t = s.transaction in
      let l' = (apply_stake s l).1 in
      ((apply_stake s l).0 ≡ succeeded)
      × ((load l' t.from).balance + t.value + fee t ≡ (load l t.from).balance)
      × StakedTo s l.validator_set l'.validator_set
apply_stake_lem s l h =
    let t = s.transaction in
    let sender = credit (gas_refund t) (debit t.value (charged l t)) in
    let done = apply_stake-ok s l (charged l t) (prepare-ok l s h) in
    let own : load (apply_stake s l).1 t.from ≡ sender =
      ap (λ r. load r.1 t.from) done ∙ load-put_self t.from sender (staked s l) in
    (
      ap (λ r. r.0) done,
      omega (arith, ap (λ a. a.balance) own, debited-balance l t h),
      subst (λ r. StakedTo s l.validator_set r.1.validator_set) (sym done) (staked-StakedTo s l),
    )

apply_unstake-ok :
    (s : SignedTransaction) (l : Ledger) (sender : Account) (v : ValidatorInfo)
    → prepare l s ≡ ok sender
    → get_validator l.validator_set s.transaction.from ≡ some v
    → s.transaction.value ≤ v.stake
    → let t = s.transaction in
      apply_unstake s l ≡ (
        succeeded,
        put t.from (credit (gas_refund t) (credit t.value sender)) (unstaked t.from t.value v l),
      )
unfolding apply_unstake
apply_unstake-ok s l sender v h e enough = ground arith

credited-balance :
    (l : Ledger) (t : Transaction)
    → IsPayable l t
    → (load l t.from).balance + t.value < u128_mod
    → (credit (gas_refund t) (credit t.value (charged l t))).balance + fee t
      ≡ (load l t.from).balance + t.value
credited-balance l t h small =
    omega (arith, gas_refund-fee t h.small_gas, h.enough, h.small_balance, h.small_gas)

unstaked-validator :
    (a n : ℕ) (v : ValidatorInfo) (l : Ledger)
    → get_validator l.validator_set a ≡ some v
    → get_validator (unstaked a n v l).validator_set a
      ≡ some (cut_stake n l.validator_set.min_stake v)
unfolding get_validator recalculate_total_stake
unstaked-validator a n v l e =
    found-update_validator a (cut_stake n l.validator_set.min_stake) l.validator_set.validators v
      (λ w. refl) e

-- What a payable unstake of at most the stake does: the sender's balance goes up by the amount less
-- the fee, its validator holds the amount less, and one left below the minimum stake is inactive.
-- Stated where the new balance and the stake fit into a u128.
pub apply_unstake_lem :
    (s : SignedTransaction) (l : Ledger) (v : ValidatorInfo)
    → IsPayable l s.transaction
    → get_validator l.validator_set s.transaction.from ≡ some v
    → s.transaction.value ≤ v.stake
    → v.stake < u128_mod
    → (load l s.transaction.from).balance + s.transaction.value < u128_mod
    → let t = s.transaction in
      let l' = (apply_unstake s l).1 in
      ((apply_unstake s l).0 ≡ succeeded)
      × ((load l' t.from).balance + fee t ≡ (load l t.from).balance + t.value)
      × ((v' : ValidatorInfo) × (get_validator l'.validator_set t.from ≡ some v')
          × (v'.stake + t.value ≡ v.stake)
          × ((v'.is_active ≡ false)
              ⊎ ((v'.is_active ≡ v.is_active) × (l.validator_set.min_stake ≤ v'.stake))))
apply_unstake_lem s l v h e enough fits small =
    let t = s.transaction in
    let sender = credit (gas_refund t) (credit t.value (charged l t)) in
    let done = apply_unstake-ok s l (charged l t) v (prepare-ok l s h) e enough in
    let own : load (apply_unstake s l).1 t.from ≡ sender =
      ap (λ r. load r.1 t.from) done ∙ load-put_self t.from sender (unstaked t.from t.value v l) in
    (
      ap (λ r. r.0) done,
      omega (arith, ap (λ a. a.balance) own, credited-balance l t h small),
      (
        cut_stake t.value l.validator_set.min_stake v,
        ap (λ r. get_validator r.1.validator_set t.from) done
            ∙ unstaked-validator t.from t.value v l e,
        omega arith,
        ground arith,
      ),
    )

-- An unstake succeeds exactly if it has its sender's nonce, the sender is a validator whose stake covers
-- the amount, and the sender's free balance covers the amount, too, on top of the full gas cost, though
-- the amount is paid out. Stated where the amount and the gas cost together fit into a u128.
pub apply_unstake_iff :
    (s : SignedTransaction) (l : Ledger)
    → s.transaction.value + s.transaction.gas_limit * s.transaction.gas_price < u128_mod
    → let t = s.transaction in
      ((apply_unstake s l).0 ≡ succeeded) ↔ (
        (t.nonce ≡ (load l t.from).nonce)
        × (t.value + t.gas_limit * t.gas_price ≤ (load l t.from).balance)
        × ((v : ValidatorInfo) × (get_validator l.validator_set t.from ≡ some v)
            × (t.value ≤ v.stake)))
unfolding apply_unstake prepare total_cost max_gas_cost
apply_unstake_iff s l fits =
    elim (Option-cases (get_validator l.validator_set s.transaction.from)) [
      | inl q ↦ ground arith
      | inr (v, q) ↦ ground arith
    ]
