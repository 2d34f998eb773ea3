-- ===== src/Consensus/Chain/Epochs.antt =====
-- The epochs of crates/consensus/src/state.rs: which blocks they hold, and who makes them.
use rustblockchain.Base.{
  ℕ, zero, suc, ◌+◌, ◌≤◌, ◌<◌, ◌≡◌, ◌⊎◌, ◌↔◌, Bool, true, false, some, List, [], ◌∷◌, map, filter,
  take, arith, nat_eq, add64, u64_mod, leb, length, length-take-le, take-All, filter-All, All,
}
use rustblockchain.Base.Sorting.{
  IsSorted, insert_sorted, sort_by, sort_by-All, take-IsSorted, sort_by-IsSorted,
}
use rustblockchain.Core.Epoch.{EpochInfo, contains_block, is_last_block}
use rustblockchain.Core.Params.{ConsensusParams}
use rustblockchain.Core.Validator.{ValidatorInfo}
use rustblockchain.Consensus.Chain.{ChainState, maybe_advance_epoch, next_validators, unjail}

-- The next block belongs to the current epoch.
abbrev pub IsCurrent : ChainState → Type 0
IsCurrent st = contains_block st.current_epoch (st.height + 1) ≡ true

-- After a block that belongs to the epoch, the height is in the epoch, its last block included; once the
-- epoch has been advanced, the next block belongs to the current epoch again. Stated for epochs of at
-- least one block, below the bounds of a u64.
pub maybe_advance_epoch-IsCurrent :
    (p : ConsensusParams) (now : ℕ) (st : ChainState)
    → 1 ≤ p.epoch_length
    → st.height + 1 + p.epoch_length < u64_mod
    → contains_block st.current_epoch st.height ≡ true
    → IsCurrent (maybe_advance_epoch p now st).1
unfolding maybe_advance_epoch contains_block is_last_block
maybe_advance_epoch-IsCurrent p now st len small h = ground arith

-- A new epoch begins after the last block of the old one, with the next number, so that no block belongs
-- to both.
pub maybe_advance_epoch_follows :
    (p : ConsensusParams) (now n : ℕ) (st : ChainState) (new : EpochInfo)
    → (maybe_advance_epoch p now st).0 ≡ some new
    → st.height + 1 < u64_mod
    → (new.start_block ≡ st.current_epoch.end_block + 1)
      × (new.epoch_number ≡ add64 st.current_epoch.epoch_number 1)
      × ((contains_block st.current_epoch n ≡ false) ⊎ (contains_block new n ≡ false))
unfolding maybe_advance_epoch contains_block is_last_block
maybe_advance_epoch_follows p now n st new e small = ground arith

abbrev richer : ValidatorInfo → ValidatorInfo → Bool
richer a b = leb b.stake a.stake

-- The validators of the next epoch are at most as many as allowed, none has less than the minimal
-- stake, and they stand by falling stake.
pub next_validators_lem :
    (p : ConsensusParams) (now : ℕ) (vs : List ValidatorInfo)
    → let next = next_validators p now vs in
      (length next ≤ p.max_validators)
      × All (λ v. p.min_stake ≤ v.stake) next
      × IsSorted (λ (a : ValidatorInfo) (b : ValidatorInfo). leb b.stake a.stake) next
unfolding next_validators
next_validators_lem p now vs =
    let Rich : ValidatorInfo → Type 0 = λ v. p.min_stake ≤ v.stake in
    let kept =
      filter (λ (v : ValidatorInfo). leb p.min_stake v.stake) (map (unjail now p.min_stake) vs) in
    let sorted = sort_by richer kept in
    (
      length-take-le p.max_validators sorted,
      take-All Rich p.max_validators sorted (
          sort_by-All richer Rich kept (
            filter-All Rich (λ v. leb p.min_stake v.stake) (map (unjail now p.min_stake) vs)
              (λ x e. ground arith))),
      take-IsSorted richer p.max_validators sorted
          (sort_by-IsSorted richer (λ a b. ground arith) kept),
    )

insert_sorted_some :
    (a : ValidatorInfo) (xs : List ValidatorInfo) → 1 ≤ length (insert_sorted richer a xs)
unfolding insert_sorted
insert_sorted_some a [] = omega arith
insert_sorted_some a (x ∷ xs) = ground arith

sort_by_empty_iff : (xs : List ValidatorInfo) → (sort_by richer xs ≡ []) ↔ (xs ≡ [])
unfolding sort_by
sort_by_empty_iff [] = ground arith
sort_by_empty_iff (x ∷ xs) = ground (arith, insert_sorted_some x (sort_by richer xs))

take_empty_iff : (n : ℕ) (xs : List ValidatorInfo) → 1 ≤ n → (take n xs ≡ []) ↔ (xs ≡ [])
take_empty_iff zero xs h = absurd (omega arith)
take_empty_iff (suc n) [] h = ground arith
take_empty_iff (suc n) (x ∷ xs) h = ground arith

unjail-stake : (now min : ℕ) (v : ValidatorInfo) → (unjail now min v).stake ≡ v.stake
unjail-stake now min v = ground arith

rich_empty_iff :
    (now min : ℕ) (vs : List ValidatorInfo)
    → (filter (λ (v : ValidatorInfo). leb min v.stake) (map (unjail now min) vs) ≡ [])
      ↔ All (λ v. v.stake < min) vs
rich_empty_iff now min [] = ground arith
rich_empty_iff now min (v ∷ vs) = ground (arith, unjail-stake now min v, rich_empty_iff now min vs)

-- The next epoch has no validator exactly if every validator's stake is below the minimum: it is not
-- asked for `min_validators`. Stated where the limit allows for a validator.
pub next_validators_empty_iff :
    (p : ConsensusParams) (now : ℕ) (vs : List ValidatorInfo)
    → 1 ≤ p.max_validators
    → (next_validators p now vs ≡ []) ↔ All (λ v. v.stake < p.min_stake) vs
unfolding next_validators
next_validators_empty_iff p now vs h =
    let kept =
      filter (λ (v : ValidatorInfo). leb p.min_stake v.stake) (map (unjail now p.min_stake) vs) in
    let (cut, uncut) = take_empty_iff p.max_validators (sort_by richer kept) h in
    let (unsorted, sorted) = sort_by_empty_iff kept in
    let (poor, none_left) = rich_empty_iff now p.min_stake vs in
    (λ e. poor (unsorted (cut e)), λ e. uncut (sorted (none_left e)))
