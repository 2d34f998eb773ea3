-- ===== src/Consensus/Proposer/Weighted.antt =====
-- The choice of crates/consensus/src/pos.rs is by stake.
use mathlib.Core.Path.{subst}
use rustblockchain.Base.{
  ℕ, ◌+◌, ◌-◌, ◌%◌, ◌≤◌, ◌<◌, ◌≡◌, ◌↔◌, refl, ap, ◌∙◌, inl, inr, List, [], ◌∷◌, ◌++◌, arith,
  Bool-cases, ltb, nat_eq, u128_mod, sum_by,
}
use rustblockchain.Base.Result.{ok, Result-cases}
use rustblockchain.Core.Validator.{ValidatorInfo, sum_stake}
use rustblockchain.Crypto.Hash.{Primitives}
use rustblockchain.Consensus.Proposer.{
  target, Draw, pick, last_address, select_proposer, verify_proposer,
}

abbrev pub total_of : List ValidatorInfo → ℕ
total_of vs = sum_by (λ (v : ValidatorInfo). v.stake) vs

-- The validator in whose part of the cumulative stake the target lies.
pub record Covers (target : ℕ) (vs : List ValidatorInfo) (address : ℕ) : Type 0 where
  pub before : List ValidatorInfo
  pub chosen : ValidatorInfo
  pub after : List ValidatorInfo
  pub split : vs ≡ before ++ chosen ∷ after
  pub chosen_address : chosen.address ≡ address
  pub above : total_of before ≤ target
  pub below : target < total_of before + chosen.stake

pick-Covers :
    (target cumulative last : ℕ) (vs : List ValidatorInfo)
    → cumulative ≤ target
    → target < cumulative + total_of vs
    → cumulative + total_of vs < u128_mod
    → Covers (target - cumulative) vs (pick target cumulative last vs)
unfolding pick
pick-Covers target c last [] a b fits = absurd (omega arith)
pick-Covers target c last (v ∷ vs) a b fits =
    elim (Bool-cases (ltb target ((c + v.stake) % u128_mod))) [
      | inl here ↦ rw here (record {
        before = [];
        chosen = v;
        after = vs;
        split = refl;
        chosen_address = refl;
        above = omega arith;
        below = ground arith;
      })
      | inr there ↦
          let r : Covers (target - (c + v.stake) % u128_mod) vs
              (pick target ((c + v.stake) % u128_mod) last vs) =
            pick-Covers target ((c + v.stake) % u128_mod) last vs (ground arith) (ground arith)
              (ground arith) in
          rw there (record {
            before = v ∷ r.before;
            chosen = r.chosen;
            after = r.after;
            split = cc (r.split);
            chosen_address = r.chosen_address;
            above = ground (arith, r.above);
            below = ground (arith, r.below);
          })
    ]

-- With two validators or more and a positive total stake the choice succeeds, and the drawn number
-- lies in the chosen validator's part of the cumulative stake: the fallback is never needed, and a
-- validator without stake is never chosen. Stated where the total fits into a u128.
pub select_proposer-Covers :
    (c : Primitives) (draw : Draw) (v w : ValidatorInfo) (ws : List ValidatorInfo)
    (parent block : ℕ)
    → 0 < total_of (v ∷ w ∷ ws)
    → total_of (v ∷ w ∷ ws) < u128_mod
    → target c draw parent block (sum_stake (v ∷ w ∷ ws)) < total_of (v ∷ w ∷ ws)
    → (a : ℕ) × (select_proposer c draw (v ∷ w ∷ ws) parent block ≡ ok a)
      × Covers (target c draw parent block (sum_stake (v ∷ w ∷ ws))) (v ∷ w ∷ ws) a
unfolding select_proposer
select_proposer-Covers c draw v w ws parent block some_stake fits drawn =
    let vs = v ∷ w ∷ ws in
    let t = target c draw parent block (sum_stake vs) in
    (
      pick t 0 (last_address w ws) vs,
      ground arith,
      subst (λ n. Covers n vs (pick t 0 (last_address w ws) vs)) (omega arith)
          (pick-Covers t 0 (last_address w ws) vs (omega arith) (omega arith) (omega arith)),
    )

total_of-append :
    (xs : List ValidatorInfo) (v : ValidatorInfo) (ys : List ValidatorInfo)
    → total_of (xs ++ v ∷ ys) ≡ total_of xs + v.stake + total_of ys
total_of-append [] v ys = omega arith
total_of-append (x ∷ xs) v ys = omega (arith, total_of-append xs v ys)

pick-split :
    (target cumulative last : ℕ) (before after : List ValidatorInfo) (v : ValidatorInfo)
    → cumulative + total_of before ≤ target
    → target < cumulative + total_of before + v.stake
    → cumulative + total_of before + v.stake + total_of after < u128_mod
    → pick target cumulative last (before ++ v ∷ after) ≡ v.address
unfolding pick
pick-split target c last [] after v a b fits = ground arith
pick-split target c last (x ∷ before) after v a b fits =
    ground (arith, pick-split target (c + x.stake) last before after v)

-- Each validator is the proposer for exactly as many draws as it has stake: whenever the drawn
-- number is at least the stake in front of it and below that sum with its own stake added.
pub select_proposer_weighted :
    (c : Primitives) (draw : Draw) (x y : ValidatorInfo) (zs before after : List ValidatorInfo)
    (v : ValidatorInfo) (parent block : ℕ)
    → x ∷ y ∷ zs ≡ before ++ v ∷ after
    → total_of (x ∷ y ∷ zs) < u128_mod
    → total_of before ≤ target c draw parent block (sum_stake (x ∷ y ∷ zs))
    → target c draw parent block (sum_stake (x ∷ y ∷ zs)) < total_of before + v.stake
    → select_proposer c draw (x ∷ y ∷ zs) parent block ≡ ok v.address
unfolding select_proposer
select_proposer_weighted c draw x y zs before after v parent block e fits above below =
    let t = target c draw parent block (sum_stake (x ∷ y ∷ zs)) in
    let sums : total_of (x ∷ y ∷ zs) ≡ total_of before + v.stake + total_of after =
      ap total_of e ∙ total_of-append before v after in
    ground (
      arith,
      sums,
      ap (pick t 0 (last_address y zs)) e,
      pick-split t 0 (last_address y zs) before after v,
    )

-- A block's proposer is accepted exactly when it is the selected one.
pub verify_proposer_iff :
    (c : Primitives) (draw : Draw) (proposer : ℕ) (vs : List ValidatorInfo) (parent block : ℕ)
    → (verify_proposer c draw proposer vs parent block ≡ ok tt)
      ↔ (select_proposer c draw vs parent block ≡ ok proposer)
unfolding verify_proposer
verify_proposer_iff c draw proposer vs parent block =
    elim (Result-cases (select_proposer c draw vs parent block)) [
      | inl (a, e) ↦ ground arith
      | inr (x, e) ↦ ground arith
    ]
