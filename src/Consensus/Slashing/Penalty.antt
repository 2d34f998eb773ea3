-- ===== src/Consensus/Slashing/Penalty.antt =====
-- What a slash of crates/consensus/src/slashing.rs does to the validator.
use rustblockchain.Base.{
  ℕ, ◌+◌, ◌*◌, ◌/◌, ◌≤◌, ◌<◌, ◌≡◌, ◌≢◌, ◌↔◌, ◌⊎◌, true, false, some, arith, u64_mod, u128_mod,
  nat_eq,
}
use rustblockchain.Core.Params.{ConsensusParams}
use rustblockchain.Core.Validator.{ValidatorInfo, is_jailed, is_eligible}
use rustblockchain.Consensus.Slashing.{
  double_sign, SlashPenalty, evaluate_evidence, apply_slash, detect_double_sign,
}

-- A penalty never takes more than the stake, never raises it, and a validator that is still active
-- afterwards was active before, is not jailed by it, and holds the minimum stake.
pub apply_slash_bounds :
    (params : ConsensusParams) (v : ValidatorInfo) (p : SlashPenalty) (now : ℕ)
    → let v' = apply_slash params v p now in
      (v'.stake ≤ v.stake)
      × (v.stake ≤ v'.stake + p.amount)
      × ((v'.is_active ≡ false)
          ⊎ ((v.is_active ≡ true) × (p.jail ≡ false) × (params.min_stake ≤ v'.stake)))
unfolding apply_slash
apply_slash_bounds params v p now = ground arith

-- The penalty for a double sign, without overflow.
abbrev pub double_sign_penalty : ConsensusParams → ValidatorInfo → SlashPenalty
double_sign_penalty params v = record {
  amount = v.stake * params.slash_fraction_double_sign / 10000;
  jail = true;
  jail_duration_ms = params.downtime_jail_duration_ms * 10;
}

-- Two different block hashes of one height cost the validator its configured fraction of its stake,
-- rounded down, and jail it: it is not eligible, and is jailed exactly until ten jail terms have
-- passed. Stated where the fraction is at most all of the stake, and nothing overflows its type.
pub double_sign_slashed :
    (params : ConsensusParams) (v : ValidatorInfo) (a b height now later : ℕ)
    → a ≢ b
    → params.slash_fraction_double_sign ≤ 10000
    → v.stake * params.slash_fraction_double_sign < u128_mod
    → now + params.downtime_jail_duration_ms * 10 < u64_mod
    → let p = double_sign_penalty params v in
      let v' = apply_slash params v p now in
      (detect_double_sign a b height ≡ some (double_sign a b height))
      × (evaluate_evidence params (double_sign a b height) v ≡ some p)
      × (v'.stake + v.stake * params.slash_fraction_double_sign / 10000 ≡ v.stake)
      × (is_eligible v' ≡ false)
      × ((is_jailed v' later ≡ true) ↔ (later < now + params.downtime_jail_duration_ms * 10))
unfolding apply_slash evaluate_evidence detect_double_sign is_jailed
double_sign_slashed params v a b height now later ne f fits time =
    (ground arith, ground arith, fraction_left, ground arith, ground arith)
  where
    share : v.stake * params.slash_fraction_double_sign ≤ v.stake * 10000
    share = grind arith

    fraction_left :
        (apply_slash params v (double_sign_penalty params v) now).stake
          + v.stake * params.slash_fraction_double_sign / 10000
        ≡ v.stake
    fraction_left = ground (arith, share)
