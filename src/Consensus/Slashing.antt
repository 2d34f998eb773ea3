-- ===== src/Consensus/Slashing.antt =====
-- crates/consensus/src/slashing.rs: penalties for validators that misbehave.
pub mod Penalty
use Prim.Native.Nat.{min}
use rustblockchain.Base.{
  ℕ, ◌-◌, ◌/◌, Bool, true, false, not, Option, none, some, if◌then◌else◌, ltb, Eq, ◌==◌, nat_eq,
  add64, mul64, mul128, u64_mod, ◌+◌, ◌%◌, ◌^◌,
}
use rustblockchain.Core.Params.{ConsensusParams}
use rustblockchain.Core.Validator.{ValidatorInfo}

pub data SlashReason : Type 0 where
  double_sign : ℕ → ℕ → ℕ → SlashReason
  downtime : ℕ → ℕ → SlashReason

pub record SlashPenalty : Type 0 where
  pub amount : ℕ
  pub jail : Bool
  pub jail_duration_ms : ℕ

-- The slasher is its parameters.
unfoldable pub evaluate_evidence :
    ConsensusParams → SlashReason → ValidatorInfo → Option SlashPenalty
evaluate_evidence params (double_sign a b height) v = some (record {
  amount = mul128 v.stake params.slash_fraction_double_sign / 10000;
  jail = true;
  jail_duration_ms = mul64 params.downtime_jail_duration_ms 10;
})
evaluate_evidence params (downtime missed window) v =
    if ltb params.max_missed_blocks missed
    then some (record {
      amount = mul128 v.stake params.slash_fraction_downtime / 10000;
      jail = true;
      jail_duration_ms = params.downtime_jail_duration_ms;
    })
    else none

-- The stake is cut and the slash counted, a u32.
abbrev pub cut : ValidatorInfo → SlashPenalty → ValidatorInfo
cut v p = record v {
  stake = v.stake - min p.amount v.stake;
  slash_count = (v.slash_count + 1) % 2 ^ 32;
}

abbrev pub jail_if : SlashPenalty → ℕ → ValidatorInfo → ValidatorInfo
jail_if p now v =
    if p.jail
    then record v { jailed_until = some (add64 now p.jail_duration_ms); is_active = false }
    else v

abbrev pub deactivate_if_poor : ConsensusParams → ValidatorInfo → ValidatorInfo
deactivate_if_poor params v =
    if ltb v.stake params.min_stake then record v { is_active = false } else v

unfoldable pub apply_slash : ConsensusParams → ValidatorInfo → SlashPenalty → ℕ → ValidatorInfo
apply_slash params v p now = deactivate_if_poor params (jail_if p now (cut v p))

unfoldable pub detect_double_sign : ℕ → ℕ → ℕ → Option SlashReason
detect_double_sign a b height = if not (a == b) then some (double_sign a b height) else none
