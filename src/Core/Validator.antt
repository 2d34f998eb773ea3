-- ===== src/Core/Validator.antt =====
-- crates/core/src/validator.rs: validators and their set. Addresses and public keys are opaque
-- numbers; a sum of u128 values is taken modulo 2 ^ 128.
use rustblockchain.Base.{
  ℕ, ◌+◌, ◌/◌, ◌%◌, Bool, true, false, ◌&&◌, not, Option, none, some, List, if◌then◌else◌, ltb,
  ◌==◌, nat_eq, is_some, filter, find, any, sum_by, mul128, u128_mod,
}

pub record ValidatorInfo : Type 0 where
  pub address : ℕ
  pub public_key : ℕ
  pub stake : ℕ
  pub is_active : Bool
  pub commission_rate : ℕ
  pub jailed_until : Option ℕ
  pub slash_count : ℕ
  pub uptime_blocks : ℕ
  pub total_blocks : ℕ

pub record ValidatorSet : Type 0 where
  pub validators : List ValidatorInfo
  pub total_stake : ℕ
  pub min_stake : ℕ
  pub max_validators : ℕ

abbrev pub new_info : ℕ → ℕ → ℕ → ValidatorInfo
new_info address public_key stake = record {
  address = address;
  public_key = public_key;
  stake = stake;
  is_active = true;
  commission_rate = 0;
  jailed_until = none;
  slash_count = 0;
  uptime_blocks = 0;
  total_blocks = 0;
}

unfoldable pub is_jailed : ValidatorInfo → ℕ → Bool
is_jailed v current_time = elim v.jailed_until [
  | none ↦ false
  | some until ↦ ltb current_time until
]

abbrev pub sum_stake : List ValidatorInfo → ℕ
sum_stake vs = sum_by (λ v. v.stake) vs % u128_mod

unfoldable pub new_set : List ValidatorInfo → ℕ → ℕ → ValidatorSet
new_set validators min_stake max_validators = record {
  validators = validators;
  total_stake = sum_stake (filter (λ v. v.is_active) validators);
  min_stake = min_stake;
  max_validators = max_validators;
}

abbrev pub is_eligible : ValidatorInfo → Bool
is_eligible v = v.is_active && not (is_some v.jailed_until)

unfoldable pub active_validators : ValidatorSet → List ValidatorInfo
active_validators s = filter is_eligible s.validators

unfoldable pub get_validator : ValidatorSet → ℕ → Option ValidatorInfo
get_validator s address = find (λ v. v.address == address) s.validators

unfoldable pub total_active_stake : ValidatorSet → ℕ
total_active_stake s = sum_stake (active_validators s)

unfoldable pub is_validator : ValidatorSet → ℕ → Bool
is_validator s address = any (λ v. v.address == address) (active_validators s)

abbrev pub div_ceil : ℕ → ℕ → ℕ
div_ceil a b = if a % b == 0 then a / b else a / b + 1

unfoldable pub quorum_threshold : ValidatorSet → ℕ
quorum_threshold s = div_ceil (mul128 (total_active_stake s) 2) 3

unfoldable pub recalculate_total_stake : ValidatorSet → ValidatorSet
recalculate_total_stake s = record s {
  total_stake = sum_stake (filter (λ v. v.is_active) s.validators);
}
