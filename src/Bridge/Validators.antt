-- ===== src/Bridge/Validators.antt =====
-- crates/bridge/src/validator.rs: the validators that authorise cross-chain transfers. A public key
-- is an opaque number.
pub mod Weight
pub mod Threshold
mod Tests
use rustblockchain.Base.{
  ℕ, Bool, true, false, Option, none, some, List, [], if◌then◌else◌, ltb, Eq, nat_eq, filter,
  length, map, add64, sub64,
}
use rustblockchain.Base.Result.{Result, ok, err}
use rustblockchain.Base.Dict.{Dict, lookup, insert, remove}
use rustblockchain.Bridge.Types.{BridgeError, insufficient_signatures}

pub record BridgeValidator : Type 0 where
  pub address : ℕ
  pub public_key : ℕ
  pub weight : ℕ
  pub is_active : Bool
  pub confirmations_count : ℕ
  pub added_at : ℕ

pub record BridgeValidatorSet : Type 0 where
  pub validators : Dict ℕ BridgeValidator
  pub min_signatures : ℕ
  pub total_weight : ℕ

unfoldable pub new : ℕ → BridgeValidatorSet
new min_signatures = record { validators = []; min_signatures = min_signatures; total_weight = 0 }

abbrev pub new_validator : ℕ → ℕ → ℕ → ℕ → BridgeValidator
new_validator address public_key weight now = record {
  address = address;
  public_key = public_key;
  weight = weight;
  is_active = true;
  confirmations_count = 0;
  added_at = now;
}

unfoldable pub add_validator : ℕ → ℕ → ℕ → ℕ → BridgeValidatorSet → BridgeValidatorSet
add_validator address public_key weight now s = record s {
  validators = insert address (new_validator address public_key weight now) s.validators;
  total_weight = add64 s.total_weight weight;
}

unfoldable pub remove_validator : ℕ → BridgeValidatorSet → BridgeValidatorSet
remove_validator address s = elim (lookup address s.validators) [
  | none ↦ s
  | some v ↦ record s {
    validators = remove address s.validators;
    total_weight = sub64 s.total_weight v.weight;
  }
]

unfoldable pub is_validator : BridgeValidatorSet → ℕ → Bool
is_validator s address = elim (lookup address s.validators) [ none ↦ false | some v ↦ v.is_active ]

unfoldable pub active_count : BridgeValidatorSet → ℕ
active_count s = length (filter (λ e. e.1.is_active) s.validators)

unfoldable pub list_validators : BridgeValidatorSet → List BridgeValidator
list_validators s = map (λ e. e.1) s.validators

unfoldable pub get_validator : BridgeValidatorSet → ℕ → Option BridgeValidator
get_validator s address = lookup address s.validators

unfoldable pub verify_threshold : BridgeValidatorSet → List ℕ → Result BridgeError (Unit {0})
verify_threshold s signers =
    let valid_count = length (filter (is_validator s) signers) in
    if ltb valid_count s.min_signatures
    then err (insufficient_signatures s.min_signatures valid_count)
    else ok tt

unfoldable pub record_confirmation : ℕ → BridgeValidatorSet → BridgeValidatorSet
record_confirmation address s = elim (lookup address s.validators) [
  | none ↦ s
  | some v ↦ record s {
    validators =
        insert address (record v { confirmations_count = add64 v.confirmations_count 1 })
          s.validators;
  }
]
