-- ===== src/Bridge/Validators/Tests.antt =====
-- Tests of the bridge's validator set and the instances of its theorems.
use rustblockchain.Base.{◌+◌, ◌%◌, ◌≡◌, refl, true, [], ◌∷◌, arith, u64_mod, nat_eq}
use rustblockchain.Base.Result.{ok}
use rustblockchain.Base.Dict.{sum_values}
use rustblockchain.Base.Text.{text_eq}
use rustblockchain.Bridge.Validators.{
  BridgeValidatorSet, add_validator, verify_threshold, new_validator, is_validator,
}
use rustblockchain.Bridge.Validators.Weight.{weight_of, IsWeighed, add_validator_again}
use rustblockchain.Bridge.Validators.Threshold.{replicate, verify_threshold_one_signer}

abbrev guards : BridgeValidatorSet
guards = record {
  validators = (7, new_validator 7 70 5 0) ∷ (8, new_validator 8 80 3 0) ∷ [];
  min_signatures = 2;
  total_weight = 8;
}

guards-IsWeighed : IsWeighed guards
guards-IsWeighed = ground arith

add_validator_again_example :
    (add_validator 7 71 6 1 guards).total_weight
    ≡ (sum_values weight_of (add_validator 7 71 6 1 guards).validators + 5) % u64_mod
add_validator_again_example =
    add_validator_again 7 71 6 1 guards (new_validator 7 70 5 0) guards-IsWeighed refl

-- The entries then weigh 9, and the stored total is 14.
add_validator_again_test :
    ((add_validator 7 71 6 1 guards).total_weight ≡ 14)
    × (sum_values weight_of (add_validator 7 71 6 1 guards).validators ≡ 9)
unfolding add_validator
add_validator_again_test = (refl, refl)

guard_is_validator : is_validator guards 7 ≡ true
unfolding is_validator
guard_is_validator = refl

verify_threshold_one_signer_example : verify_threshold guards (replicate 2 7) ≡ ok tt
verify_threshold_one_signer_example =
    verify_threshold_one_signer guards 7 2 guard_is_validator (omega arith)
