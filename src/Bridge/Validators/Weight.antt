-- ===== src/Bridge/Validators/Weight.antt =====
-- The total weight that crates/bridge/src/validator.rs keeps beside its validators.
use rustblockchain.Base.{
  ℕ, ◌+◌, ◌%◌, ◌<◌, ◌≡◌, inl, inr, false, none, some, arith, nat_eq, Option-cases, u64_mod,
}
use rustblockchain.Base.Dict.{
  lookup, sum_values, sum_values-insert, sum_values-insert_new, sum_values-remove, HasUniqueKeys,
  lookup-remove_self, insert-HasUniqueKeys, remove-HasUniqueKeys,
}
use rustblockchain.Bridge.Validators.{
  BridgeValidator, BridgeValidatorSet, add_validator, remove_validator, record_confirmation,
  is_validator, new_validator,
}

abbrev pub weight_of : BridgeValidator → ℕ
weight_of v = v.weight

-- The stored total is the sum of the validators' weights, as a u64.
pub record IsWeighed (s : BridgeValidatorSet) : Type 0 where
  pub total : s.total_weight ≡ sum_values weight_of s.validators % u64_mod
  pub unique : HasUniqueKeys s.validators

-- Adding a validator whose address is new keeps the total exact.
pub add_validator-IsWeighed :
    (a key weight now : ℕ) (s : BridgeValidatorSet)
    → IsWeighed s
    → lookup a s.validators ≡ none
    → IsWeighed (add_validator a key weight now s)
unfolding add_validator
add_validator-IsWeighed a key weight now s w fresh = record {
  total = omega (
    arith,
    w.total,
    sum_values-insert_new weight_of a (new_validator a key weight now) s.validators fresh,
  );
  unique = insert-HasUniqueKeys a (new_validator a key weight now) s.validators w.unique;
}

-- Adding a validator whose address is already there replaces its entry but keeps the old weight in
-- the total, which from then on is too large by that weight (modulo 2 ^ 64).
pub add_validator_again :
    (a key weight now : ℕ) (s : BridgeValidatorSet) (old : BridgeValidator)
    → IsWeighed s
    → lookup a s.validators ≡ some old
    → (add_validator a key weight now s).total_weight
      ≡ (sum_values weight_of (add_validator a key weight now s).validators + old.weight) % u64_mod
unfolding add_validator
add_validator_again a key weight now s old w e = omega (
  arith,
  w.total,
  sum_values-insert weight_of a (new_validator a key weight now) old s.validators e,
)

-- Removing a validator keeps the total exact, and the address is no validator afterwards.
pub remove_validator-IsWeighed :
    (a : ℕ) (s : BridgeValidatorSet)
    → IsWeighed s
    → (u : BridgeValidator) → lookup a s.validators ≡ some u
    → u.weight < u64_mod
    → IsWeighed (remove_validator a s) × (is_validator (remove_validator a s) a ≡ false)
unfolding remove_validator is_validator
remove_validator-IsWeighed a s w u e h = ground (
  arith,
  w.total,
  sum_values-remove weight_of a u s.validators,
  remove-HasUniqueKeys a s.validators w.unique,
  lookup-remove_self a s.validators w.unique,
)

-- Counting a confirmation changes no weight.
pub record_confirmation-IsWeighed :
    (a : ℕ) (s : BridgeValidatorSet) → IsWeighed s → IsWeighed (record_confirmation a s)
unfolding record_confirmation
record_confirmation-IsWeighed a s w = elim (Option-cases (lookup a s.validators)) [
  | inl e ↦ ground arith
  | inr (v, e) ↦ grind (arith, sum_values-insert, insert-HasUniqueKeys)
]
