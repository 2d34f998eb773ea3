-- ===== src/Bridge/Validators/Threshold.antt =====
-- What the signature threshold of crates/bridge/src/validator.rs counts.
use rustblockchain.Base.{
  ℕ, zero, suc, ◌≤◌, ◌<◌, ◌≡◌, refl, true, false, List, [], ◌∷◌, arith, nat_eq, length, filter, any,
}
use rustblockchain.Base.Result.{ok, is_ok}
use rustblockchain.Bridge.Validators.{BridgeValidatorSet, is_validator, verify_threshold}

abbrev pub replicate {ℓ} : {A : Type ℓ} → ℕ → A → List A
replicate zero a = []
replicate (suc n) a = a ∷ replicate n a

count-replicate :
    (s : BridgeValidatorSet) (a n : ℕ)
    → is_validator s a ≡ true
    → length (filter (is_validator s) (replicate n a)) ≡ n
count-replicate s a zero h = refl
count-replicate s a (suc n) h = ground (arith, count-replicate s a n h)

-- The same signature repeated counts each time: one active validator alone meets any threshold by
-- signing often enough.
pub verify_threshold_one_signer :
    (s : BridgeValidatorSet) (a n : ℕ)
    → is_validator s a ≡ true
    → s.min_signatures ≤ n
    → verify_threshold s (replicate n a) ≡ ok tt
unfolding verify_threshold
verify_threshold_one_signer s a n h k = ground (arith, count-replicate s a n h)

-- Signers that are no active validators do not help: a list without any meets a threshold of one
-- or more never.
filter_none :
    (s : BridgeValidatorSet) (xs : List ℕ)
    → any (is_validator s) xs ≡ false
    → length (filter (is_validator s) xs) ≡ 0
filter_none s [] h = refl
filter_none s (x ∷ xs) h = ground (arith, filter_none s xs)

pub verify_threshold_outsiders :
    (s : BridgeValidatorSet) (xs : List ℕ)
    → any (is_validator s) xs ≡ false
    → 0 < s.min_signatures
    → is_ok (verify_threshold s xs) ≡ false
unfolding verify_threshold
verify_threshold_outsiders s xs h k = ground (arith, filter_none s xs h)
