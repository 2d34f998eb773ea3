-- ===== src/Consensus/Finality/Votes.antt =====
-- Whose votes reach the quorum of crates/consensus/src/finality.rs.
use mathlib.Core.Path.{subst}
use rustblockchain.Base.{
  ℕ, zero, suc, ◌+◌, ◌*◌, ◌^◌, ◌≤◌, ◌<◌, ◌≡◌, ◌⊎◌, refl, sym, ap, ◌∙◌, inl, inr, true, none, some,
  List, [], ◌∷◌, ◌++◌, arith, unwrap_or, nat_eq, u128_mod, filter_map, sum_by, take, drop,
}
use rustblockchain.Base.Result.{ok, is_ok}
use rustblockchain.Base.Dict.{lookup, lookup-insert_self}
use rustblockchain.Base.Bytes.{
  le_bytes, from_le, from_le-le_bytes, length-le_bytes, take-append, drop-append,
}
use rustblockchain.Core.Validator.{
  ValidatorInfo, ValidatorSet, is_validator, get_validator, quorum_threshold, total_active_stake,
}
use rustblockchain.Consensus.Finality.{
  FinalityVote, finalized, FinalityEngine, Checks, voted_stake, check_quorum, push_vote, add_vote,
  verify, vote_data,
}
use rustblockchain.Consensus.Finality.Heights.{all_votes, add_vote_cases}

-- A vote signs its block number and block hash: two votes with the same signed bytes are for the
-- same block. Stated for 64-bit numbers and 256-bit hashes.
pub vote_data-injective :
    (n m g h : ℕ)
    → n < 256 ^ 8
    → m < 256 ^ 8
    → g < 256 ^ 32
    → h < 256 ^ 32
    → vote_data n g ≡ vote_data m h
    → (n ≡ m) × (g ≡ h)
unfolding vote_data
vote_data-injective n m g h ln lm lg lh e = (
  sym (from_le-le_bytes 8 n ln)
      ∙ ap from_le (
          sym (take-append 8 (le_bytes 8 n) _ (length-le_bytes 8 n))
          ∙ ap (take 8) e
          ∙ take-append 8 (le_bytes 8 m) _ (length-le_bytes 8 m))
      ∙ from_le-le_bytes 8 m lm,
  sym (from_le-le_bytes 32 g lg)
      ∙ ap from_le (
          sym (take-append 32 (le_bytes 32 g) _ (length-le_bytes 32 g))
          ∙ ap (λ xs. take 32 xs)
              (sym (drop-append 8 (le_bytes 8 n) _ (length-le_bytes 8 n))
                ∙ ap (drop 8) e
                ∙ drop-append 8 (le_bytes 8 m) _ (length-le_bytes 8 m))
          ∙ take-append 32 (le_bytes 32 h) _ (length-le_bytes 32 h))
      ∙ from_le-le_bytes 32 h lh,
)

-- When a vote finalizes a block that was not final, the votes recorded for that height, this one
-- included, stand for at least two thirds of the active stake, and the voter is an active validator.
-- Stated where twice the active stake fits into a u128.
pub add_vote_quorum :
    (checks : Checks) (v : FinalityVote) (e : FinalityEngine)
    → (add_vote checks v e).0 ≡ ok finalized
    → e.finalized_height < v.block_number
    → total_active_stake e.validator_set * 2 < u128_mod
    → (total_active_stake e.validator_set * 2 ≤ voted_stake e.validator_set (all_votes v e) * 3)
      × (is_validator e.validator_set v.validator ≡ true)
      × ((add_vote checks v e).1.finalized_height ≡ v.block_number)
unfolding quorum_threshold
add_vote_quorum checks v e done above fits = elim (add_vote_cases checks v e) [
  | inl (bad, _) ↦ absurd (ground arith)
  | inr (inl (old, _)) ↦ absurd (omega arith)
  | inr (inr (inl (_, known, q, r))) ↦ (ground arith, known, rw r (omega arith))
  | inr (inr (inr (_, _, _, r))) ↦ absurd (ground arith)
]

abbrev pub replicate {ℓ} : {A : Type ℓ} → ℕ → A → List A
replicate zero a = []
replicate (suc n) a = a ∷ replicate n a

replicate-append {ℓ} : {A : Type ℓ} (n : ℕ) (a : A) → replicate n a ++ a ∷ [] ≡ a ∷ replicate n a
replicate-append zero a = refl
replicate-append (suc n) a = ap (λ xs. a ∷ xs) (replicate-append n a)

-- The same vote, handed in again and again.
abbrev pub cast : Checks → ℕ → FinalityVote → FinalityEngine → FinalityEngine
cast checks zero v e = e
cast checks (suc n) v e = cast checks n v (add_vote checks v e).1

module _ (checks : Checks) (v : FinalityVote) where
  add_vote-height :
      (e : FinalityEngine) → e.finalized_height ≤ (add_vote checks v e).1.finalized_height
  add_vote-height e = elim (add_vote_cases checks v e) [
    | inl (_, r) ↦ rw r (omega arith)
    | inr (inl (_, r)) ↦ rw r (omega arith)
    | inr (inr (inl (_, _, _, r))) ↦ rw r (omega arith)
    | inr (inr (inr (_, _, _, r))) ↦ rw r (omega arith)
  ]

  cast-height :
      (n : ℕ) (e : FinalityEngine) → e.finalized_height ≤ (cast checks n v e).finalized_height
  cast-height zero e = omega arith
  cast-height (suc n) e = omega (arith, add_vote-height e, cast-height n (add_vote checks v e).1)

  module _ (vs : ValidatorSet) (i : ValidatorInfo)
      (found : get_validator vs v.validator ≡ some i) where
    stakes-replicate :
        (k : ℕ)
        → sum_by
            (λ (x : ValidatorInfo). x.stake)
            (filter_map (λ (w : FinalityVote). get_validator vs w.validator) (replicate k v))
          ≡ k * i.stake
    stakes-replicate zero = omega arith
    stakes-replicate (suc k) = ground (arith, stakes-replicate k)

    voted-replicate :
        (k : ℕ) → k * i.stake < u128_mod → voted_stake vs (replicate k v) ≡ k * i.stake
    unfolding voted_stake
    voted-replicate k h = omega (arith, stakes-replicate k)

    add_vote-accepted :
        (e : FinalityEngine)
        → verify checks v ≡ ok tt
        → is_validator e.validator_set v.validator ≡ true
        → is_ok (add_vote checks v e).0 ≡ true
    unfolding add_vote check_quorum
    add_vote-accepted e good known = ground arith

    all_votes-replicate :
        (k : ℕ) (e : FinalityEngine)
        → unwrap_or (lookup v.block_number e.votes) [] ≡ replicate k v
        → all_votes v e ≡ replicate (suc k) v
    all_votes-replicate k e h = ap (λ vs. vs ++ v ∷ []) h ∙ replicate-append k v

    -- One more copy of the vote finalizes its block, or is added to the votes.
    add_vote-copy :
        (k : ℕ) (e : FinalityEngine)
        → e.validator_set ≡ vs
        → verify checks v ≡ ok tt
        → is_validator vs v.validator ≡ true
        → unwrap_or (lookup v.block_number e.votes) [] ≡ replicate k v
        → suc k * i.stake < u128_mod
        → (v.block_number ≤ (add_vote checks v e).1.finalized_height)
          ⊎ ((suc k * i.stake < quorum_threshold vs) × ((add_vote checks v e).1 ≡ push_vote v e))
    add_vote-copy k e same good known votes fits = elim (add_vote_cases checks v e) [
      | inl (bad, _) ↦
          cc (add_vote-accepted e good (ap (λ s. is_validator s v.validator) same ∙ known))
      | inr (inl (old, r)) ↦ inl (omega (arith, add_vote-height e))
      | inr (inr (inl (_, _, _, r))) ↦ inl (rw r (omega arith))
      | inr (inr (inr (_, _, short, r))) ↦ inr (few short, ap (λ x. x.1) r)
    ]
      where
        few :
            voted_stake e.validator_set (all_votes v e) < quorum_threshold e.validator_set
            → suc k * i.stake < quorum_threshold vs
        few short = omega (
          arith,
          short,
          ap (λ s. voted_stake s (all_votes v e)) same,
          ap quorum_threshold same,
          ap (voted_stake vs) (all_votes-replicate k e votes),
          voted-replicate (suc k) fits,
        )

    cast-finalizes :
        (n k : ℕ) (e : FinalityEngine)
        → e.validator_set ≡ vs
        → verify checks v ≡ ok tt
        → is_validator vs v.validator ≡ true
        → unwrap_or (lookup v.block_number e.votes) [] ≡ replicate k v
        → quorum_threshold vs ≤ (k + suc n) * i.stake
        → (k + suc n) * i.stake < u128_mod
        → v.block_number ≤ (cast checks (suc n) v e).finalized_height
    cast-finalizes zero k e same good known votes q fits =
        elim (add_vote-copy k e same good known votes (grind arith)) [
          | inl done ↦ done
          | inr (short, _) ↦ absurd (grind arith)
        ]
    cast-finalizes (suc n) k e same good known votes q fits =
        elim (add_vote-copy k e same good known votes (grind arith)) [
          | inl done ↦ omega (arith, cast-height (suc n) (add_vote checks v e).1)
          | inr (short, r) ↦
              subst (λ x. v.block_number ≤ (cast checks (suc n) v x).finalized_height) (sym r)
                (cast-finalizes n (suc k) (push_vote v e) same good known
                  (ap (λ o. unwrap_or o [])
                      (lookup-insert_self v.block_number (all_votes v e) e.votes)
                    ∙ all_votes-replicate k e votes)
                  (grind arith) (grind arith))
        ]

-- One validator alone finalizes a block by sending its vote again and again: every copy counts its
-- stake once more, so it takes as many copies as make its stake reach the threshold.
pub one_validator_finalizes :
    (checks : Checks) (v : FinalityVote) (e : FinalityEngine) (i : ValidatorInfo) (n : ℕ)
    → verify checks v ≡ ok tt
    → is_validator e.validator_set v.validator ≡ true
    → get_validator e.validator_set v.validator ≡ some i
    → lookup v.block_number e.votes ≡ none
    → quorum_threshold e.validator_set ≤ suc n * i.stake
    → suc n * i.stake < u128_mod
    → v.block_number ≤ (cast checks (suc n) v e).finalized_height
one_validator_finalizes checks v e i n good known found fresh q fits =
    cast-finalizes checks v e.validator_set i found n 0 e refl good known
      (ap (λ o. unwrap_or o []) fresh) (grind arith) (grind arith)
