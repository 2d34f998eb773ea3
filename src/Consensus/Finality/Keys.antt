-- ===== src/Consensus/Finality/Keys.antt =====
-- The keys that sign the votes of crates/consensus/src/finality.rs.
use rustblockchain.Base.{
  ℕ, ◌%◌, ◌<◌, ◌⊎◌, ◌≡◌, refl, ap, inl, inr, true, List, [], ◌∷◌, ◌++◌, arith, unwrap_or, nat_eq,
  u128_mod, filter_map, sum_by,
}
use rustblockchain.Base.Result.{ok}
use rustblockchain.Base.Dict.{lookup}
use rustblockchain.Core.Validator.{
  ValidatorInfo, ValidatorSet, is_validator, get_validator, quorum_threshold,
}
use rustblockchain.Consensus.Finality.{
  FinalityVote, FinalityEngine, Checks, voted_stake, push_vote, add_vote, verify, vote_data,
  pending, finalized, finalize,
}
use rustblockchain.Consensus.Finality.Heights.{check_quorum_cases, lookup-push_vote, all_votes}

-- The same vote under another key.
abbrev pub signed_by : FinalityVote → ℕ → ℕ → FinalityVote
signed_by v key signature = record v { validator_pubkey = key; signature = signature }

voted_stake-signed_by :
    (vs : ValidatorSet) (votes : List FinalityVote) (v : FinalityVote) (key signature : ℕ)
    → voted_stake vs (votes ++ signed_by v key signature ∷ []) ≡ voted_stake vs (votes ++ v ∷ [])
unfolding voted_stake
voted_stake-signed_by vs votes v key signature = ap (λ n. n % u128_mod) (sums votes)
  where
    sums :
        (votes : List FinalityVote)
        → sum_by
            (λ (i : ValidatorInfo). i.stake)
            (filter_map
              (λ (w : FinalityVote). get_validator vs w.validator)
              (votes ++ signed_by v key signature ∷ []))
          ≡ sum_by
              (λ (i : ValidatorInfo). i.stake)
              (filter_map (λ (w : FinalityVote). get_validator vs w.validator) (votes ++ v ∷ []))
    sums [] = refl
    sums (w ∷ ws) = ground (arith, sums ws)

-- A vote for a block above the finalized height counts for the active validator that it names, whatever
-- key signed it: take a vote that verifies, and sign it with any other key, with a valid signature. The
-- answer and the finalized height are the same, and the vote with the other key is added, which finalizes
-- its block or leaves it pending.
pub add_vote_any_key :
    (checks : Checks) (v : FinalityVote) (e : FinalityEngine) (key signature : ℕ)
    → verify checks v ≡ ok tt
    → checks key (vote_data v.block_number v.block_hash) signature ≡ true
    → is_validator e.validator_set v.validator ≡ true
    → e.finalized_height < v.block_number
    → let forged = signed_by v key signature in
      let r = add_vote checks forged e in
      (r.0 ≡ (add_vote checks v e).0)
      × (r.1.finalized_height ≡ (add_vote checks v e).1.finalized_height)
      × ((r ≡ (ok finalized, finalize v.block_number (push_vote forged e)))
          ⊎ ((voted : ℕ) × (threshold : ℕ) × (r
                ≡ (ok (pending voted threshold), push_vote forged e))))
unfolding add_vote verify
add_vote_any_key checks v e key signature good valid known above =
    let w = signed_by v key signature in
    let same =
      voted_stake-signed_by e.validator_set (unwrap_or (lookup v.block_number e.votes) []) v key
        signature in
    let voted = voted_stake e.validator_set (all_votes w e) in
    let threshold = quorum_threshold e.validator_set in
    elim (check_quorum_cases v.block_number (push_vote v e) (lookup-push_vote v e)) [
      | inl (q, r) ↦
          elim (check_quorum_cases w.block_number (push_vote w e) (lookup-push_vote w e)) [
            | inl (q', r') ↦ (ground arith, ground arith, inl (ground arith))
            | inr (q', r') ↦ absurd (omega arith)
          ]
      | inr (q, r) ↦
          elim (check_quorum_cases w.block_number (push_vote w e) (lookup-push_vote w e)) [
            | inl (q', r') ↦ absurd (omega arith)
            | inr (q', r') ↦ (ground arith, ground arith, inr (voted, threshold, ground arith))
          ]
    ]
