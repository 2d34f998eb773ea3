-- ===== src/Consensus/Finality/Heights.antt =====
-- What finality of crates/consensus/src/finality.rs promises about heights and about the votes
-- that it keeps.
use rustblockchain.Base.{
  ℕ, ◌≤◌, ◌<◌, ◌≡◌, ◌⊎◌, inl, inr, true, false, not, some, List, [], ◌∷◌, ◌++◌, arith, Bool-cases,
  unwrap_or, nat_eq, leb, filter,
}
use rustblockchain.Base.Result.{ok, is_ok, Result-cases}
use rustblockchain.Base.Dict.{Dict, lookup, Entries, insert-Entries, lookup-insert_self}
use rustblockchain.Core.Validator.{is_validator, quorum_threshold}
use rustblockchain.Consensus.Finality.{
  FinalityVote, pending, finalized, FinalityEngine, Checks, voted_stake, check_quorum, push_vote,
  add_vote, verify, finalize,
}

-- Votes are kept for blocks above the finalized height only.
abbrev pub IsPruned : FinalityEngine → Type 0
IsPruned e = Entries (λ block votes. e.finalized_height < block) e.votes

filter-above :
    (h b : ℕ) (d : Dict ℕ (List FinalityVote))
    → Entries (λ block votes. h < block) d
    → Entries (λ block votes. (h < block) × (b < block)) (filter (λ x. not (leb x.0 b)) d)
filter-above h b [] p = tt
filter-above h b ((k, v) ∷ d) p = ground (arith, filter-above h b d p.1)

Entries-max :
    (h b k : ℕ) (d : Dict ℕ (List FinalityVote))
    → (k ≤ h) ⊎ (k ≤ b)
    → Entries (λ block votes. (h < block) × (b < block)) d
    → Entries (λ block votes. k < block) d
Entries-max h b k [] m p = tt
Entries-max h b k ((j, v) ∷ d) m p = ground (arith, Entries-max h b k d m p.1)

finalize-IsPruned : (b : ℕ) (e : FinalityEngine) → IsPruned e → IsPruned (finalize b e)
finalize-IsPruned b e p =
    Entries-max e.finalized_height b (finalize b e).finalized_height (finalize b e).votes
      (ground arith) (filter-above e.finalized_height b e.votes p)

push_vote-IsPruned :
    (v : FinalityVote) (e : FinalityEngine)
    → e.finalized_height < v.block_number
    → IsPruned e
    → IsPruned (push_vote v e)
push_vote-IsPruned v e h p =
    insert-Entries (λ block votes. e.finalized_height < block) v.block_number
      (unwrap_or (lookup v.block_number e.votes) [] ++ v ∷ []) e.votes h p

-- The two ends of a quorum check.
pub check_quorum_cases :
    (b : ℕ) (e : FinalityEngine) {votes : List FinalityVote}
    → lookup b e.votes ≡ some votes
    → ((quorum_threshold e.validator_set ≤ voted_stake e.validator_set votes)
        × (check_quorum b e ≡ (ok finalized, finalize b e)))
      ⊎ ((voted_stake e.validator_set votes < quorum_threshold e.validator_set)
          × (check_quorum b e ≡ (
            ok (pending (voted_stake e.validator_set votes) (quorum_threshold e.validator_set)),
            e,
          )))
unfolding check_quorum
check_quorum_cases b e {votes} h =
    elim (Bool-cases (leb (quorum_threshold e.validator_set) (voted_stake e.validator_set votes))) [
      | inl q ↦ inl (ground arith)
      | inr q ↦ inr (ground arith)
    ]

abbrev pub all_votes : FinalityVote → FinalityEngine → List FinalityVote
all_votes v e = unwrap_or (lookup v.block_number e.votes) [] ++ v ∷ []

pub lookup-push_vote :
    (v : FinalityVote) (e : FinalityEngine)
    → lookup v.block_number (push_vote v e).votes ≡ some (all_votes v e)
lookup-push_vote v e = lookup-insert_self v.block_number (all_votes v e) e.votes

-- The four ends of a vote.
pub add_vote_cases :
    (checks : Checks) (v : FinalityVote) (e : FinalityEngine)
    → let r = add_vote checks v e in
      let voted = voted_stake e.validator_set (all_votes v e) in
      let threshold = quorum_threshold e.validator_set in
      ((is_ok r.0 ≡ false) × (r.1 ≡ e))
      ⊎ ((v.block_number ≤ e.finalized_height) × (r ≡ (ok finalized, e)))
      ⊎ ((e.finalized_height < v.block_number)
          × (is_validator e.validator_set v.validator ≡ true)
          × (threshold ≤ voted)
          × (r ≡ (ok finalized, finalize v.block_number (push_vote v e))))
      ⊎ ((e.finalized_height < v.block_number)
          × (is_validator e.validator_set v.validator ≡ true)
          × (voted < threshold)
          × (r ≡ (ok (pending voted threshold), push_vote v e)))
unfolding add_vote
add_vote_cases checks v e = elim (Result-cases (verify checks v)) [
  | inr (x, bad) ↦ inl (ground arith)
  | inl (u, good) ↦ elim (Bool-cases (is_validator e.validator_set v.validator)) [
    | inr unknown ↦ inl (ground arith)
    | inl known ↦ elim (Bool-cases (leb v.block_number e.finalized_height)) [
      | inl old ↦ inr (inl (ground arith))
      | inr recent ↦
          elim (check_quorum_cases v.block_number (push_vote v e) (lookup-push_vote v e)) [
            | inl (q, r) ↦ inr (inr (inl (ground arith)))
            | inr (q, r) ↦ inr (inr (inr (ground arith)))
          ]
    ]
  ]
]

-- A vote never lowers the finalized height, and afterwards votes are again kept only for blocks
-- above it.
pub add_vote-IsPruned :
    (checks : Checks) (v : FinalityVote) (e : FinalityEngine)
    → IsPruned e
    → let e' = (add_vote checks v e).1 in IsPruned e' × (e.finalized_height ≤ e'.finalized_height)
add_vote-IsPruned checks v e p = elim (add_vote_cases checks v e) [
  | inl (_, r) ↦ rw r (p, omega arith)
  | inr (inl (_, r)) ↦ rw r (p, omega arith)
  | inr (inr (inl (h, _, _, r))) ↦
      rw r
        (finalize-IsPruned v.block_number (push_vote v e) (push_vote-IsPruned v e h p), omega arith)
  | inr (inr (inr (h, _, _, r))) ↦ rw r (push_vote-IsPruned v e h p, omega arith)
]
