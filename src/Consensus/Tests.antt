-- ===== src/Consensus/Tests.antt =====
-- Tests of finality, slashing and the choice of the proposer, and the instances of their theorems.
use rustblockchain.Base.{ℕ, ◌+◌, ◌*◌, ◌≤◌, ◌≡◌, ◌⊎◌, length, refl, true, [], ◌∷◌, arith}
use rustblockchain.Crypto.Hash.{Primitives}
use rustblockchain.Base.Result.{ok}
use rustblockchain.Core.Validator.{
  ValidatorSet, new_info, is_validator, get_validator, active_validators, total_active_stake,
  quorum_threshold,
}
use rustblockchain.Consensus.Finality.{
  FinalityVote, FinalityEngine, Checks, add_vote, check_quorum, verify, voted_stake, finalized,
}
use rustblockchain.Consensus.Finality.Heights.{all_votes}
use rustblockchain.Consensus.Finality.Votes.{add_vote_quorum, one_validator_finalizes, cast}
use rustblockchain.Consensus.Finality.{finalize, push_vote, finalized, pending}
use rustblockchain.Consensus.Finality.Keys.{signed_by, add_vote_any_key}
use rustblockchain.Consensus.Proposer.{target, target, Draw, select_proposer}
use rustblockchain.Consensus.Proposer.Weighted.{select_proposer_weighted}

abbrev validators : ValidatorSet
validators = record {
  validators = new_info 1 11 500 ∷ new_info 2 12 300 ∷ new_info 3 13 100 ∷ [];
  total_stake = 900;
  min_stake = 100;
  max_validators = 10;
}

abbrev accepts_all : Checks
accepts_all key signed_bytes signature = true

abbrev vote : ℕ → FinalityVote
vote address = record {
  block_number = 5;
  block_hash = 77;
  validator = address;
  validator_pubkey = 10 + address;
  signature = 0;
  timestamp = 0;
}

-- The threshold is 600: the first validator has voted.
abbrev engine : FinalityEngine
engine = record { votes = (5, vote 1 ∷ []) ∷ []; finalized_height = 4; validator_set = validators }

abbrev small_engine : FinalityEngine
small_engine = record engine { votes = [] }

vote_finalizes : (add_vote accepts_all (vote 2) engine).0 ≡ ok finalized
unfolding add_vote check_quorum verify is_validator voted_stake quorum_threshold total_active_stake
    active_validators get_validator
vote_finalizes = refl

add_vote_quorum_example :
    (total_active_stake validators * 2 ≤ voted_stake validators (all_votes (vote 2) engine) * 3)
    × (is_validator validators 2 ≡ true)
    × ((add_vote accepts_all (vote 2) engine).1.finalized_height ≡ 5)
unfolding total_active_stake active_validators
add_vote_quorum_example =
    add_vote_quorum accepts_all (vote 2) engine vote_finalizes (omega arith) (omega arith)

one_validator_finalizes_example : 5 ≤ (cast accepts_all 6 (vote 3) small_engine).finalized_height
unfolding verify is_validator quorum_threshold total_active_stake active_validators get_validator
one_validator_finalizes_example =
    one_validator_finalizes accepts_all (vote 3) small_engine (new_info 3 13 100) 5 refl refl refl
      refl (omega arith) (omega arith)

-- The key 999 is no validator's.
add_vote_any_key_example :
    let forged = signed_by (vote 2) 999 4 in
    let r = add_vote accepts_all forged engine in
    (r.0 ≡ (add_vote accepts_all (vote 2) engine).0)
    × (r.1.finalized_height ≡ (add_vote accepts_all (vote 2) engine).1.finalized_height)
    × ((r ≡ (ok finalized, finalize 5 (push_vote forged engine)))
        ⊎ ((voted : ℕ) × (threshold : ℕ) × (r
              ≡ (ok (pending voted threshold), push_vote forged engine))))
unfolding verify is_validator active_validators
add_vote_any_key_example =
    add_vote_any_key accepts_all (vote 2) engine 999 4 refl refl refl (omega arith)

abbrev block_number : ℕ
block_number = 5

abbrev block_hash : ℕ
block_hash = 77

abbrev primitives : Primitives
primitives = record { blake3 = length; ed25519 = λ key message signature. true }

abbrev draw : Draw
draw seed total = 650

select_proposer_weighted_example : select_proposer primitives draw validators.validators 0 1 ≡ ok 2
unfolding target
select_proposer_weighted_example =
    select_proposer_weighted primitives draw (new_info 1 11 500) (new_info 2 12 300)
      (new_info 3 13 100 ∷ []) (new_info 1 11 500 ∷ []) (new_info 3 13 100 ∷ []) (new_info 2 12 300)
      0 1 refl (omega arith) (omega arith) (omega arith)
