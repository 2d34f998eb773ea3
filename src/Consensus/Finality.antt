-- ===== src/Consensus/Finality.antt =====
-- crates/consensus/src/finality.rs: finality votes and the engine that counts them. A block hash is
-- the number of its 32 bytes, lowest first. The check of an Ed25519 signature is another crate's
-- code: the parameter `checks key data signature`.
pub mod Votes
pub mod Heights
pub mod Keys
use Prim.Native.Nat.{max}
use rustblockchain.Base.{
  ℕ, ◌+◌, ◌%◌, Bool, true, false, not, Option, none, some, List, [], ◌∷◌, ◌++◌, if◌then◌else◌, leb,
  ltb, Eq, nat_eq, filter, filter_map, sum_by, u128_mod,
}
use rustblockchain.Base.Dict.{Dict, lookup, update_or}
use rustblockchain.Base.Text.{Text, text}
use rustblockchain.Base.Bytes.{le_bytes}
use rustblockchain.Base.Result.{Result, ok, err, err_if}
use rustblockchain.Base.Action.{Action, pure, gets, raise_if, modify, from_result, ◌>>=◌, ◌>>◌}
use rustblockchain.Core.Validator.{
  ValidatorInfo, ValidatorSet, get_validator, is_validator, quorum_threshold,
}

pub record FinalityVote : Type 0 where
  pub block_number : ℕ
  pub block_hash : ℕ
  pub validator : ℕ
  pub validator_pubkey : ℕ
  pub signature : ℕ
  pub timestamp : ℕ

-- The bytes that a vote signs.
unfoldable pub vote_data : ℕ → ℕ → Text
vote_data block_number block_hash =
    le_bytes 8 block_number ++ (le_bytes 32 block_hash ++ text "finality_vote")

pub data ConsensusError : Type 0 where
  invalid_vote_signature : ConsensusError
  not_active_validator : ℕ → ConsensusError

abbrev pub Checks : Type 0
Checks = ℕ → Text → ℕ → Bool

unfoldable pub verify : Checks → FinalityVote → Result ConsensusError (Unit {0})
verify checks v =
    err_if (not (checks v.validator_pubkey (vote_data v.block_number v.block_hash) v.signature))
      invalid_vote_signature

pub data FinalityStatus : Type 0 where
  pending : ℕ → ℕ → FinalityStatus
  finalized : FinalityStatus

pub record FinalityEngine : Type 0 where
  pub votes : Dict ℕ (List FinalityVote)
  pub finalized_height : ℕ
  pub validator_set : ValidatorSet

unfoldable pub new : ValidatorSet → FinalityEngine
new validator_set = record { votes = []; finalized_height = 0; validator_set = validator_set }

abbrev pub Finality : Type 0 → Type 0
Finality = Action ConsensusError FinalityEngine

-- The stakes of the voters that are found, added up.
unfoldable pub voted_stake : ValidatorSet → List FinalityVote → ℕ
voted_stake vs votes =
    sum_by (λ (i : ValidatorInfo). i.stake) (filter_map (λ v. get_validator vs v.validator) votes)
    % u128_mod

-- The engine after a block has reached its quorum.
abbrev pub finalize : ℕ → FinalityEngine → FinalityEngine
finalize block_number e = record e {
  finalized_height = max e.finalized_height block_number;
  votes = filter (λ x. not (leb x.0 block_number)) e.votes;
}

unfoldable pub check_quorum : ℕ → Finality FinalityStatus
check_quorum block_number e =
    let threshold = quorum_threshold e.validator_set in
    elim (lookup block_number e.votes) [
      | none ↦ (ok (pending 0 threshold), e)
      | some votes ↦
          let voted = voted_stake e.validator_set votes in
          if leb threshold voted
          then (ok finalized, finalize block_number e)
          else (ok (pending voted threshold), e)
    ]

abbrev pub push_vote : FinalityVote → FinalityEngine → FinalityEngine
push_vote v e = record e { votes = update_or v.block_number [] (λ vs. vs ++ v ∷ []) e.votes }

unfoldable pub add_vote : Checks → FinalityVote → Finality FinalityStatus
unfolding check_quorum
add_vote checks v = do
  from_result (verify checks v)
  known ← gets (λ e. is_validator e.validator_set v.validator)
  raise_if (not known) (not_active_validator v.validator)
  height ← gets (λ e. e.finalized_height)
  if leb v.block_number height
      then pure finalized
      else (modify (push_vote v) >> check_quorum v.block_number)

unfoldable pub is_finalized : FinalityEngine → ℕ → Bool
is_finalized e block_number = leb block_number e.finalized_height

unfoldable pub update_validator_set : ValidatorSet → FinalityEngine → FinalityEngine
update_validator_set vs e = record e { validator_set = vs }
