-- ===== src/Core/Genesis.antt =====
-- crates/core/src/genesis.rs: the configuration of a chain's first block, and its validation.
use rustblockchain.Base.{
  ℕ, ◌≤◌, ◌≡◌, ◌↔◌, Option, none, some, List, [], ◌∷◌, ◌++◌, map, arith, ◌==◌, nat_eq, ltb, length,
  All,
}
use rustblockchain.Base.Text.{Text, text}
use rustblockchain.Base.Result.{Result, ok, err_if, ◌>>◌}
use rustblockchain.Core.Error.{
  CoreError, genesis_error, no_validators, few_validators, low_stake, no_gas,
}
use rustblockchain.Core.Params.{ConsensusParams}
use rustblockchain.Core.Validator.{ValidatorInfo, new_info}
use rustblockchain.Core.Block
use rustblockchain.Core.Block.{Block}

pub record GenesisValidator : Type 0 where
  pub address : ℕ
  pub public_key : ℕ
  pub stake : ℕ

pub record GenesisAccount : Type 0 where
  pub address : ℕ
  pub balance : ℕ

pub record GenesisConfig : Type 0 where
  pub chain_id : ℕ
  pub chain_name : Text
  pub timestamp : ℕ
  pub initial_validators : List GenesisValidator
  pub initial_accounts : List GenesisAccount
  pub consensus_params : ConsensusParams
  pub gas_limit : ℕ

-- The loop over the validators.
abbrev pub check_stakes : ℕ → List GenesisValidator → Result CoreError (Unit {0})
check_stakes min [] = ok tt
check_stakes min (v ∷ vs) =
    err_if (ltb v.stake min) (genesis_error (low_stake v.address v.stake min))
    >> check_stakes min vs

unfoldable pub validate : GenesisConfig → Result CoreError (Unit {0})
validate g =
    let count = length g.initial_validators in
    err_if (count == 0) (genesis_error no_validators)
    >> err_if (ltb count g.consensus_params.min_validators)
        (genesis_error (few_validators g.consensus_params.min_validators count))
    >> check_stakes g.consensus_params.min_stake g.initial_validators
    >> err_if (g.gas_limit == 0) (genesis_error no_gas)

-- Without a validator the indexing panics.
unfoldable pub to_genesis_block : GenesisConfig → Option Block
to_genesis_block g = elim g.initial_validators [
  | [] ↦ none
  | v ∷ vs ↦ some (
      Block.genesis g.chain_id g.timestamp v.address v.public_key g.gas_limit
        (text "rustchain genesis: " ++ g.chain_name))
]

unfoldable pub to_validator_infos : GenesisConfig → List ValidatorInfo
to_validator_infos g =
    map (λ (v : GenesisValidator). new_info v.address v.public_key v.stake) g.initial_validators

check_stakes_iff :
    (min : ℕ) (vs : List GenesisValidator)
    → (check_stakes min vs ≡ ok tt) ↔ All (λ v. min ≤ v.stake) vs
check_stakes_iff min [] = ground arith
check_stakes_iff min (v ∷ vs) = ground (arith, check_stakes_iff min vs)

-- A configuration is valid exactly if it has a validator and as many as the parameters ask for, each
-- with the minimal stake, and a gas limit above zero.
pub validate_iff :
    (g : GenesisConfig)
    → (validate g ≡ ok tt) ↔ (
        (1 ≤ length g.initial_validators)
        × (g.consensus_params.min_validators ≤ length g.initial_validators)
        × All (λ v. g.consensus_params.min_stake ≤ v.stake) g.initial_validators
        × (1 ≤ g.gas_limit))
unfolding validate
validate_iff g = ground (arith, check_stakes_iff g.consensus_params.min_stake g.initial_validators)
