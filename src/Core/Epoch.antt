-- ===== src/Core/Epoch.antt =====
-- crates/core/src/epoch.rs: an epoch, the blocks it holds and the validators that make them.
use rustblockchain.Base.{ℕ, Bool, Option, ◌&&◌, leb, ◌==◌, nat_eq}
use rustblockchain.Core.Validator.{ValidatorSet}

pub record EpochInfo : Type 0 where
  pub epoch_number : ℕ
  pub start_block : ℕ
  pub end_block : ℕ
  pub validator_set : ValidatorSet
  pub finalized_block : Option ℕ

unfoldable pub contains_block : EpochInfo → ℕ → Bool
contains_block e block_number = leb e.start_block block_number && leb block_number e.end_block

unfoldable pub is_last_block : EpochInfo → ℕ → Bool
is_last_block e block_number = block_number == e.end_block
