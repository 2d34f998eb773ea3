-- ===== src/Consensus/Chain/Tests.antt =====
-- Tests of the chain's state and the instances of its theorems.
use rustblockchain.Base.{
  ◌+◌, ◌≤◌, ◌<◌, ◌≡◌, ◌⊎◌, ◌↔◌, refl, false, none, some, List, [], ◌∷◌, arith, length, add64, leb,
  All,
}
use rustblockchain.Base.Sorting.{IsSorted, sort_by}
use rustblockchain.Base.Result.{ok}
use rustblockchain.Core.Block
use rustblockchain.Core.Block.{Block, hash_header}
use rustblockchain.Core.Epoch.{EpochInfo, contains_block, is_last_block}
use rustblockchain.Core.Genesis.{validate, to_genesis_block}
use rustblockchain.Core.Transaction.{transfer}
use rustblockchain.Core.Validator.{ValidatorInfo, new_info, new_set}
use rustblockchain.Consensus.Samples.{
  primitives, wasm, to_hex, serialize_header, call_of, empty, engine, first, first_block, genesis,
  params, block,
}
use rustblockchain.Consensus.Chain.{
  ChainState, from_genesis, apply_block, maybe_advance_epoch, next_validators, genesis_set,
}
use rustblockchain.Consensus.Chain.Epochs.{
  next_validators_lem, next_validators_empty_iff, maybe_advance_epoch_follows,
}
use rustblockchain.Consensus.Chain.Restart.{started, took, from_genesis_restart}

start_test : from_genesis primitives serialize_header genesis empty ≡ some (ok first)
unfolding from_genesis validate to_genesis_block
start_test = refl

abbrev second : ChainState
second =
    (apply_block primitives serialize_header wasm to_hex
      (block (hash_header primitives serialize_header first_block.header) (call_of transfer ∷ []))
      engine first).2

height_test : second.height ≡ 1
unfolding apply_block hash_header Block.genesis
height_test = refl

from_genesis_restart_example :
    (st : ChainState) × (from_genesis primitives serialize_header genesis second.storage
      ≡ some (ok st))
    × (st.head ≡ second.head)
    × (st.height ≡ second.height)
    × (st.current_epoch.validator_set ≡ genesis_set genesis)
from_genesis_restart_example =
    from_genesis_restart primitives serialize_header genesis wasm to_hex second
      (took
        (block (hash_header primitives serialize_header first_block.header) (call_of transfer ∷ []))
        engine (started empty first refl start_test))
      (omega arith)

abbrev validators : List ValidatorInfo
validators = new_info 1 1 500 ∷ new_info 2 2 2000 ∷ new_info 3 3 3000 ∷ []

next_test : next_validators params 0 validators ≡ new_info 3 3 3000 ∷ new_info 2 2 2000 ∷ []
unfolding next_validators sort_by
next_test = refl

next_validators_lem_example :
    let next = next_validators params 0 validators in
    (length next ≤ 100)
    × All (λ v. 1000 ≤ v.stake) next
    × IsSorted (λ (a : ValidatorInfo) (b : ValidatorInfo). leb b.stake a.stake) next
next_validators_lem_example = next_validators_lem params 0 validators

next_validators_empty_iff_example :
    (next_validators params 0 validators ≡ []) ↔ All (λ v. v.stake < 1000) validators
next_validators_empty_iff_example = next_validators_empty_iff params 0 validators (omega arith)

-- The last block of the first epoch.
abbrev last : ChainState
last = record first { height = 9 }

abbrev next_epoch : EpochInfo
next_epoch = record {
  epoch_number = 1;
  start_block = 10;
  end_block = 19;
  validator_set = new_set (next_validators params 0 (genesis_set genesis).validators) 1000 100;
  finalized_block = none;
}

advance_test : (maybe_advance_epoch params 0 last).0 ≡ some next_epoch
unfolding maybe_advance_epoch is_last_block
advance_test = refl

maybe_advance_epoch_follows_example :
    (next_epoch.start_block ≡ last.current_epoch.end_block + 1)
    × (next_epoch.epoch_number ≡ add64 last.current_epoch.epoch_number 1)
    × ((contains_block last.current_epoch 9 ≡ false) ⊎ (contains_block next_epoch 9 ≡ false))
maybe_advance_epoch_follows_example =
    maybe_advance_epoch_follows params 0 9 last next_epoch advance_test (omega arith)
