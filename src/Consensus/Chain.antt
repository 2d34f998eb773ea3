-- ===== src/Consensus/Chain.antt =====
-- crates/consensus/src/state.rs: the authoritative state of the chain, from its genesis on. The
-- database's writes succeed here. `none` is a panic.
pub mod Blocks
pub mod Epochs
pub mod Restart
mod Tests
use rustblockchain.Base.{
  ℕ, ◌+◌, ◌/◌, Bool, true, false, not, Option, none, some, List, [], ◌∷◌, ◌++◌, map, take, filter,
  if◌then◌else◌, Eq, ◌==◌, nat_eq, leb, unwrap_or, add64, sub64, mul64,
}
use rustblockchain.Base.Dict.{Dict, lookup, insert}
use rustblockchain.Base.Sorting.{sort_by}
use rustblockchain.Base.Text.{Text}
use rustblockchain.Base.Result.{Result, ok, err}
use rustblockchain.Crypto.Hash.{Primitives}
use rustblockchain.Core.Account
use rustblockchain.Core.Account.{Account}
use rustblockchain.Core.Block.{Block, BlockHeader, hash_header}
use rustblockchain.Core.Epoch.{EpochInfo, is_last_block}
use rustblockchain.Core.Error.{CoreError}
use rustblockchain.Core.Genesis.{
  GenesisConfig, GenesisAccount, validate, to_genesis_block, to_validator_infos,
}
use rustblockchain.Core.Params.{ConsensusParams}
use rustblockchain.Core.Receipt.{TransactionReceipt}
use rustblockchain.Core.Validator.{ValidatorInfo, ValidatorSet, new_set}
use rustblockchain.Storage.{
  ChainDatabase, get_block_by_number, put_block, put_account, update_accounts, put_validator,
  put_epoch, put_transactions, put_receipts, set_chain_height, set_best_block_hash,
  set_genesis_hash,
}
use rustblockchain.Vm.Engine.{Wasmtime, WasmEngine}
use rustblockchain.Consensus.Ledger.{Ledger}
use rustblockchain.Consensus.Execution.{World, Cause, execute_from}

pub record ChainState : Type 0 where
  pub head : Block
  pub height : ℕ
  pub current_epoch : EpochInfo
  pub storage : ChainDatabase Cause

pub data ChainError : Type 0 where
  bad_genesis : CoreError → ChainError
  genesis_mismatch head_not_found : ChainError
  parent_mismatch number_mismatch : (expected got : ℕ) → ChainError

abbrev pub genesis_set : GenesisConfig → ValidatorSet
genesis_set g =
    new_set (to_validator_infos g) g.consensus_params.min_stake g.consensus_params.max_validators

-- The number of the last block of an epoch.
abbrev pub epoch_end : (start len : ℕ) → ℕ
epoch_end start len = sub64 (add64 start len) 1

abbrev pub put_accounts : List GenesisAccount → ChainDatabase Cause → ChainDatabase Cause
put_accounts [] db = db
put_accounts (a ∷ rest) db = put_accounts rest (put_account (Account.new a.address a.balance) db)

abbrev pub put_validators : List ValidatorInfo → ChainDatabase Cause → ChainDatabase Cause
put_validators [] db = db
put_validators (v ∷ rest) db = put_validators rest (put_validator v db)

-- A chain that the database already has: its epoch is computed anew, with the genesis validators.
unfoldable pub load_chain :
    GenesisConfig → ChainDatabase Cause → Option (Result ChainError ChainState)
load_chain g db =
    let height = unwrap_or db.chain_height 0 in
    let len = g.consensus_params.epoch_length in
    elim (get_block_by_number height db) [
      | none ↦ some (err head_not_found)
      | some head ↦
          if len == 0
          then none
          else some (
              ok (record {
                head = head;
                height = height;
                current_epoch = record {
                  epoch_number = height / len;
                  start_block = mul64 (height / len) len;
                  end_block = epoch_end (mul64 (height / len) len) len;
                  validator_set = genesis_set g;
                  finalized_block = none;
                };
                storage = db;
              }))
    ]

abbrev pub first_epoch : GenesisConfig → EpochInfo
first_epoch g = record {
  epoch_number = 0;
  start_block = 0;
  end_block = sub64 g.consensus_params.epoch_length 1;
  validator_set = genesis_set g;
  finalized_block = none;
}

module _ (c : Primitives) (serialize_header : BlockHeader → Text) where
  unfoldable pub first_storage : GenesisConfig → Block → ChainDatabase Cause → ChainDatabase Cause
  first_storage g b db =
      let headed =
        set_genesis_hash (hash_header c serialize_header b.header)
          (set_chain_height 0 (put_block c serialize_header b db)) in
      put_epoch (first_epoch g)
        (put_validators (to_validator_infos g) (put_accounts g.initial_accounts headed))

  unfoldable pub from_genesis :
      GenesisConfig → ChainDatabase Cause → Option (Result ChainError ChainState)
  from_genesis g db = elim (validate g) [
    | err e ↦ some (err (bad_genesis e))
    | ok u ↦ elim (to_genesis_block g) [
      | none ↦ none
      | some b ↦ elim db.genesis_hash [
        | some existing ↦
            if not (existing == hash_header c serialize_header b.header)
            then some (err genesis_mismatch)
            else load_chain g db
        | none ↦ some (
            ok (record {
              head = b;
              height = 0;
              current_epoch = first_epoch g;
              storage = first_storage g b db;
            }))
      ]
    ]
  ]

  abbrev pub ledger_of : ChainState → Ledger
  ledger_of st = record {
    modified = [];
    stored = st.storage.accounts;
    validator_set = st.current_epoch.validator_set;
    stored_validators = st.storage.validators;
  }

  -- The batch that is written at the end. The validators were written as they changed.
  unfoldable pub commit :
      Block → List (TransactionReceipt Cause) → Ledger → ChainDatabase Cause → ChainDatabase Cause
  commit b receipts l db =
      let accounts = map (λ (entry : ℕ × Account). entry.1) l.modified in
      set_best_block_hash (hash_header c serialize_header b.header) (
        set_chain_height b.header.number (
          update_accounts accounts (
            put_receipts receipts (
              put_transactions 0 b.header.number b.transactions (
                put_block c serialize_header b (record db { validators = l.stored_validators }))))))

  module _ {Module : Type 0} (m : Wasmtime Module) (to_hex : ℕ → Text) where
    abbrev pub executed :
        Block → WasmEngine Module → ChainState → List (TransactionReceipt Cause) × World Module
    executed b e st =
        execute_from m c to_hex b.header (hash_header c serialize_header b.header) 0 b.transactions
          (record { ledger = ledger_of st; storage = st.storage; engine = e })

    abbrev pub applied :
        Block → List (TransactionReceipt Cause) → World Module → ChainState → ChainState
    applied b receipts w st = record {
      head = b;
      height = b.header.number;
      current_epoch = record st.current_epoch { validator_set = w.ledger.validator_set };
      storage = commit b receipts w.ledger w.storage;
    }

    unfoldable pub apply_block :
        Block
        → WasmEngine Module
        → ChainState
        → Result ChainError (List (TransactionReceipt Cause)) × WasmEngine Module × ChainState
    apply_block b e st =
        let expected = hash_header c serialize_header st.head.header in
        if not (b.header.parent_hash == expected)
        then (err (parent_mismatch expected b.header.parent_hash), e, st)
        else if not (b.header.number == add64 st.height 1)
        then (err (number_mismatch (add64 st.height 1) b.header.number), e, st)
        else let (receipts, w) = executed b e st in (ok receipts, w.engine, applied b receipts w st)

abbrev pub unjail : (now min_stake : ℕ) → ValidatorInfo → ValidatorInfo
unjail now min_stake v = elim v.jailed_until [
  | none ↦ v
  | some until ↦
      if leb until now
      then record v {
        jailed_until = none;
        is_active = if leb min_stake v.stake then true else v.is_active;
      }
      else v
]

unfoldable pub next_validators : ConsensusParams → ℕ → List ValidatorInfo → List ValidatorInfo
next_validators p now vs = take p.max_validators (
    sort_by (λ (a : ValidatorInfo) (b : ValidatorInfo). leb b.stake a.stake)
      (filter (λ (v : ValidatorInfo). leb p.min_stake v.stake) (map (unjail now p.min_stake) vs)))

unfoldable pub maybe_advance_epoch :
    ConsensusParams → (now : ℕ) → ChainState → Option EpochInfo × ChainState
maybe_advance_epoch p now st =
    let start_block = add64 st.height 1 in
    let new_epoch : EpochInfo = record {
      epoch_number = add64 st.current_epoch.epoch_number 1;
      start_block = start_block;
      end_block = epoch_end start_block p.epoch_length;
      validator_set =
          new_set (next_validators p now st.current_epoch.validator_set.validators) p.min_stake
            p.max_validators;
      finalized_block = none;
    } in
    if not (is_last_block st.current_epoch st.height) then (none, st) else (
      some new_epoch,
      record st { current_epoch = new_epoch; storage = put_epoch new_epoch st.storage },
    )
