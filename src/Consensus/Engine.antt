-- ===== src/Consensus/Engine.antt =====
-- crates/consensus/src/engine.rs: what the consensus engine does with transactions, votes and blocks,
-- and how it makes blocks. The engine's database is the chain state's. One call of a handler reads the
-- clock once, as `now`; locks are held by one handler at a time; events are listed, oldest first.
pub mod Sound
pub mod Received
pub mod Applied
pub mod Handlers
pub mod Histories
pub mod DoubleSigns
pub mod Producing
mod Tests
use rustblockchain.Base.{
  ℕ, ◌+◌, ◌%◌, Bool, true, false, not, Option, none, some, List, [], ◌∷◌, ◌++◌, map, if◌then◌else◌,
  Eq, ◌==◌, nat_eq, pair_eq, sum_by, length, add64, u64_mod,
}
use rustblockchain.Base.Dict.{Dict, lookup, insert}
use rustblockchain.Base.Text.{Text}
use rustblockchain.Base.Bytes.{le_bytes}
use rustblockchain.Base.Result.{Result, ok, err}
use rustblockchain.Base.Sorting
use rustblockchain.Crypto.Hash.{Primitives, to_address}
use rustblockchain.Crypto.Merkle.{compute_merkle_root}
use rustblockchain.Core.Block
use rustblockchain.Core.Block.{
  Block, BlockHeader, hash_header, sign, verify_signature, validate_block, protocol_version,
}
use rustblockchain.Core.Epoch.{EpochInfo}
use rustblockchain.Core.Error.{CoreError}
use rustblockchain.Core.Genesis.{GenesisConfig}
use rustblockchain.Core.Params.{ConsensusParams}
use rustblockchain.Core.Receipt.{TransactionReceipt}
use rustblockchain.Core.Transaction.{Transaction, SignedTransaction}
use rustblockchain.Core.Validator.{ValidatorInfo, get_validator, active_validators}
use rustblockchain.Storage.{put_validator, ChainDatabase}
use rustblockchain.Vm.Engine.{Wasmtime, WasmEngine}
use rustblockchain.Consensus.Finality
use rustblockchain.Consensus.Finality.{
  FinalityEngine, FinalityVote, FinalityStatus, ConsensusError, vote_data, add_vote,
  update_validator_set,
}
use rustblockchain.Consensus.Slashing.{
  evaluate_evidence, apply_slash, detect_double_sign, SlashReason,
}
use rustblockchain.Consensus.Proposer.{Draw, ProposerError, select_proposer, verify_proposer}
use rustblockchain.Consensus.TxPool
use rustblockchain.Consensus.TxPool.{
  TransactionPool, PoolError, insert_transaction, select_transactions, prune_committed,
  pending_count,
}
use rustblockchain.Consensus.Execution.{Cause}
use rustblockchain.Consensus.Chain.{
  ChainState, ChainError, from_genesis, apply_block, maybe_advance_epoch,
}

pub data ConsensusEvent : Type 0 where
  new_block : Block → ConsensusEvent
  block_finalized : ℕ → ConsensusEvent
  epoch_changed : EpochInfo → ConsensusEvent
  transaction_pooled : ℕ → ConsensusEvent

pub record ConsensusConfig : Type 0 where
  pub chain_id : ℕ
  pub block_time_ms : ℕ
  pub max_transactions_per_block : ℕ
  pub mempool_size : ℕ
  pub min_gas_price : ℕ
  pub enable_block_production : Bool
  pub consensus_params : ConsensusParams
  pub gas_limit_per_block : ℕ

pub record ChainInfo : Type 0 where
  pub chain_id : ℕ
  pub height : ℕ
  pub best_block_hash : ℕ
  pub epoch : ℕ
  pub finalized_height : ℕ
  pub pending_transactions : ℕ
  pub active_validators : ℕ

pub record KeyPair : Type 0 where
  pub public_key : ℕ
  pub sign_bytes : Text → ℕ

pub record ConsensusEngine (Module : Type 0) : Type 0 where
  pub config : ConsensusConfig
  pub chain_state : ChainState
  pub tx_pool : TransactionPool
  pub finality : FinalityEngine
  pub vm_engine : WasmEngine Module
  pub events : List ConsensusEvent
  pub seen_blocks : Dict (ℕ × ℕ) ℕ

pub data EngineError : Type 0 where
  chain_error : ChainError → EngineError
  core_error : CoreError → EngineError
  proposer_error : ProposerError → EngineError
  pool_error : PoolError → EngineError
  finality_error : ConsensusError → EngineError
  double_sign_detected : EngineError

-- What the engine calls of other crates.
pub record Services (Module : Type 0) : Type 1 where
  pub wasm : Wasmtime Module
  pub crypto : Primitives
  pub to_hex : ℕ → Text
  pub serialize : Transaction → Text
  pub serialize_header : BlockHeader → Text
  pub draw : Draw

module _ {Module : Type 0} (s : Services Module) where
  abbrev pub address_of : KeyPair → ℕ
  address_of k = to_address s.crypto k.public_key

  abbrev pub hash_block : Block → ℕ
  hash_block b = hash_header s.crypto s.serialize_header b.header

  abbrev pub emit : ConsensusEvent → ConsensusEngine Module → ConsensusEngine Module
  emit event e = record e { events = e.events ++ event ∷ [] }

  -- The genesis state; `none` is a panic.
  unfoldable pub new :
      ConsensusConfig
      → GenesisConfig
      → ChainDatabase Cause
      → WasmEngine Module
      → Option (Result ChainError (ConsensusEngine Module))
  new config genesis db vm = elim (from_genesis s.crypto s.serialize_header genesis db) [
    | none ↦ none
    | some (err x) ↦ some (err x)
    | some (ok st) ↦ some (
        ok (record {
          config = config;
          chain_state = st;
          tx_pool = TxPool.new config.mempool_size config.min_gas_price;
          finality = Finality.new st.current_epoch.validator_set;
          vm_engine = vm;
          events = [];
          seen_blocks = [];
        }))
  ]

  unfoldable pub on_transaction_received :
      SignedTransaction
      → (now : ℕ) → ConsensusEngine Module
      → Result EngineError (Unit {0}) × ConsensusEngine Module
  on_transaction_received tx now e =
      let (r, pool) = insert_transaction s.crypto s.serialize tx now e.tx_pool in
      let e' = record e { tx_pool = pool } in
      elim r [
        | err x ↦ (err (pool_error x), e')
        | ok u ↦ (ok tt, emit (transaction_pooled tx.tx_hash) e')
      ]

  unfoldable pub on_vote_received :
      FinalityVote → ConsensusEngine Module → Result EngineError (Unit {0}) × ConsensusEngine Module
  on_vote_received v e =
      let (r, f) = add_vote s.crypto.ed25519 v e.finality in
      let e' = record e { finality = f } in
      elim r [
        | err x ↦ (err (finality_error x), e')
        | ok status ↦ elim status [
          | Finality.finalized ↦ (ok tt, emit (block_finalized f.finalized_height) e')
          | Finality.pending voted threshold ↦ (ok tt, e')
        ]
      ]

  -- The slashed validator is written to the database; the epoch's set keeps the old one.
  abbrev pub slash : SlashReason → ℕ → ℕ → ConsensusEngine Module → ConsensusEngine Module
  slash evidence validator now e =
      elim (get_validator e.chain_state.current_epoch.validator_set validator) [
        | none ↦ e
        | some v ↦ elim (evaluate_evidence e.config.consensus_params evidence v) [
          | none ↦ e
          | some penalty ↦ record e {
            chain_state = record e.chain_state {
              storage =
                  put_validator (apply_slash e.config.consensus_params v penalty now)
                    e.chain_state.storage;
            };
          }
        ]
      ]

  -- Whether the validator has signed another block with the number, and the engine after the check.
  unfoldable pub check_seen :
      Block → (now : ℕ) → ConsensusEngine Module → Bool × ConsensusEngine Module
  check_seen b now e =
      let key : ℕ × ℕ = (b.header.number, b.header.validator) in
      elim (lookup key e.seen_blocks) [
        | none ↦ (false, record e { seen_blocks = insert key (hash_block b) e.seen_blocks })
        | some prev_hash ↦ elim (detect_double_sign prev_hash (hash_block b) b.header.number) [
          | none ↦ (false, e)
          | some evidence ↦ (true, slash evidence b.header.validator now e)
        ]
      ]

  -- What follows a block that was applied: its transactions leave the pool, and its epoch may end.
  abbrev pub conclude :
      List SignedTransaction → (now : ℕ) → ConsensusEngine Module → ConsensusEngine Module
  conclude txs now e =
      let pruned = record e {
        tx_pool = prune_committed (map (λ (tx : SignedTransaction). tx.tx_hash) txs) e.tx_pool;
      } in
      let (entered, st) = maybe_advance_epoch e.config.consensus_params now e.chain_state in
      elim entered [
        | none ↦ pruned
        | some new_epoch ↦ emit (epoch_changed new_epoch) (record pruned {
          chain_state = st;
          finality = update_validator_set new_epoch.validator_set pruned.finality;
        })
      ]

  unfoldable pub accept_block :
      Block
      → (now : ℕ) → ConsensusEngine Module
      → Result EngineError (Unit {0}) × ConsensusEngine Module
  accept_block b now e =
      let (r, vm, st) =
        apply_block s.crypto s.serialize_header s.wasm s.to_hex b e.vm_engine e.chain_state in
      let e' = record e { chain_state = st; vm_engine = vm } in
      elim r [
        | err x ↦ (err (chain_error x), e')
        | ok receipts ↦ (ok tt, emit (new_block b) (conclude b.transactions now e'))
      ]

  unfoldable pub on_block_received :
      Block
      → (now : ℕ) → ConsensusEngine Module
      → Result EngineError (Unit {0}) × ConsensusEngine Module
  on_block_received b now e =
      let active = active_validators e.chain_state.current_epoch.validator_set in
      elim (validate_block s.crypto s.serialize b) [
        | err x ↦ (err (core_error x), e)
        | ok u ↦
            elim (verify_proposer s.crypto s.draw b.header.validator active
              (hash_block e.chain_state.head) b.header.number) [
                | err x ↦ (err (proposer_error x), e)
                | ok u ↦ elim (verify_signature s.crypto s.serialize_header b.header) [
                  | err x ↦ (err (core_error x), e)
                  | ok u ↦
                      let (twice, e') = check_seen b now e in
                      if twice then (err double_sign_detected, e') else accept_block b now e'
                ]
              ]
      ]

  -- The unsigned block for the next slot.
  abbrev pub draft : KeyPair → (now : ℕ) → ConsensusEngine Module → Block
  draft k now e =
      let parent = e.chain_state.head in
      let txs =
        select_transactions e.tx_pool e.config.gas_limit_per_block
          e.config.max_transactions_per_block in
      record {
        header = record {
          version = protocol_version;
          chain_id = e.config.chain_id;
          number = add64 parent.header.number 1;
          timestamp = now;
          parent_hash = hash_block parent;
          state_root = 0;
          transactions_root =
              compute_merkle_root s.crypto
                (map (λ (tx : SignedTransaction). le_bytes 32 tx.tx_hash) txs);
          receipts_root = 0;
          validator = address_of k;
          validator_pubkey = k.public_key;
          validator_signature = 0;
          epoch = e.chain_state.current_epoch.epoch_number;
          gas_used = 0;
          gas_limit = e.config.gas_limit_per_block;
          extra_data = [];
        };
        transactions = txs;
      }

  -- The block as it is sent: with the gas that was used, and signed.
  abbrev pub sealed : KeyPair → List (TransactionReceipt Cause) → Block → Block
  sealed k receipts b =
      let used = sum_by (λ (r : TransactionReceipt Cause). r.gas_used) receipts % u64_mod in
      record b {
        header =
            sign s.crypto s.serialize_header k.sign_bytes (record b.header { gas_used = used });
      }

  abbrev pub create_vote : (block_number block_hash : ℕ) → KeyPair → (now : ℕ) → FinalityVote
  create_vote block_number block_hash k now = record {
    block_number = block_number;
    block_hash = block_hash;
    validator = address_of k;
    validator_pubkey = k.public_key;
    signature = k.sign_bytes (vote_data block_number block_hash);
    timestamp = now;
  }

  -- The draft is applied; then it is sealed, voted for and sent.
  unfoldable pub produce :
      KeyPair
      → (now : ℕ) → ConsensusEngine Module
      → Result EngineError (Unit {0}) × ConsensusEngine Module
  produce k now e =
      let b = draft k now e in
      let (r, vm, st) =
        apply_block s.crypto s.serialize_header s.wasm s.to_hex b e.vm_engine e.chain_state in
      let e' = record e { chain_state = st; vm_engine = vm } in
      elim r [
        | err x ↦ (err (chain_error x), e')
        | ok receipts ↦
            let block = sealed k receipts b in
            let done = conclude b.transactions now e' in
            let vote = create_vote b.header.number (hash_block block) k now in
            let (status, finality) = add_vote s.crypto.ed25519 vote done.finality in
            (ok tt, emit (new_block block) (record done { finality = finality }))
      ]

  unfoldable pub try_produce_block :
      KeyPair
      → (now : ℕ) → ConsensusEngine Module
      → Result EngineError (Unit {0}) × ConsensusEngine Module
  try_produce_block k now e =
      let parent = e.chain_state.head in
      let active = active_validators e.chain_state.current_epoch.validator_set in
      elim (select_proposer s.crypto s.draw active (hash_block parent)
        (add64 parent.header.number 1)) [
          | err x ↦ (err (proposer_error x), e)
          | ok proposer ↦ if not (proposer == address_of k) then (ok tt, e) else produce k now e
        ]

  unfoldable pub chain_info : ConsensusEngine Module → ChainInfo
  chain_info e = record {
    chain_id = e.config.chain_id;
    height = e.chain_state.height;
    best_block_hash = hash_block e.chain_state.head;
    epoch = e.chain_state.current_epoch.epoch_number;
    finalized_height = e.finality.finalized_height;
    pending_transactions = pending_count e.tx_pool;
    active_validators = length (active_validators e.chain_state.current_epoch.validator_set);
  }
