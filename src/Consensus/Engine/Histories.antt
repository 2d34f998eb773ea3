-- ===== src/Consensus/Engine/Histories.antt =====
-- What a node of crates/consensus/src/engine.rs keeps from its first start on, through all calls of
-- its handlers and restarts on the same database.
use mathlib.Core.Path.{subst}
use rustblockchain.Base.{ℕ, ◌≤◌, ◌≡◌, inl, inr, none, some, arith, sym, Option-cases}
use rustblockchain.Base.Result.{ok, Result-cases}
use rustblockchain.Core.Block.{Block, hash_header}
use rustblockchain.Core.Genesis.{GenesisConfig, validate, to_genesis_block}
use rustblockchain.Storage.{ChainDatabase}
use rustblockchain.Vm.Engine.{WasmEngine}
use rustblockchain.Consensus.Execution.{Cause}
use rustblockchain.Consensus.Finality
use rustblockchain.Consensus.Finality.{FinalityEngine}
use rustblockchain.Consensus.Finality.Heights.{IsPruned}
use rustblockchain.Consensus.TxPool
use rustblockchain.Consensus.TxPool.{TransactionPool}
use rustblockchain.Consensus.TxPool.Index.{IsValid, new-IsValid}
use rustblockchain.Consensus.Chain.{from_genesis}
use rustblockchain.Consensus.Chain.Blocks.{IsStored}
use rustblockchain.Consensus.Chain.Restart.{started, Reach-IsStored, from_genesis-IsStored}
use rustblockchain.Consensus.Engine.{Services, ConsensusConfig, ConsensusEngine, new}
use rustblockchain.Consensus.Engine.Sound.{IsSound, Follows}
use rustblockchain.Consensus.Engine.Handlers.{Step, Step-Follows}

module _ {Module : Type 0} (s : Services Module) (config : ConsensusConfig)
    (g : GenesisConfig) where
  -- A node starts on an empty database, its handlers are called, and it starts again on its database.
  pub data Reached : ConsensusEngine Module → Type 0 where
    fresh :
        (db : ChainDatabase Cause) (vm : WasmEngine Module) (e : ConsensusEngine Module)
        → db.genesis_hash ≡ none
        → new s config g db vm ≡ some (ok e)
        → Reached e
    called :
        {e : ConsensusEngine Module} (e' : ConsensusEngine Module)
        → Reached e
        → Step s e e'
        → Reached e'
    restarted :
        {e : ConsensusEngine Module} (vm : WasmEngine Module) (e' : ConsensusEngine Module)
        → Reached e
        → new s config g e.chain_state.storage vm ≡ some (ok e')
        → Reached e'

  new_parts :
      (db : ChainDatabase Cause) (vm : WasmEngine Module) (e : ConsensusEngine Module)
      → new s config g db vm ≡ some (ok e)
      → (from_genesis s.crypto s.serialize_header g db ≡ some (ok e.chain_state))
        × (e.tx_pool ≡ TxPool.new config.mempool_size config.min_gas_price)
        × (e.finality ≡ Finality.new e.chain_state.current_epoch.validator_set)
  unfolding new
  new_parts db vm e h = elim (Option-cases (from_genesis s.crypto s.serialize_header g db)) [
    | inl q ↦ absurd (ground (arith, h, q))
    | inr (r, q) ↦ elim (Result-cases r) [
      | inl (st, p) ↦ ground (arith, h, q, p)
      | inr (x, p) ↦ absurd (ground (arith, h, q, p))
    ]
  ]

  new-IsSound :
      (db : ChainDatabase Cause) (vm : WasmEngine Module) (e : ConsensusEngine Module)
      (genesis_hash : ℕ)
      → new s config g db vm ≡ some (ok e)
      → IsStored s.crypto s.serialize_header genesis_hash e.chain_state
      → IsSound s genesis_hash e
  unfolding Finality.new
  new-IsSound db vm e genesis_hash h stored =
      let (_, pool, finality) = new_parts db vm e h in
      record {
        valid_pool =
            subst IsValid (sym pool) (new-IsValid config.mempool_size config.min_gas_price);
        pruned_votes = subst IsPruned (sym finality) tt;
        stored_chain = stored;
      }

  Reached-IsSound :
      (e : ConsensusEngine Module)
      → 1 ≤ g.consensus_params.epoch_length
      → Reached e
      → (validate g ≡ ok tt)
        × ((b : Block) × (to_genesis_block g ≡ some b)
            × IsSound s (hash_header s.crypto s.serialize_header b.header) e)
  Reached-IsSound _ len (fresh db vm e empty h) =
      let (made, _, _) = new_parts db vm e h in
      let (good, (b, block, stored)) =
        Reach-IsStored s.crypto s.serialize_header g s.wasm s.to_hex
          (started db e.chain_state empty made) in
      (
        good,
        (b, block, new-IsSound db vm e (hash_header s.crypto s.serialize_header b.header) h stored),
      )
  Reached-IsSound _ len (called {e = e} e' r step) =
      let (good, (b, block, sound)) = Reached-IsSound e len r in
      let genesis_hash = hash_header s.crypto s.serialize_header b.header in
      (good, (b, block, (Step-Follows s genesis_hash e e' sound step).sound))
  Reached-IsSound _ len (restarted {e = e} vm e' r h) =
      let (good, (b, block, sound)) = Reached-IsSound e len r in
      let genesis_hash = hash_header s.crypto s.serialize_header b.header in
      let (made, _, _) = new_parts e.chain_state.storage vm e' h in
      (
        good,
        (
          b,
          block,
          new-IsSound e.chain_state.storage vm e' genesis_hash h (
              from_genesis-IsStored s.crypto s.serialize_header g e.chain_state e'.chain_state b
                good block sound.stored_chain len made),
        ),
      )

  -- Whatever handlers were called since a node first started on an empty database, and however often
  -- it started again, where an epoch has at least one block: after the next call of a handler, whether
  -- it fails or not, the pool agrees with its index, votes are kept only for blocks above the finalized
  -- height, which has not fallen, the database has the head and the hash of the configuration's genesis
  -- block, and the head has stayed or given way to one block that names it as its parent.
  pub Reached-Follows :
      (e e' : ConsensusEngine Module)
      → 1 ≤ g.consensus_params.epoch_length
      → Reached e
      → Step s e e'
      → (b : Block) × (to_genesis_block g ≡ some b)
        × Follows s (hash_header s.crypto s.serialize_header b.header) e e'
  Reached-Follows e e' len r step =
      let (good, (b, block, sound)) = Reached-IsSound e len r in
      let genesis_hash = hash_header s.crypto s.serialize_header b.header in
      (b, block, Step-Follows s genesis_hash e e' sound step)
