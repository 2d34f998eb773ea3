-- ===== src/Consensus/Engine/Sound.antt =====
-- What the engine of crates/consensus/src/engine.rs keeps from one call of a handler to the next.
use rustblockchain.Base.{ℕ, ◌≤◌, inl, refl, arith, nat_eq, pair_eq}
use rustblockchain.Consensus.Finality.Heights.{IsPruned}
use rustblockchain.Consensus.TxPool.Index.{IsValid}
use rustblockchain.Consensus.Chain.Blocks.{IsStored, Grows}
use rustblockchain.Consensus.Engine.{Services, ConsensusEngine, ConsensusEvent, emit}

module _ {Module : Type 0} (s : Services Module) where
  -- Each part of the engine is as it should be.
  pub record IsSound (genesis_hash : ℕ) (e : ConsensusEngine Module) : Type 0 where
    pub valid_pool : IsValid e.tx_pool
    pub pruned_votes : IsPruned e.finality
    pub stored_chain : IsStored s.crypto s.serialize_header genesis_hash e.chain_state

  -- What one call of a handler may change.
  pub record Follows (genesis_hash : ℕ) (e e' : ConsensusEngine Module) : Type 0 where
    pub sound : IsSound genesis_hash e'
    pub final_height : e.finality.finalized_height ≤ e'.finality.finalized_height
    pub grows : Grows s.crypto s.serialize_header e.chain_state e'.chain_state

  pub unchanged :
      (genesis_hash : ℕ) (e : ConsensusEngine Module)
      → IsSound genesis_hash e
      → Follows genesis_hash e e
  unchanged genesis_hash e h = record {
    sound = h;
    final_height = omega arith;
    grows = inl (refl, refl);
  }

  pub emit-Follows :
      (genesis_hash : ℕ) (e e' : ConsensusEngine Module) (event : ConsensusEvent)
      → Follows genesis_hash e e'
      → Follows genesis_hash e (emit s event e')
  emit-Follows genesis_hash e e' event h = record {
    sound = record {
      valid_pool = h.sound.valid_pool;
      pruned_votes = h.sound.pruned_votes;
      stored_chain = h.sound.stored_chain;
    };
    final_height = h.final_height;
    grows = h.grows;
  }
