-- ===== src/Consensus/Engine/Handlers.antt =====
-- What the handlers of crates/consensus/src/engine.rs keep, in whatever order they are called.
use rustblockchain.Base.{ℕ, inl, inr, arith, ◌==◌, nat_eq, pair_eq, Bool-cases, add64}
use rustblockchain.Base.Result.{Result-cases}
use rustblockchain.Core.Block.{Block}
use rustblockchain.Core.Transaction.{SignedTransaction}
use rustblockchain.Core.Validator.{active_validators}
use rustblockchain.Consensus.Finality.{FinalityVote}
use rustblockchain.Consensus.Finality.Heights.{add_vote-IsPruned}
use rustblockchain.Consensus.Proposer.{select_proposer}
use rustblockchain.Consensus.Chain.{apply_block}
use rustblockchain.Consensus.Engine.{
  Services, ConsensusEngine, KeyPair, on_transaction_received, on_vote_received, on_block_received,
  try_produce_block, produce, conclude, hash_block, address_of, draft, sealed, create_vote,
}
use rustblockchain.Consensus.Engine.Sound.{IsSound, Follows, unchanged}
use rustblockchain.Consensus.Engine.Received.{transaction-Follows, vote-Follows}
use rustblockchain.Consensus.Engine.Applied.{conclude-Follows, applied-Follows, block-Follows}

module _ {Module : Type 0} (s : Services Module) where
  produce-Follows :
      (genesis_hash now : ℕ) (k : KeyPair) (e : ConsensusEngine Module)
      → IsSound s genesis_hash e
      → Follows s genesis_hash e (produce s k now e).1
  unfolding produce
  produce-Follows genesis_hash now k e h =
      let b = draft s k now e in
      let r = apply_block s.crypto s.serialize_header s.wasm s.to_hex b e.vm_engine e.chain_state in
      let e' = record e { chain_state = r.2; vm_engine = r.1 } in
      let after = applied-Follows s genesis_hash b e h in
      elim (Result-cases r.0) [
        | inr (x, q) ↦ rw (produce, q) after
        | inl (receipts, q) ↦
            let done = conclude s b.transactions now e' in
            let ended = conclude-Follows s genesis_hash now b.transactions e e' after in
            let block = sealed s k receipts b in
            let vote = create_vote s b.header.number (hash_block s block) k now in
            let (pruned, higher) =
              add_vote-IsPruned s.crypto.ed25519 vote done.finality ended.sound.pruned_votes in
            rw (produce, q)
              (record {
                sound = record {
                  valid_pool = ended.sound.valid_pool;
                  pruned_votes = pruned;
                  stored_chain = ended.sound.stored_chain;
                };
                final_height = omega (arith, ended.final_height, higher);
                grows = ended.grows;
              })
      ]

  try_produce_block-Follows :
      (genesis_hash now : ℕ) (k : KeyPair) (e : ConsensusEngine Module)
      → IsSound s genesis_hash e
      → Follows s genesis_hash e (try_produce_block s k now e).1
  unfolding try_produce_block
  try_produce_block-Follows genesis_hash now k e h =
      let parent = e.chain_state.head in
      let active = active_validators e.chain_state.current_epoch.validator_set in
      elim (Result-cases (
        select_proposer s.crypto s.draw active (hash_block s parent)
          (add64 parent.header.number 1))) [
            | inr (x, q) ↦ rw (try_produce_block, q) (unchanged s genesis_hash e h)
            | inl (proposer, q) ↦ elim (Bool-cases (proposer == address_of s k)) [
              | inl t ↦ rw (try_produce_block, q, t) (produce-Follows genesis_hash now k e h)
              | inr t ↦ rw (try_produce_block, q, t) (unchanged s genesis_hash e h)
            ]
          ]

  -- One call of a handler, whether it returns an error or not.
  pub data Step : ConsensusEngine Module → ConsensusEngine Module → Type 0 where
    transaction_received :
        (tx : SignedTransaction) (now : ℕ) (e : ConsensusEngine Module)
        → Step e (on_transaction_received s tx now e).1
    vote_received :
        (v : FinalityVote) (e : ConsensusEngine Module) → Step e (on_vote_received s v e).1
    block_received :
        (b : Block) (now : ℕ) (e : ConsensusEngine Module) → Step e (on_block_received s b now e).1
    slot :
        (k : KeyPair) (now : ℕ) (e : ConsensusEngine Module)
        → Step e (try_produce_block s k now e).1

  -- Whatever handler is called, and whether it fails or not: the pool stays in agreement with its index,
  -- votes are kept only for blocks above the finalized height, which never falls, the database has the
  -- head, and the head stays or gives way to one block that names it as its parent.
  pub Step-Follows :
      (genesis_hash : ℕ) (e e' : ConsensusEngine Module)
      → IsSound s genesis_hash e
      → Step e e'
      → Follows s genesis_hash e e'
  Step-Follows genesis_hash e _ h (transaction_received tx now _) =
      transaction-Follows s genesis_hash now tx e h
  Step-Follows genesis_hash e _ h (vote_received v _) = vote-Follows s genesis_hash v e h
  Step-Follows genesis_hash e _ h (block_received b now _) = block-Follows s genesis_hash now b e h
  Step-Follows genesis_hash e _ h (slot k now _) = try_produce_block-Follows genesis_hash now k e h
