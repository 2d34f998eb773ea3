-- ===== src/Consensus/Engine/Received.antt =====
-- Transactions and votes that crates/consensus/src/engine.rs receives.
use rustblockchain.Base.{ℕ, ◌≡◌, ◌⊎◌, inl, inr, refl, arith, nat_eq, pair_eq}
use rustblockchain.Base.Result.{Result-cases}
use rustblockchain.Core.Transaction.{SignedTransaction}
use rustblockchain.Consensus.Finality
use rustblockchain.Consensus.Finality.{
  FinalityEngine, FinalityVote, FinalityStatus, add_vote, update_validator_set,
}
use rustblockchain.Consensus.Finality.Heights.{add_vote-IsPruned}
use rustblockchain.Consensus.TxPool.{insert_transaction}
use rustblockchain.Consensus.TxPool.Index.{insert_transaction-IsValid}
use rustblockchain.Consensus.Engine.{
  Services, ConsensusEngine, transaction_pooled, block_finalized, on_transaction_received,
  on_vote_received,
}
use rustblockchain.Consensus.Engine.Sound.{IsSound, Follows, emit-Follows}

FinalityStatus-cases :
    (status : FinalityStatus)
    → (status ≡ Finality.finalized)
      ⊎ ((voted : ℕ) × (threshold : ℕ) × (status ≡ Finality.pending voted threshold))
FinalityStatus-cases Finality.finalized = inl refl
FinalityStatus-cases (Finality.pending voted threshold) = inr (voted, threshold, refl)

module _ {Module : Type 0} (s : Services Module) where
  pub transaction-Follows :
      (genesis_hash now : ℕ) (tx : SignedTransaction) (e : ConsensusEngine Module)
      → IsSound s genesis_hash e
      → Follows s genesis_hash e (on_transaction_received s tx now e).1
  unfolding on_transaction_received
  transaction-Follows genesis_hash now tx e h =
      let (r, pool) = insert_transaction s.crypto s.serialize tx now e.tx_pool in
      let v = insert_transaction-IsValid s.crypto s.serialize tx now e.tx_pool h.valid_pool in
      let after : Follows s genesis_hash e (record e { tx_pool = pool }) = record {
        sound = record {
          valid_pool = v;
          pruned_votes = h.pruned_votes;
          stored_chain = h.stored_chain;
        };
        final_height = omega arith;
        grows = inl (refl, refl);
      } in
      elim (Result-cases r) [
        | inl (u, q) ↦
            rw (on_transaction_received, q)
              (emit-Follows s genesis_hash e (record e { tx_pool = pool })
                (transaction_pooled tx.tx_hash) after)
        | inr (x, q) ↦ rw (on_transaction_received, q) after
      ]

  pub vote-Follows :
      (genesis_hash : ℕ) (v : FinalityVote) (e : ConsensusEngine Module)
      → IsSound s genesis_hash e
      → Follows s genesis_hash e (on_vote_received s v e).1
  unfolding on_vote_received
  vote-Follows genesis_hash v e h =
      let (r, f) = add_vote s.crypto.ed25519 v e.finality in
      let (pruned, higher) = add_vote-IsPruned s.crypto.ed25519 v e.finality h.pruned_votes in
      let after : Follows s genesis_hash e (record e { finality = f }) = record {
        sound = record {
          valid_pool = h.valid_pool;
          pruned_votes = pruned;
          stored_chain = h.stored_chain;
        };
        final_height = higher;
        grows = inl (refl, refl);
      } in
      elim (Result-cases r) [
        | inl (status, q) ↦ elim (FinalityStatus-cases status) [
          | inl t ↦
              rw (on_vote_received, q, t)
                (emit-Follows s genesis_hash e (record e { finality = f })
                  (block_finalized f.finalized_height) after)
          | inr (voted, threshold, t) ↦ rw (on_vote_received, q, t) after
        ]
        | inr (x, q) ↦ rw (on_vote_received, q) after
      ]
