-- ===== src/Consensus/Engine/Applied.antt =====
-- Blocks that crates/consensus/src/engine.rs receives and applies.
use rustblockchain.Base.{
  ℕ, ◌≡◌, inl, inr, refl, ap, ◌∙◌, List, [], ◌∷◌, map, arith, nat_eq, pair_eq, Option-cases,
  Bool-cases, add64,
}
use rustblockchain.Base.Dict.{lookup}
use rustblockchain.Base.Result.{Result-cases}
use rustblockchain.Core.Block.{Block, verify_signature, validate_block}
use rustblockchain.Core.Transaction.{SignedTransaction}
use rustblockchain.Core.Validator.{get_validator, active_validators}
use rustblockchain.Storage.{get_block_by_number}
use rustblockchain.Consensus.Finality.{update_validator_set}
use rustblockchain.Consensus.Proposer.{verify_proposer}
use rustblockchain.Consensus.Slashing.{SlashReason, detect_double_sign, evaluate_evidence}
use rustblockchain.Consensus.TxPool.{TransactionPool, prune_committed, remove_transaction}
use rustblockchain.Consensus.TxPool.Index.{IsValid}
use rustblockchain.Consensus.TxPool.Removal.{remove_transaction-IsValid}
use rustblockchain.Consensus.Chain.{apply_block, maybe_advance_epoch}
use rustblockchain.Consensus.Chain.Blocks.{
  apply_block-IsStored, maybe_advance_epoch-IsStored, apply_block-Grows, maybe_advance_epoch-Grows,
}
use rustblockchain.Consensus.Engine.{
  Services, ConsensusEngine, new_block, on_block_received, accept_block, check_seen, conclude,
  slash, hash_block,
}
use rustblockchain.Consensus.Engine.Sound.{IsSound, Follows, unchanged, emit-Follows}

prune_committed-IsValid :
    (hashes : List ℕ) (p : TransactionPool) → IsValid p → IsValid (prune_committed hashes p)
unfolding prune_committed
prune_committed-IsValid [] p v = v
prune_committed-IsValid (h ∷ hs) p v =
    prune_committed-IsValid hs (remove_transaction h p).1 (remove_transaction-IsValid h p v).0

module _ {Module : Type 0} (s : Services Module) where
  -- The end of a block that has been applied.
  pub conclude-Follows :
      (genesis_hash now : ℕ) (txs : List SignedTransaction) (e e' : ConsensusEngine Module)
      → Follows s genesis_hash e e'
      → Follows s genesis_hash e (conclude s txs now e')
  unfolding update_validator_set
  conclude-Follows genesis_hash now txs e e' h =
      let p = e'.config.consensus_params in
      let (entered, st) = maybe_advance_epoch p now e'.chain_state in
      let hashes = map (λ (tx : SignedTransaction). tx.tx_hash) txs in
      let v = prune_committed-IsValid hashes e'.tx_pool h.sound.valid_pool in
      let stored =
        maybe_advance_epoch-IsStored s.crypto s.serialize_header p genesis_hash now e'.chain_state
          h.sound.stored_chain in
      elim (Option-cases entered) [
        | inl q ↦
            rw (conclude, q)
              (record {
                sound = record {
                  valid_pool = v;
                  pruned_votes = h.sound.pruned_votes;
                  stored_chain = h.sound.stored_chain;
                };
                final_height = h.final_height;
                grows = h.grows;
              })
        | inr (new_epoch, q) ↦
            rw (conclude, q)
              (record {
                sound = record {
                  valid_pool = v;
                  pruned_votes = h.sound.pruned_votes;
                  stored_chain = stored;
                };
                final_height = h.final_height;
                grows =
                    maybe_advance_epoch-Grows s.crypto s.serialize_header p now e.chain_state
                      e'.chain_state h.grows;
              })
      ]

  -- A slash writes to the database, and changes no validator of the epoch.
  Slashed : ℕ → ConsensusEngine Module → ConsensusEngine Module → Type 0
  Slashed genesis_hash e e' =
      Follows s genesis_hash e e'
      × (e'.chain_state.current_epoch ≡ e.chain_state.current_epoch)
      × (e'.chain_state.head ≡ e.chain_state.head)
      × (e'.chain_state.height ≡ e.chain_state.height)

  slash-Slashed :
      (genesis_hash now validator : ℕ) (evidence : SlashReason) (e : ConsensusEngine Module)
      → IsSound s genesis_hash e
      → Slashed genesis_hash e (slash s evidence validator now e)
  unfolding Slashed get_block_by_number
  slash-Slashed genesis_hash now validator evidence e h =
      elim (Option-cases (get_validator e.chain_state.current_epoch.validator_set validator)) [
        | inl q ↦ rw (slash, q) (unchanged s genesis_hash e h, refl, refl, refl)
        | inr (v, q) ↦
            elim (Option-cases (evaluate_evidence e.config.consensus_params evidence v)) [
              | inl k ↦ rw (slash, q, k) (unchanged s genesis_hash e h, refl, refl, refl)
              | inr (penalty, k) ↦
                  rw (slash, q, k)
                    (
                      record {
                        sound = record {
                          valid_pool = h.valid_pool;
                          pruned_votes = h.pruned_votes;
                          stored_chain = record {
                            head_number = h.stored_chain.head_number;
                            height_stored = h.stored_chain.height_stored;
                            head_stored = h.stored_chain.head_stored;
                            genesis_stored = h.stored_chain.genesis_stored;
                          };
                        };
                        final_height = omega arith;
                        grows = inl (refl, refl);
                      },
                      refl,
                      refl,
                      refl,
                    )
            ]
      ]

  check_seen-Slashed :
      (genesis_hash now : ℕ) (b : Block) (e : ConsensusEngine Module)
      → IsSound s genesis_hash e
      → Slashed genesis_hash e (check_seen s b now e).1
  unfolding check_seen Slashed
  check_seen-Slashed genesis_hash now b e h =
      let key : ℕ × ℕ = (b.header.number, b.header.validator) in
      elim (Option-cases (lookup key e.seen_blocks)) [
        | inl q ↦
            rw (check_seen, q)
              (
                record {
                  sound = record {
                    valid_pool = h.valid_pool;
                    pruned_votes = h.pruned_votes;
                    stored_chain = h.stored_chain;
                  };
                  final_height = omega arith;
                  grows = inl (refl, refl);
                },
                refl,
                refl,
                refl,
              )
        | inr (prev_hash, q) ↦
            elim (Option-cases (detect_double_sign prev_hash (hash_block s b) b.header.number)) [
              | inl k ↦ rw (check_seen, q, k) (unchanged s genesis_hash e h, refl, refl, refl)
              | inr (evidence, k) ↦
                  rw (check_seen, q, k)
                    (slash-Slashed genesis_hash now b.header.validator evidence e h)
            ]
      ]

  -- What an engine may become when a block is applied to it.
  pub applied-Follows :
      (genesis_hash : ℕ) (b : Block) (e : ConsensusEngine Module)
      → IsSound s genesis_hash e
      → let r =
          apply_block s.crypto s.serialize_header s.wasm s.to_hex b e.vm_engine e.chain_state in
        Follows s genesis_hash e (record e { chain_state = r.2; vm_engine = r.1 })
  applied-Follows genesis_hash b e h = record {
    sound = record {
      valid_pool = h.valid_pool;
      pruned_votes = h.pruned_votes;
      stored_chain =
          apply_block-IsStored s.crypto s.serialize_header s.wasm s.to_hex e.vm_engine genesis_hash
            b e.chain_state h.stored_chain;
    };
    final_height = omega arith;
    grows =
        apply_block-Grows s.crypto s.serialize_header s.wasm s.to_hex e.vm_engine b e.chain_state;
  }

  accept_block-Follows :
      (genesis_hash now : ℕ) (b : Block) (e : ConsensusEngine Module)
      → IsSound s genesis_hash e
      → Follows s genesis_hash e (accept_block s b now e).1
  unfolding accept_block
  accept_block-Follows genesis_hash now b e h =
      let r = apply_block s.crypto s.serialize_header s.wasm s.to_hex b e.vm_engine e.chain_state in
      let after = applied-Follows genesis_hash b e h in
      elim (Result-cases r.0) [
        | inl (receipts, q) ↦
            rw (accept_block, q)
              (emit-Follows s genesis_hash e
                (conclude s b.transactions now (record e { chain_state = r.2; vm_engine = r.1 }))
                (new_block b)
                (conclude-Follows genesis_hash now b.transactions e
                  (record e { chain_state = r.2; vm_engine = r.1 }) after))
        | inr (x, q) ↦ rw (accept_block, q) after
      ]

  -- One handler after another that leaves the head in its place.
  then_Follows :
      (genesis_hash : ℕ) (e m e' : ConsensusEngine Module)
      → Slashed genesis_hash e m
      → Follows s genesis_hash m e'
      → Follows s genesis_hash e e'
  unfolding Slashed
  then_Follows genesis_hash e m e' (first, epoch, head, height) next = record {
    sound = next.sound;
    final_height = omega (arith, first.final_height, next.final_height);
    grows = elim next.grows [
      | inl (h, n) ↦ inl (h ∙ head, n ∙ height)
      | inr (h, n) ↦ inr (h ∙ ap (hash_block s) head, n ∙ ap (λ k. add64 k 1) height)
    ];
  }

  pub block-Follows :
      (genesis_hash now : ℕ) (b : Block) (e : ConsensusEngine Module)
      → IsSound s genesis_hash e
      → Follows s genesis_hash e (on_block_received s b now e).1
  unfolding on_block_received Slashed
  block-Follows genesis_hash now b e h =
      let active = active_validators e.chain_state.current_epoch.validator_set in
      let seen = check_seen-Slashed genesis_hash now b e h in
      let (twice, e') = check_seen s b now e in
      elim (Result-cases (validate_block s.crypto s.serialize b)) [
        | inr (x, q) ↦ rw (on_block_received, q) (unchanged s genesis_hash e h)
        | inl (u, q) ↦
            elim (Result-cases (
              verify_proposer s.crypto s.draw b.header.validator active
                (hash_block s e.chain_state.head) b.header.number)) [
                  | inr (x, k) ↦ rw (on_block_received, q, k) (unchanged s genesis_hash e h)
                  | inl (v, k) ↦
                      elim (Result-cases (verify_signature s.crypto s.serialize_header b.header)) [
                        | inr (x, l) ↦
                            rw (on_block_received, q, k, l) (unchanged s genesis_hash e h)
                        | inl (w, l) ↦ elim (Bool-cases twice) [
                          | inl t ↦ rw (on_block_received, q, k, l, t) (seen.0)
                          | inr t ↦
                              rw (on_block_received, q, k, l, t)
                                (then_Follows genesis_hash e e' (accept_block s b now e').1 seen
                                  (accept_block-Follows genesis_hash now b e' seen.0.sound))
                        ]
                      ]
                ]
      ]
