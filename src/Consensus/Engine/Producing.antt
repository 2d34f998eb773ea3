-- ===== src/Consensus/Engine/Producing.antt =====
-- What a producer of crates/consensus/src/engine.rs keeps of a block, and what it sends.
use rustblockchain.Base.{
  ℕ, ◌≡◌, ◌≢◌, inl, inr, refl, ap, sym, ◌∙◌, true, false, List, [], ◌∷◌, ◌++◌, arith, ◌==◌, ==_iff,
  nat_eq, pair_eq, add64, Bool-cases, Option-cases,
}
use rustblockchain.Base.Result.{ok, is_ok, Result-cases}
use rustblockchain.Core.Epoch.{is_last_block}
use rustblockchain.Core.Params.{ConsensusParams}
use rustblockchain.Core.Transaction.{SignedTransaction}
use rustblockchain.Core.Validator.{active_validators, get_validator}
use rustblockchain.Consensus.Proposer.{select_proposer, verify_proposer}
use rustblockchain.Consensus.Slashing.{SlashReason, detect_double_sign, evaluate_evidence}
use rustblockchain.Core.Block.{Block, sign, verify_signature, validate_block}
use rustblockchain.Base.Dict.{lookup}
use rustblockchain.Core.Receipt.{TransactionReceipt}
use rustblockchain.Consensus.Execution.{Cause}
use rustblockchain.Consensus.Chain.{ChainState, apply_block, maybe_advance_epoch}
use rustblockchain.Consensus.Chain.Blocks.{apply_block_iff, apply_block-applied, IsStored}
use rustblockchain.Consensus.Engine.{
  Services, ConsensusEngine, ConsensusEvent, KeyPair, new_block, try_produce_block, address_of,
  produce, on_block_received, accept_block, check_seen, slash, draft, sealed, conclude, hash_block,
}

module _ {Module : Type 0} (s : Services Module) where
  maybe_advance_epoch-head :
      (p : ConsensusParams) (now : ℕ) (st : ChainState)
      → let st' = (maybe_advance_epoch p now st).1 in
        (st'.head ≡ st.head) × (st'.height ≡ st.height)
  unfolding maybe_advance_epoch
  maybe_advance_epoch-head p now st = elim (Bool-cases (is_last_block st.current_epoch st.height)) [
    | inl q ↦ rw (maybe_advance_epoch, q) (refl, refl)
    | inr q ↦ rw (maybe_advance_epoch, q) (refl, refl)
  ]

  conclude-head :
      (txs : List SignedTransaction) (now : ℕ) (e : ConsensusEngine Module)
      → ((conclude s txs now e).chain_state.head ≡ e.chain_state.head)
        × ((conclude s txs now e).chain_state.height ≡ e.chain_state.height)
  conclude-head txs now e =
      let p = e.config.consensus_params in
      elim (Option-cases (maybe_advance_epoch p now e.chain_state).0) [
        | inl q ↦ rw (conclude, q) (refl, refl)
        | inr (new_epoch, q) ↦ rw (conclude, q) (maybe_advance_epoch-head p now e.chain_state)
      ]

  draft_taken :
      (genesis_hash now : ℕ) (k : KeyPair) (e : ConsensusEngine Module)
      → IsStored s.crypto s.serialize_header genesis_hash e.chain_state
      → (receipts : List (TransactionReceipt Cause)) × ((apply_block s.crypto s.serialize_header
            s.wasm s.to_hex
            (draft s k now e)
            e.vm_engine
            e.chain_state).0
          ≡ ok receipts)
  draft_taken genesis_hash now k e h =
      let b = draft s k now e in
      elim (Result-cases
        (apply_block s.crypto s.serialize_header s.wasm s.to_hex b e.vm_engine e.chain_state).0) [
          | inl taken ↦ taken
          | inr (x, q) ↦
              let accepted =
                (apply_block_iff s.crypto s.serialize_header s.wasm s.to_hex e.vm_engine b
                    e.chain_state).0.1
                  (refl, ap (λ n. add64 n 1) h.head_number) in
              absurd (ground arith)
        ]

  produce-taken :
      (now : ℕ) (k : KeyPair) (e : ConsensusEngine Module)
      (receipts : List (TransactionReceipt Cause))
      → (apply_block s.crypto s.serialize_header s.wasm s.to_hex
          (draft s k now e)
          e.vm_engine
          e.chain_state).0
        ≡ ok receipts
      → let b = draft s k now e in
        let r = produce s k now e in
        (r.0 ≡ ok tt)
        × (r.1.chain_state.head ≡ b)
        × (r.1.chain_state.height ≡ b.header.number)
        × ((earlier : List ConsensusEvent) × (r.1.events
              ≡ earlier ++ new_block (sealed s k receipts b) ∷ []))
  unfolding produce
  produce-taken now k e receipts q =
      let b = draft s k now e in
      let (_, _, _, same) =
        apply_block-applied s.crypto s.serialize_header s.wasm s.to_hex e.vm_engine b e.chain_state
          receipts q in
      let r = apply_block s.crypto s.serialize_header s.wasm s.to_hex b e.vm_engine e.chain_state in
      let e' = record e { chain_state = r.2; vm_engine = r.1 } in
      let (head, height) = conclude-head b.transactions now e' in
      rw (produce, q)
        (
          refl,
          head ∙ ap (λ x. x.2.head) same,
          height ∙ ap (λ x. x.2.height) same,
          ((conclude s b.transactions now e').events, refl),
        )

  -- In a slot of its own a producer whose database has its head makes a block: the call succeeds, the
  -- height goes up by one, and the block is sent. What is kept as the head is the draft, unsigned and
  -- without its gas; what is sent is the block sealed with the receipts that applying the draft returns.
  pub try_produce_block_adds :
      (genesis_hash now : ℕ) (k : KeyPair) (e : ConsensusEngine Module)
      → IsStored s.crypto s.serialize_header genesis_hash e.chain_state
      → let active = active_validators e.chain_state.current_epoch.validator_set in
        let parent = e.chain_state.head in
        select_proposer s.crypto s.draw active (hash_block s parent) (add64 parent.header.number 1)
          ≡ ok (address_of s k)
        → let r = try_produce_block s k now e in
          let b = draft s k now e in
          (r.0 ≡ ok tt)
          × (r.1.chain_state.height ≡ add64 e.chain_state.height 1)
          × (r.1.chain_state.head ≡ b)
          × ((receipts : List (TransactionReceipt Cause)) × (earlier : List ConsensusEvent)
              × ((apply_block s.crypto s.serialize_header s.wasm s.to_hex b e.vm_engine
                    e.chain_state).0
                  ≡ ok receipts)
              × (r.1.events ≡ earlier ++ new_block (sealed s k receipts b) ∷ []))
  unfolding try_produce_block
  try_produce_block_adds genesis_hash now k e h ours =
      let (receipts, q) = draft_taken genesis_hash now k e h in
      let (good, head, height, (earlier, sent)) = produce-taken now k e receipts q in
      let own : (address_of s k == address_of s k) ≡ true =
        (==_iff (address_of s k) (address_of s k)).1 refl in
      rw (try_produce_block, ours, own)
        (good, height ∙ ap (λ n. add64 n 1) h.head_number, head, (receipts, earlier, q, sent))

  slash_head :
      (now validator : ℕ) (evidence : SlashReason) (e : ConsensusEngine Module)
      → (slash s evidence validator now e).chain_state.head ≡ e.chain_state.head
  slash_head now validator evidence e =
      elim (Option-cases (get_validator e.chain_state.current_epoch.validator_set validator)) [
        | inl q ↦ rw (slash, q) refl
        | inr (v, q) ↦
            elim (Option-cases (evaluate_evidence e.config.consensus_params evidence v)) [
              | inl k ↦ rw (slash, q, k) refl
              | inr (penalty, k) ↦ rw (slash, q, k) refl
            ]
      ]

  check_seen_head :
      (now : ℕ) (b : Block) (e : ConsensusEngine Module)
      → (check_seen s b now e).1.chain_state.head ≡ e.chain_state.head
  unfolding check_seen
  check_seen_head now b e =
      let key : ℕ × ℕ = (b.header.number, b.header.validator) in
      elim (Option-cases (lookup key e.seen_blocks)) [
        | inl q ↦ rw (check_seen, q) refl
        | inr (prev_hash, q) ↦
            elim (Option-cases (detect_double_sign prev_hash (hash_block s b) b.header.number)) [
              | inl k ↦ rw (check_seen, q, k) refl
              | inr (evidence, k) ↦
                  rw (check_seen, q, k) (slash_head now b.header.validator evidence e)
            ]
      ]

  accept_block_orphan :
      (now : ℕ) (b : Block) (e : ConsensusEngine Module)
      → b.header.parent_hash ≢ hash_block s e.chain_state.head
      → is_ok (accept_block s b now e).0 ≡ false
  unfolding accept_block
  accept_block_orphan now b e orphan =
      elim (Result-cases
        (apply_block s.crypto s.serialize_header s.wasm s.to_hex b e.vm_engine e.chain_state).0) [
          | inl (receipts, q) ↦ absurd (
              orphan
                (apply_block-applied s.crypto s.serialize_header s.wasm s.to_hex e.vm_engine b
                  e.chain_state receipts q).1)
          | inr (x, q) ↦ rw (accept_block, q) refl
        ]

  -- No handler takes a block with another parent than the head.
  on_block_received_orphan :
      (now : ℕ) (b : Block) (e : ConsensusEngine Module)
      → b.header.parent_hash ≢ hash_block s e.chain_state.head
      → is_ok (on_block_received s b now e).0 ≡ false
  unfolding on_block_received
  on_block_received_orphan now b e orphan =
      let active = active_validators e.chain_state.current_epoch.validator_set in
      let (twice, e') = check_seen s b now e in
      elim (Result-cases (validate_block s.crypto s.serialize b)) [
        | inr (x, q) ↦ rw (on_block_received, q) refl
        | inl (u, q) ↦
            elim (Result-cases (
              verify_proposer s.crypto s.draw b.header.validator active
                (hash_block s e.chain_state.head) b.header.number)) [
                  | inr (x, k) ↦ rw (on_block_received, q, k) refl
                  | inl (v, k) ↦
                      elim (Result-cases (verify_signature s.crypto s.serialize_header b.header)) [
                        | inr (x, l) ↦ rw (on_block_received, q, k, l) refl
                        | inl (w, l) ↦ elim (Bool-cases twice) [
                          | inl t ↦ rw (on_block_received, q, k, l, t) refl
                          | inr t ↦
                              rw (on_block_received, q, k, l, t)
                                (accept_block_orphan now b e'
                                  (λ p. orphan (p ∙ ap (hash_block s) (check_seen_head now b e))))
                        ]
                      ]
                ]
      ]

  -- A follower whose head is the block that a producer has sealed and sent refuses the block that the
  -- producer drafts next, whatever it is sealed with: its parent is the draft that the producer has kept.
  -- Stated for blocks where sealing changes the hash, which holds the gas that was used.
  pub next_block_refused :
      (now later received : ℕ) (k : KeyPair) (e follower : ConsensusEngine Module)
      (receipts more : List (TransactionReceipt Cause))
      → let b = draft s k now e in
        let next = sealed s k more (draft s k later (produce s k now e).1) in
        (apply_block s.crypto s.serialize_header s.wasm s.to_hex b e.vm_engine e.chain_state).0
          ≡ ok receipts
        → hash_block s (sealed s k receipts b) ≢ hash_block s b
        → follower.chain_state.head ≡ sealed s k receipts b
        → is_ok (on_block_received s next received follower).0 ≡ false
  unfolding sign
  next_block_refused now later received k e follower receipts more taken differ theirs =
      let (_, ours, _, _) = produce-taken now k e receipts taken in
      on_block_received_orphan received (sealed s k more (draft s k later (produce s k now e).1))
        follower (λ p. differ (sym (ap (hash_block s) theirs) ∙ sym p ∙ ap (hash_block s) ours))
