-- ===== src/Consensus/Engine/DoubleSigns.antt =====
-- What a double sign does to the chain in crates/consensus/src/engine.rs.
use rustblockchain.Base.{
  ℕ, ◌≡◌, ◌≢◌, ◌⊎◌, inl, inr, refl, false, some, arith, ◌==◌, ==_iff, nat_eq, pair_eq, Option-cases,
  Bool-cases,
}
use rustblockchain.Base.Dict.{lookup}
use rustblockchain.Base.Result.{err, Result-cases}
use rustblockchain.Core.Block.{Block, verify_signature, validate_block}
use rustblockchain.Core.Validator.{get_validator, active_validators}
use rustblockchain.Consensus.Proposer.{verify_proposer}
use rustblockchain.Consensus.Slashing.{SlashReason, detect_double_sign, evaluate_evidence}
use rustblockchain.Consensus.Chain.{apply_block}
use rustblockchain.Consensus.Engine.{
  Services, ConsensusEngine, double_sign_detected, on_block_received, accept_block, check_seen,
  slash, hash_block,
}

module _ {Module : Type 0} (s : Services Module) where
  slash_epoch :
      (now validator : ℕ) (evidence : SlashReason) (e : ConsensusEngine Module)
      → (slash s evidence validator now e).chain_state.current_epoch ≡ e.chain_state.current_epoch
  slash_epoch now validator evidence e =
      elim (Option-cases (get_validator e.chain_state.current_epoch.validator_set validator)) [
        | inl q ↦ rw (slash, q) refl
        | inr (v, q) ↦
            elim (Option-cases (evaluate_evidence e.config.consensus_params evidence v)) [
              | inl k ↦ rw (slash, q, k) refl
              | inr (penalty, k) ↦ rw (slash, q, k) refl
            ]
      ]

  check_seen_lem :
      (now : ℕ) (b : Block) (e : ConsensusEngine Module)
      → let (twice, e') = check_seen s b now e in
        (e'.chain_state.current_epoch ≡ e.chain_state.current_epoch)
        × ((twice ≡ false)
            ⊎ ((prev_hash : ℕ) × (lookup (b.header.number, b.header.validator) e.seen_blocks
                  ≡ some prev_hash)
                × (prev_hash ≢ hash_block s b)))
  unfolding check_seen detect_double_sign
  check_seen_lem now b e =
      let key : ℕ × ℕ = (b.header.number, b.header.validator) in
      elim (Option-cases (lookup key e.seen_blocks)) [
        | inl q ↦ rw (check_seen, q) (refl, inl refl)
        | inr (prev_hash, q) ↦ elim (Bool-cases (prev_hash == hash_block s b)) [
          | inl k ↦ rw (check_seen, q, detect_double_sign, k) (refl, inl refl)
          | inr k ↦
              rw (check_seen, q, detect_double_sign, k)
                (
                  slash_epoch now b.header.validator _ e,
                  inr (prev_hash, refl, λ same. ground (arith, ==_iff prev_hash (hash_block s b))),
                )
        ]
      ]

  accept_block_error :
      (now : ℕ) (b : Block) (e : ConsensusEngine Module)
      → (accept_block s b now e).0 ≢ err double_sign_detected
  unfolding accept_block
  accept_block_error now b e h =
      elim (Result-cases
        (apply_block s.crypto s.serialize_header s.wasm s.to_hex b e.vm_engine e.chain_state).0) [
          | inl (receipts, q) ↦ ground arith
          | inr (x, q) ↦ ground arith
        ]

  -- A block is refused as a double sign only if its validator has sent another block with its number,
  -- and then no epoch changes: the slashed validator goes on with its stake and its turns.
  pub double_sign_keeps_epoch :
      (now : ℕ) (b : Block) (e : ConsensusEngine Module)
      → (on_block_received s b now e).0 ≡ err double_sign_detected
      → ((on_block_received s b now e).1.chain_state.current_epoch ≡ e.chain_state.current_epoch)
        × ((prev_hash : ℕ) × (lookup (b.header.number, b.header.validator) e.seen_blocks
              ≡ some prev_hash)
            × (prev_hash ≢ hash_block s b))
  unfolding on_block_received
  double_sign_keeps_epoch now b e h =
      let active = active_validators e.chain_state.current_epoch.validator_set in
      let (same, cause) = check_seen_lem now b e in
      let (twice, e') = check_seen s b now e in
      elim (Result-cases (validate_block s.crypto s.serialize b)) [
        | inr (x, q) ↦ absurd (ground arith)
        | inl (u, q) ↦
            elim (Result-cases (
              verify_proposer s.crypto s.draw b.header.validator active
                (hash_block s e.chain_state.head) b.header.number)) [
                  | inr (x, k) ↦ absurd (ground arith)
                  | inl (v, k) ↦
                      elim (Result-cases (verify_signature s.crypto s.serialize_header b.header)) [
                        | inr (x, l) ↦ absurd (ground arith)
                        | inl (w, l) ↦ elim cause [
                          | inr found ↦ elim (Bool-cases twice) [
                            | inl t ↦ rw (on_block_received, q, k, l, t) (same, found)
                            | inr t ↦ absurd (ground (arith, accept_block_error now b e'))
                          ]
                          | inl t ↦ absurd (
                              accept_block_error now b e' (rw (on_block_received, q, k, l, t) at h))
                        ]
                      ]
                ]
      ]
