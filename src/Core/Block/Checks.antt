-- ===== src/Core/Block/Checks.antt =====
-- Which blocks crates/core/src/block.rs accepts.
use rustblockchain.Base.{
  ℕ, ◌+◌, ◌≤◌, ◌≡◌, ◌↔◌, refl, inl, inr, true, List, [], ◌∷◌, arith, nat_eq, length, All,
}
use rustblockchain.Base.Text.{Text}
use rustblockchain.Base.Bytes.{le_bytes}
use rustblockchain.Base.Result.{ok, Result-cases}
use rustblockchain.Crypto.Hash.{Primitives, to_address}
use rustblockchain.Core.Transaction
use rustblockchain.Core.Transaction.{Transaction, SignedTransaction}
use rustblockchain.Core.Block.{
  BlockHeader, Block, protocol_version, max_extra_data_size, max_block_transactions,
  compute_transactions_root, validate_header, verify_from, validate_block, hash_header, sign,
  verify_signature, genesis,
}

abbrev pub IsBasicHeader : Primitives → BlockHeader → Type 0
IsBasicHeader c h =
    (h.version ≡ protocol_version)
    × (length h.extra_data ≤ max_extra_data_size)
    × (h.gas_used ≤ h.gas_limit)
    × (to_address c h.validator_pubkey ≡ h.validator)

module _ (c : Primitives) (serialize : Transaction → Text) where
  abbrev pub Verified : SignedTransaction → Type 0
  Verified s = Transaction.verify c serialize s ≡ ok tt

  verify_from_iff :
      (i : ℕ) (ss : List SignedTransaction)
      → (verify_from c serialize i ss ≡ ok tt) ↔ All Verified ss
  verify_from_iff i [] = ground arith
  verify_from_iff i (s ∷ ss) = elim (Result-cases (Transaction.verify c serialize s)) [
    | inl (u, e) ↦ ground (arith, verify_from_iff (i + 1) ss)
    | inr (x, e) ↦ ground arith
  ]

  -- Basic validation accepts exactly the blocks whose header has the protocol's version, extra data
  -- within the limit, no more gas used than its limit and the address of its key, and that hold at
  -- most the maximal number of transactions, all verified, with the Merkle root in the header.
  pub validate_block_iff :
      (b : Block)
      → (validate_block c serialize b ≡ ok tt) ↔ (
          IsBasicHeader c b.header
          × (length b.transactions ≤ max_block_transactions)
          × (compute_transactions_root c b ≡ b.header.transactions_root)
          × All Verified b.transactions)
  unfolding validate_block validate_header
  validate_block_iff b = ground (arith, verify_from_iff 0 b.transactions)

  -- The genesis block is valid whenever its validator is the address of its key and its extra data
  -- is within the limit.
  pub genesis-validate_block :
      (chain_id timestamp validator key gas_limit : ℕ) (extra : Text)
      → to_address c key ≡ validator
      → length extra ≤ max_extra_data_size
      → validate_block c serialize (genesis chain_id timestamp validator key gas_limit extra)
        ≡ ok tt
  unfolding genesis validate_block validate_header compute_transactions_root
  genesis-validate_block chain_id timestamp validator key gas_limit extra a l = ground arith

module _ (c : Primitives) (serialize_header : BlockHeader → Text) where
  -- A header that its validator signs verifies, and signing does not change the hash. `key` signs
  -- for the public key: its signatures are valid.
  pub verify_signature-sign :
      (key : Text → ℕ) (h : BlockHeader)
      → ((message : Text) → c.ed25519 h.validator_pubkey message (key message) ≡ true)
      → (verify_signature c serialize_header (sign c serialize_header key h) ≡ ok tt)
        × (hash_header c serialize_header (sign c serialize_header key h)
            ≡ hash_header c serialize_header h)
  unfolding verify_signature sign hash_header
  verify_signature-sign key h valid =
      (ground (arith, valid (le_bytes 32 (hash_header c serialize_header h))), refl)
