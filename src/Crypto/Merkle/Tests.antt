-- ===== src/Crypto/Merkle/Tests.antt =====
-- Tests of the Merkle trees and the instances of their theorems.
use rustblockchain.Base.{
  ◌%◌, arith, ℕ, ◌+◌, ◌*◌, ◌≤◌, ◌≡◌, ◌⊎◌, refl, true, none, some, [], ◌∷◌, length, get_elem?,
}
use rustblockchain.Base.Text.{Text}
use rustblockchain.Base.Bytes.{le_bytes}
use rustblockchain.Crypto.Hash.{Primitives, framed, hash_multiple}
use rustblockchain.Crypto.Merkle
use rustblockchain.Crypto.Merkle.{
  MerkleProof, left, right, combine, root, proof, leaf_count, verify_proof,
}
use rustblockchain.Crypto.Merkle.Proofs.{verify_proof-proof}
use rustblockchain.Crypto.Merkle.Binding.{verify_proof-binding, Collide, IsHash}

-- Stand-ins: a hash that weighs the bytes, and one that is their number and so has collisions.
abbrev weigh : Text → ℕ
weigh [] = 7
weigh (b ∷ bs) = b + 3 * weigh bs

abbrev weighing : Primitives
weighing = record { blake3 = weigh; ed25519 = λ key message signature. true }

abbrev counting : Primitives
counting = record { blake3 = λ bytes. length bytes % 256; ed25519 = λ key message signature. true }

empty_root_test : root (Merkle.new weighing []) ≡ 0
unfolding root Merkle.new
empty_root_test = refl

verify_proof-proof_example :
    let tree = Merkle.new weighing (10 ∷ 20 ∷ 30 ∷ []) in
    ((leaf_count tree ≤ 2) × (proof tree 2 ≡ none))
    ⊎ ((p : MerkleProof) × (proof tree 2 ≡ some p)
        × (get_elem? (10 ∷ 20 ∷ 30 ∷ []) 2 ≡ some p.leaf)
        × (verify_proof weighing (root tree) p ≡ true))
verify_proof-proof_example = verify_proof-proof weighing (10 ∷ 20 ∷ 30 ∷ []) 2

abbrev proof_of : ℕ → MerkleProof
proof_of leaf = record { leaf = leaf; siblings = (7, right) ∷ [] }

verifies_five : verify_proof counting 80 (proof_of 5) ≡ true
unfolding verify_proof combine hash_multiple framed le_bytes
verifies_five = refl

verifies_six : verify_proof counting 80 (proof_of 6) ≡ true
unfolding verify_proof combine hash_multiple framed le_bytes
verifies_six = refl

digest_test : (bytes : Text) → IsHash (counting.blake3 bytes)
digest_test bytes = omega arith

verify_proof-binding_example :
    ((proof_of 5).leaf ≡ (proof_of 6).leaf)
    ⊎ Collide counting 5 6 (proof_of 5).siblings (proof_of 6).siblings
verify_proof-binding_example =
    verify_proof-binding counting 80 (proof_of 5) (proof_of 6) digest_test
      (omega arith, (omega arith, tt)) (omega arith, (omega arith, tt)) refl verifies_five
      verifies_six
