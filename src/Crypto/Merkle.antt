-- ===== src/Crypto/Merkle.antt =====
-- crates/crypto/src/merkle.rs: Merkle trees and their proofs. The loop over the layers runs on
-- fuel: the number of leaves.
pub mod Proofs
pub mod Binding
mod Tests
use Prim.Native.Nat.{min}
use rustblockchain.Base.{
  ℕ, zero, suc, ◌+◌, ◌-◌, ◌/◌, ◌%◌, Bool, true, false, Option, none, some, List, [], ◌∷◌, map,
  if◌then◌else◌, ltb, leb, Eq, ◌==◌, nat_eq, length, get_elem?, unwrap_or,
}
use rustblockchain.Base.Text.{Text}
use rustblockchain.Base.Bytes.{le_bytes}
use rustblockchain.Crypto.Hash.{Primitives, hash, hash_multiple}

pub data Position : Type 0 where
  left right : Position

pub record MerkleTree : Type 0 where
  pub leaves : List ℕ
  pub layers : List (List ℕ)

pub record MerkleProof : Type 0 where
  pub leaf : ℕ
  pub siblings : List (ℕ × Position)

-- An odd layer gets its last hash once more.
abbrev pub pad_odd : List ℕ → List ℕ
pad_odd [] = []
pad_odd (a ∷ []) = a ∷ a ∷ []
pad_odd (a ∷ b ∷ rest) = a ∷ b ∷ pad_odd rest

module _ (c : Primitives) where
  unfoldable pub combine : ℕ → ℕ → ℕ
  combine a b = hash_multiple c (le_bytes 32 a ∷ le_bytes 32 b ∷ [])

  -- The chunks of two of an even layer, combined.
  abbrev pub chunks_combined : List ℕ → List ℕ
  chunks_combined [] = []
  chunks_combined (a ∷ []) = []
  chunks_combined (a ∷ b ∷ rest) = combine a b ∷ chunks_combined rest

  abbrev pub next_layer : List ℕ → List ℕ
  next_layer current = chunks_combined (pad_odd current)

  unfoldable pub layers_from : ℕ → List ℕ → List (List ℕ)
  layers_from zero current = current ∷ []
  layers_from (suc fuel) current =
      let rest = layers_from fuel (next_layer current) in
      if ltb 1 (length current) then current ∷ rest else current ∷ []

  unfoldable pub new : List ℕ → MerkleTree
  new [] = record { leaves = []; layers = (0 ∷ []) ∷ [] }
  new (leaf ∷ leaves) = record {
    leaves = leaf ∷ leaves;
    layers = layers_from (length (leaf ∷ leaves)) (leaf ∷ leaves);
  }

  -- The hash that a proof's siblings make of a leaf.
  abbrev pub climb : ℕ → List (ℕ × Position) → ℕ
  climb current [] = current
  climb current ((sibling, left) ∷ rest) = climb (combine sibling current) rest
  climb current ((sibling, right) ∷ rest) = climb (combine current sibling) rest

  unfoldable pub verify_proof : ℕ → MerkleProof → Bool
  verify_proof root p = climb p.leaf p.siblings == root

abbrev pub last_layer : List (List ℕ) → Option (List ℕ)
last_layer [] = none
last_layer (layer ∷ []) = some layer
last_layer (layer ∷ next ∷ rest) = last_layer (next ∷ rest)

abbrev pub first : List ℕ → Option ℕ
first [] = none
first (x ∷ xs) = some x

unfoldable pub root : MerkleTree → ℕ
root t = elim (last_layer t.layers) [ none ↦ 0 | some layer ↦ unwrap_or (first layer) 0 ]

-- An index into a layer: the code panics outside it, which a proof never is.
abbrev pub sibling_of : ℕ → List ℕ → ℕ × Position
sibling_of idx layer =
    let sibling_idx = if idx % 2 == 0 then idx + 1 else idx - 1 in
    (
      unwrap_or (get_elem? layer (min sibling_idx (length layer - 1))) 0,
      if idx % 2 == 0 then right else left,
    )

-- One sibling from every layer but the last.
unfoldable pub siblings_from : ℕ → List (List ℕ) → List (ℕ × Position)
siblings_from idx [] = []
siblings_from idx (layer ∷ []) = []
siblings_from idx (layer ∷ next ∷ rest) =
    sibling_of idx layer ∷ siblings_from (idx / 2) (next ∷ rest)

unfoldable pub proof : MerkleTree → ℕ → Option MerkleProof
proof t index = elim (get_elem? t.leaves index) [
  | none ↦ none
  | some leaf ↦ some (record { leaf = leaf; siblings = siblings_from index t.layers })
]

unfoldable pub leaf_count : MerkleTree → ℕ
leaf_count t = length t.leaves

unfoldable pub compute_merkle_root : Primitives → List Text → ℕ
compute_merkle_root c items = root (new c (map (hash c) items))
