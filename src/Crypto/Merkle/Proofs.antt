-- ===== src/Crypto/Merkle/Proofs.antt =====
-- What the proofs of crates/crypto/src/merkle.rs show: every leaf of a tree has one, and it
-- verifies against the tree's root.
use Prim.Native.Nat.{min}
use rustblockchain.Base.{
  ℕ, zero, suc, ◌+◌, ◌-◌, ◌/◌, ◌%◌, ◌≤◌, ◌<◌, ◌≡◌, ◌⊎◌, refl, sym, ap, ◌∙◌, inl, inr, true, none,
  some, List, [], ◌∷◌, arith, if◌then◌else◌, ltb, ◌==◌, nat_eq, length, get_elem?, unwrap_or,
  Bool-cases, Option-cases,
}
use rustblockchain.Crypto.Hash.{Primitives}
use rustblockchain.Crypto.Merkle
use rustblockchain.Crypto.Merkle.{
  Position, left, right, MerkleTree, MerkleProof, pad_odd, combine, chunks_combined, next_layer,
  layers_from, climb, verify_proof, last_layer, first, root, sibling_of, siblings_from, proof, new,
  leaf_count,
}

-- Indices and siblings two further on.
sibling_idx-shift :
    (i n : ℕ)
    → 0 < n
    → min (if suc (suc i) % 2 == 0 then suc (suc i) + 1 else suc (suc i) - 1) (suc (suc n) - 1)
      ≡ suc (suc (min (if i % 2 == 0 then i + 1 else i - 1) (n - 1)))
sibling_idx-shift i n h = ground arith

sibling_of-shift :
    (i a b : ℕ) (rest : List ℕ)
    → 0 < length rest
    → sibling_of (suc (suc i)) (a ∷ b ∷ rest) ≡ sibling_of i rest
sibling_of-shift i a b rest h = cc (
  ap (λ k. unwrap_or (get_elem? (a ∷ b ∷ rest) k) 0) (sibling_idx-shift i (length rest) h),
  ap (λ k. if k == 0 then right else left) (parity i),
)
  where
    parity : (i : ℕ) → suc (suc i) % 2 ≡ i % 2
    parity i = omega arith

get_elem?-none : (xs : List ℕ) (i : ℕ) → get_elem? xs i ≡ none → length xs ≤ i
get_elem?-none [] i h = omega arith
get_elem?-none (y ∷ xs) zero h = cc
get_elem?-none (y ∷ xs) (suc i) h = omega (arith, get_elem?-none xs i h)

get_elem?-nonempty : (xs : List ℕ) (i x : ℕ) → get_elem? xs i ≡ some x → 0 < length xs
get_elem?-nonempty [] i x h = cc
get_elem?-nonempty (y ∷ xs) i x h = omega arith

singleton : (xs : List ℕ) (i x : ℕ) → length xs ≤ 1 → get_elem? xs i ≡ some x → xs ≡ x ∷ []
singleton [] i x b h = cc
singleton (y ∷ []) zero x b h = ground arith
singleton (y ∷ []) (suc i) x b h = cc
singleton (y ∷ z ∷ xs) i x b h = absurd (omega arith)

-- Behind a layer, the layers above it decide.
last_layer-cons :
    (xs : List ℕ) {ls : List (List ℕ)} (y : List ℕ) (ys : List (List ℕ))
    → ls ≡ y ∷ ys
    → last_layer (xs ∷ ls) ≡ last_layer ls
last_layer-cons xs y ys e = ap (λ l. last_layer (xs ∷ l)) e ∙ sym (ap last_layer e)

siblings_from-cons :
    (i : ℕ) (xs : List ℕ) {ls : List (List ℕ)} (y : List ℕ) (ys : List (List ℕ))
    → ls ≡ y ∷ ys
    → siblings_from i (xs ∷ ls) ≡ sibling_of i xs ∷ siblings_from (i / 2) ls
unfolding siblings_from
siblings_from-cons i xs y ys e =
    ap (λ l. siblings_from i (xs ∷ l)) e
    ∙ sym (ap (λ l. sibling_of i xs ∷ siblings_from (i / 2) l) e)

module _ (c : Primitives) where
  climb-cons :
      (x : ℕ) (s : ℕ × Position) (rest : List (ℕ × Position))
      → climb c x (s ∷ rest) ≡ climb c (climb c x (s ∷ [])) rest
  climb-cons x (s, left) rest = refl
  climb-cons x (s, right) rest = refl

  layers_from-head :
      (fuel : ℕ) (xs : List ℕ) → (rest : List (List ℕ)) × (layers_from c fuel xs ≡ xs ∷ rest)
  unfolding layers_from
  layers_from-head zero xs = ([], refl)
  layers_from-head (suc fuel) xs = elim (Bool-cases (ltb 1 (length xs))) [
    | inl e ↦ rw e (layers_from c fuel (next_layer c xs), refl)
    | inr e ↦ rw e ([], refl)
  ]

  length-next_layer : (xs : List ℕ) → length (next_layer c xs) ≡ (length xs + 1) / 2
  length-next_layer [] = omega arith
  length-next_layer (a ∷ []) = omega arith
  length-next_layer (a ∷ b ∷ rest) = omega (arith, length-next_layer rest)

  -- One step up: the hash of a node and its sibling stands in the next layer at half the index.
  climb-sibling :
      (i x : ℕ) (xs : List ℕ)
      → get_elem? xs i ≡ some x
      → get_elem? (next_layer c xs) (i / 2) ≡ some (climb c x (sibling_of i xs ∷ []))
  climb-sibling i x [] h = cc
  climb-sibling zero x (a ∷ []) h = ground arith
  climb-sibling (suc i) x (a ∷ []) h = cc
  climb-sibling zero x (a ∷ b ∷ rest) h = ground arith
  climb-sibling (suc zero) x (a ∷ b ∷ rest) h = ground arith
  climb-sibling (suc (suc i)) x (a ∷ b ∷ rest) h =
      ap (get_elem? (next_layer c (a ∷ b ∷ rest))) (half i)
      ∙ climb-sibling i x rest h
      ∙ ap (λ s. some (climb c x (s ∷ [])))
          (sym (sibling_of-shift i a b rest (get_elem?-nonempty rest i x h)))
    where
      half : (i : ℕ) → suc (suc i) / 2 ≡ suc (i / 2)
      half i = omega arith

  length-next-lt :
      (fuel : ℕ) (xs : List ℕ)
      → 1 < length xs
      → length xs ≤ suc (suc fuel)
      → length (next_layer c xs) ≤ suc fuel
  length-next-lt fuel xs h b = omega (arith, length-next_layer xs)

  -- Climbing from any node of a layer gives the root above it.
  climb-layers :
      (fuel i x : ℕ) (xs : List ℕ)
      → length xs ≤ suc fuel
      → get_elem? xs i ≡ some x
      → last_layer (layers_from c fuel xs)
        ≡ some (climb c x (siblings_from i (layers_from c fuel xs)) ∷ [])
  unfolding layers_from siblings_from
  climb-layers zero i x xs b h = ap some (singleton xs i x b h)
  climb-layers (suc fuel) i x xs b h = elim (Bool-cases (ltb 1 (length xs))) [
    | inr e ↦ rw e (ap some (singleton xs i x (ground arith) h))
    | inl e ↦ rw e (
        let ls = layers_from c fuel (next_layer c xs) in
        let (rest, head) = layers_from-head fuel (next_layer c xs) in
        last_layer-cons xs (next_layer c xs) rest head
        ∙ climb-layers fuel (i / 2) (climb c x (sibling_of i xs ∷ [])) (next_layer c xs)
            (length-next-lt fuel xs (ground arith) b) (climb-sibling i x xs h)
        ∙ ap (λ y. some (y ∷ []))
            (sym (
              ap (climb c x) (siblings_from-cons i xs (next_layer c xs) rest head)
              ∙ climb-cons x (sibling_of i xs) (siblings_from (i / 2) ls))))
  ]

  -- Every leaf of a tree has a proof, and the proof verifies against the tree's root; outside the
  -- leaves there is no proof.
  pub verify_proof-proof :
      (leaves : List ℕ) (i : ℕ)
      → ((leaf_count (Merkle.new c leaves) ≤ i) × (proof (Merkle.new c leaves) i ≡ none))
        ⊎ ((p : MerkleProof) × (proof (Merkle.new c leaves) i ≡ some p)
            × (get_elem? leaves i ≡ some p.leaf)
            × (verify_proof c (root (Merkle.new c leaves)) p ≡ true))
  unfolding new leaf_count proof root verify_proof
  verify_proof-proof [] i = inl (omega arith, refl)
  verify_proof-proof (x ∷ xs) i = elim (Option-cases (get_elem? (x ∷ xs) i)) [
    | inl out ↦ inl (get_elem?-none (x ∷ xs) i out, ground arith)
    | inr (leaf, found) ↦ inr (
        let ls = layers_from c (suc (length xs)) (x ∷ xs) in
        let top : last_layer ls ≡ some (climb c leaf (siblings_from i ls) ∷ []) =
          climb-layers (suc (length xs)) i leaf (x ∷ xs) (omega arith) found in
        (
          record { leaf = leaf; siblings = siblings_from i ls },
          ground arith,
          found,
          ground (arith, top),
        ))
  ]
