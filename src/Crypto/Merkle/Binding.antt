-- ===== src/Crypto/Merkle/Binding.antt =====
-- What crates/crypto/src/merkle.rs rules out: two leaves proved at one place without a collision.
use rustblockchain.Base.{
  ℕ, ◌^◌, ◌<◌, ◌≡◌, ◌≢◌, ◌⊎◌, inl, inr, true, List, [], ◌∷◌, arith, ◌==◌, nat_eq, ==_iff,
  Bool-cases, All,
}
use rustblockchain.Base.Text.{Text}
use rustblockchain.Crypto.Hash.{Primitives, hash_multiple}
use rustblockchain.Crypto.Merkle.{Position, left, right, MerkleProof, combine, climb, verify_proof}

-- The number of 32 bytes.
abbrev pub IsHash : ℕ → Type 0
IsHash n = n < 256 ^ 32

-- Two different pairs of hashes that combine to the same hash.
abbrev pub IsCollision : Primitives → ℕ × ℕ → ℕ × ℕ → Type 0
IsCollision c (a, b) (a', b') =
    IsHash a
    × IsHash b
    × IsHash a'
    × IsHash b'
    × (combine c a b ≡ combine c a' b')
    × ((a ≢ a') ⊎ (b ≢ b'))

-- A sibling and a hash, in the order in which they are combined.
abbrev pub ordered : Position → ℕ → ℕ → ℕ × ℕ
ordered left sibling current = (sibling, current)
ordered right sibling current = (current, sibling)

abbrev pub combined : Primitives → ℕ × ℕ → ℕ
combined c (a, b) = combine c a b

-- On the way up from two leaves, at some level the two pairs that are combined are a collision.
abbrev pub Collide : Primitives → ℕ → ℕ → List (ℕ × Position) → List (ℕ × Position) → Type 0
Collide c x y [] ts = ⊥
Collide c x y (e ∷ ss) [] = ⊥
Collide c x y ((s, p) ∷ ss) ((t, q) ∷ ts) =
    IsCollision c (ordered p s x) (ordered q t y)
    ⊎ Collide c (combined c (ordered p s x)) (combined c (ordered q t y)) ss ts

abbrev pub positions : List (ℕ × Position) → List Position
positions [] = []
positions ((s, p) ∷ rest) = p ∷ positions rest

abbrev pub AreHashes : List (ℕ × Position) → Type 0
AreHashes siblings = All (λ (e : ℕ × Position). IsHash e.0) siblings

module _ (c : Primitives) (digest : (bytes : Text) → IsHash (c.blake3 bytes)) where
  combine-IsHash : (a b : ℕ) → IsHash (combine c a b)
  unfolding combine hash_multiple
  combine-IsHash a b = digest _

  combine-cases :
      (a b a' b' : ℕ)
      → IsHash a × IsHash b
      → IsHash a' × IsHash b'
      → combine c a b ≡ combine c a' b'
      → ((a ≡ a') × (b ≡ b')) ⊎ IsCollision c (a, b) (a', b')
  combine-cases a b a' b' (h, k) (h', k') e = elim (Bool-cases (a == a')) [
    | inr ne ↦ inr (h, k, h', k', e, inl (ground (arith, ==_iff a a')))
    | inl eq ↦ elim (Bool-cases (b == b')) [
      | inr ne ↦ inr (h, k, h', k', e, inr (ground (arith, ==_iff b b')))
      | inl eq' ↦ inl (ground (arith, ==_iff a a', ==_iff b b'))
    ]
  ]

  climb-cases :
      (x y : ℕ) (ss ts : List (ℕ × Position))
      → IsHash x × IsHash y
      → AreHashes ss
      → AreHashes ts
      → positions ss ≡ positions ts
      → climb c x ss ≡ climb c y ts
      → (x ≡ y) ⊎ Collide c x y ss ts
  climb-cases x y [] [] k hs ht p e = inl e
  climb-cases x y [] (t ∷ ts) k hs ht p e = cc
  climb-cases x y (s ∷ ss) [] k hs ht p e = cc
  climb-cases x y ((s, left) ∷ ss) ((t, right) ∷ ts) k hs ht p e = cc
  climb-cases x y ((s, right) ∷ ss) ((t, left) ∷ ts) k hs ht p e = cc
  climb-cases x y ((s, left) ∷ ss) ((t, left) ∷ ts) (hx, hy) (h, hs) (h', ht) p e =
      elim (climb-cases (combine c s x) (combine c t y) ss ts
        (combine-IsHash s x, combine-IsHash t y) hs ht (cc) e) [
          | inr found ↦ inr (inr found)
          | inl same ↦ elim (combine-cases s x t y (h, hx) (h', hy) same) [
            | inl (_, q) ↦ inl q
            | inr found ↦ inr (inl found)
          ]
        ]
  climb-cases x y ((s, right) ∷ ss) ((t, right) ∷ ts) (hx, hy) (h, hs) (h', ht) p e =
      elim (climb-cases (combine c x s) (combine c y t) ss ts
        (combine-IsHash x s, combine-IsHash y t) hs ht (cc) e) [
          | inr found ↦ inr (inr found)
          | inl same ↦ elim (combine-cases x s y t (hx, h) (hy, h') same) [
            | inl (q, _) ↦ inl q
            | inr found ↦ inr (inl found)
          ]
        ]

-- Two proofs with the same positions that verify against one root prove the same leaf, or on their way
-- up two different pairs of hashes combine to the same hash. Stated for a hash function whose values have
-- 32 bytes, and proofs whose leaf and siblings have 32 bytes.
pub verify_proof-binding :
    (c : Primitives) (r : ℕ) (p q : MerkleProof)
    → ((bytes : Text) → IsHash (c.blake3 bytes))
    → IsHash p.leaf × AreHashes p.siblings
    → IsHash q.leaf × AreHashes q.siblings
    → positions p.siblings ≡ positions q.siblings
    → verify_proof c r p ≡ true
    → verify_proof c r q ≡ true
    → (p.leaf ≡ q.leaf) ⊎ Collide c p.leaf q.leaf p.siblings q.siblings
unfolding verify_proof
verify_proof-binding c r p q digest (hp, hps) (hq, hqs) same e f =
    climb-cases c digest p.leaf q.leaf p.siblings q.siblings (hp, hq) hps hqs same
      (ground (arith, ==_iff (climb c p.leaf p.siblings) r, ==_iff (climb c q.leaf q.siblings) r))
