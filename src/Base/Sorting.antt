-- ===== src/Base/Sorting.antt =====
-- `sort_by`: a stable sort, as an insertion sort that keeps equals in their order.
use mathlib.Core.List.{Perm}
use mathlib.Core.List.Perm
use rustblockchain.Base.{
  ℕ, zero, suc, take, All, ◌≡◌, Bool, true, List, [], ◌∷◌, inl, inr, ◌⊎◌, arith, if◌then◌else◌,
  Bool-cases,
}

module _ {ℓ} {A : Type ℓ} (before : A → A → Bool) where
  -- `before a b` says that the comparison of `a` with `b` does not give Greater.
  unfoldable pub insert_sorted : A → List A → List A
  insert_sorted a [] = a ∷ []
  insert_sorted a (x ∷ xs) = if before a x then a ∷ x ∷ xs else x ∷ insert_sorted a xs

  unfoldable pub sort_by : List A → List A
  unfolding insert_sorted
  sort_by [] = []
  sort_by (x ∷ xs) = insert_sorted x (sort_by xs)

  pub insert_sorted-perm : (a : A) (xs : List A) → Perm (insert_sorted a xs) (a ∷ xs)
  unfolding insert_sorted
  insert_sorted-perm a [] = Perm.refl (a ∷ [])
  insert_sorted-perm a (x ∷ xs) = elim (Bool-cases (before a x)) [
    | inl e ↦ rw e (Perm.refl (a ∷ x ∷ xs))
    | inr e ↦ rw e (Perm.trans (Perm.cons x (insert_sorted-perm a xs)) (Perm.swap a x xs))
  ]

  pub sort_by-perm : (xs : List A) → Perm (sort_by xs) xs
  unfolding sort_by
  sort_by-perm [] = Perm.refl []
  sort_by-perm (x ∷ xs) =
      Perm.trans (insert_sorted-perm x (sort_by xs)) (Perm.cons x (sort_by-perm xs))

  -- Each element stands before its successor.
  abbrev pub IsSorted : List A → Type 0
  IsSorted [] = Unit
  IsSorted (x ∷ []) = Unit
  IsSorted (x ∷ y ∷ ys) = (before x y ≡ true) × IsSorted (y ∷ ys)

  module _ (total : (a b : A) → (before a b ≡ true) ⊎ (before b a ≡ true)) where
    insert_between :
        (a y : A) (ys : List A)
        → before y a ≡ true
        → IsSorted (y ∷ ys)
        → IsSorted (insert_sorted a ys)
        → IsSorted (y ∷ insert_sorted a ys)
    unfolding insert_sorted
    insert_between a y [] h s t = (h, tt)
    insert_between a y (z ∷ zs) h s t = ground arith

    pub insert_sorted-IsSorted : (a : A) (xs : List A) → IsSorted xs → IsSorted (insert_sorted a xs)
    unfolding insert_sorted
    insert_sorted-IsSorted a [] s = tt
    insert_sorted-IsSorted a (x ∷ []) s = ground (arith, total a x)
    insert_sorted-IsSorted a (x ∷ y ∷ ys) s =
        ground
          (arith, total a x, insert_sorted-IsSorted a (y ∷ ys) s.1, insert_between a x (y ∷ ys))

    pub sort_by-IsSorted : (xs : List A) → IsSorted (sort_by xs)
    unfolding sort_by
    sort_by-IsSorted [] = tt
    sort_by-IsSorted (x ∷ xs) = insert_sorted-IsSorted x (sort_by xs) (sort_by-IsSorted xs)

  pub take-IsSorted : (n : ℕ) (xs : List A) → IsSorted xs → IsSorted (take n xs)
  take-IsSorted zero xs s = tt
  take-IsSorted (suc n) [] s = tt
  take-IsSorted (suc n) (x ∷ []) s = elim n as (λ k. IsSorted (x ∷ take k [])) [
    | zero ↦ tt
    | suc k ↦ tt
  ]
  take-IsSorted (suc zero) (x ∷ y ∷ ys) s = tt
  take-IsSorted (suc (suc n)) (x ∷ y ∷ ys) s = (s.0, take-IsSorted (suc n) (y ∷ ys) s.1)

  module _ {μ} (P : A → Type μ) where
    insert_sorted-All : (a : A) (xs : List A) → P a → All P xs → All P (insert_sorted a xs)
    unfolding insert_sorted
    insert_sorted-All a [] p h = (p, tt)
    insert_sorted-All a (x ∷ xs) p h = elim (Bool-cases (before a x)) [
      | inl e ↦ rw e (p, h)
      | inr e ↦ rw e (h.0, insert_sorted-All a xs p h.1)
    ]

    pub sort_by-All : (xs : List A) → All P xs → All P (sort_by xs)
    unfolding sort_by
    sort_by-All [] h = tt
    sort_by-All (x ∷ xs) h = insert_sorted-All x (sort_by xs) h.0 (sort_by-All xs h.1)
