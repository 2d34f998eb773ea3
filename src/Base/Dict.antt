-- ===== src/Base/Dict.antt =====
-- A hash map with unique keys as an association list: DashMap and HashMap, whose iteration order
-- the code leaves open, are read in insertion order.
use mathlib.Core.Path.{subst₂}
use rustblockchain.Base.{
  ℕ, unwrap_or, Bool-cases, inl, inr, ◌+◌, ◌≤◌, ◌≡◌, refl, ◌≢◌, Bool, false, Option, none, some,
  List, [], ◌∷◌, arith, if◌then◌else◌, Eq, ◌==◌, ==_iff, length, is_some,
}

abbrev pub Dict {ℓ κ} : Type ℓ → Type κ → Type (ℓ ⊔ κ)
Dict K V = List (K × V)

module _ {ℓ κ} {K : Type ℓ} {V : Type κ} ⦃e : Eq K⦄ where
  abbrev pub lookup : K → Dict K V → Option V
  lookup k [] = none
  lookup k ((j, v) ∷ m) = if j == k then some v else lookup k m

  abbrev pub contains_key : K → Dict K V → Bool
  contains_key k m = is_some (lookup k m)

  abbrev pub insert : K → V → Dict K V → Dict K V
  insert k v [] = (k, v) ∷ []
  insert k v ((j, w) ∷ m) = if j == k then (k, v) ∷ m else (j, w) ∷ insert k v m

  abbrev pub remove : K → Dict K V → Dict K V
  remove k [] = []
  remove k ((j, w) ∷ m) = if j == k then m else (j, w) ∷ remove k m

  -- `entry(k).or_default()`, then a change in place.
  abbrev pub update_or : K → V → (V → V) → Dict K V → Dict K V
  update_or k d f m = insert k (f (unwrap_or (lookup k m) d)) m

  pub lookup-insert :
      (j k : K) (v : V) (m : Dict K V)
      → lookup j (insert k v m) ≡ (if k == j then some v else lookup j m)
  lookup-insert j k v [] = refl
  lookup-insert j k v ((i, w) ∷ m) =
      ground (arith, ==_iff k j, ==_iff i k, ==_iff i j, lookup-insert j k v m)

  pub lookup-insert_self : (k : K) (v : V) (m : Dict K V) → lookup k (insert k v m) ≡ some v
  lookup-insert_self k v m = ground (arith, lookup-insert k k v m, ==_iff k k)

  pub lookup-insert_ne :
      (j k : K) (v : V) (m : Dict K V) → k ≢ j → lookup j (insert k v m) ≡ lookup j m
  lookup-insert_ne j k v m h = ground (arith, lookup-insert j k v m, ==_iff k j)

  pub lookup-update_or :
      (j k : K) (d : V) (f : V → V) (m : Dict K V)
      → lookup j (update_or k d f m)
        ≡ (if k == j then some (f (unwrap_or (lookup k m) d)) else lookup j m)
  lookup-update_or j k d f m = lookup-insert j k (f (unwrap_or (lookup k m) d)) m

  -- A key that is new hides no entry.
  pub lookup-insert_fresh :
      (j k : K) (v w : V) (m : Dict K V)
      → lookup k m ≡ none
      → lookup j m ≡ some w
      → lookup j (insert k v m) ≡ some w
  lookup-insert_fresh j k v w m fresh h = ground (arith, lookup-insert j k v m, ==_iff k j)

  pub lookup-remove_ne : (j k : K) (m : Dict K V) → k ≢ j → lookup j (remove k m) ≡ lookup j m
  lookup-remove_ne j k [] h = refl
  lookup-remove_ne j k ((i, w) ∷ m) h =
      ground (arith, ==_iff i k, ==_iff i j, lookup-remove_ne j k m h)

  -- No key is listed twice.
  abbrev pub HasUniqueKeys : Dict K V → Type 0
  HasUniqueKeys [] = Unit
  HasUniqueKeys ((k, v) ∷ m) = (contains_key k m ≡ false) × HasUniqueKeys m

  contains_key-insert_ne :
      (j k : K) (v : V) (m : Dict K V)
      → k ≢ j
      → contains_key j m ≡ false
      → contains_key j (insert k v m) ≡ false
  contains_key-insert_ne j k v m h e = ground (arith, lookup-insert_ne j k v m h)

  pub insert-HasUniqueKeys :
      (k : K) (v : V) (m : Dict K V) → HasUniqueKeys m → HasUniqueKeys (insert k v m)
  insert-HasUniqueKeys k v [] u = (refl, tt)
  insert-HasUniqueKeys k v ((j, w) ∷ m) u =
      ground (arith, ==_iff j k, insert-HasUniqueKeys k v m u.1, contains_key-insert_ne j k v m)

  pub remove-HasUniqueKeys : (k : K) (m : Dict K V) → HasUniqueKeys m → HasUniqueKeys (remove k m)
  remove-HasUniqueKeys k [] u = tt
  remove-HasUniqueKeys k ((j, w) ∷ m) u =
      ground (arith, ==_iff j k, remove-HasUniqueKeys k m u.1, lookup-remove_ne j k m)

  pub lookup-remove_self : (k : K) (m : Dict K V) → HasUniqueKeys m → lookup k (remove k m) ≡ none
  lookup-remove_self k [] u = refl
  lookup-remove_self k ((j, w) ∷ m) u = ground (arith, ==_iff j k, lookup-remove_self k m u.1)

  pub length-insert_new :
      (k : K) (v : V) (m : Dict K V) → lookup k m ≡ none → length (insert k v m) ≡ length m + 1
  length-insert_new k v [] h = omega arith
  length-insert_new k v ((j, w) ∷ m) h = ground (arith, ==_iff j k, length-insert_new k v m)

  pub length-insert_old :
      (k : K) (v w : V) (m : Dict K V) → lookup k m ≡ some w → length (insert k v m) ≡ length m
  length-insert_old k v w [] h = cc
  length-insert_old k v w ((j, x) ∷ m) h = ground (arith, ==_iff j k, length-insert_old k v w m)

  pub length-remove-le : (k : K) (m : Dict K V) → length (remove k m) ≤ length m
  length-remove-le k [] = omega arith
  length-remove-le k ((j, w) ∷ m) = ground (arith, length-remove-le k m)

  -- Every entry satisfies the predicate.
  module _ {μ} (P : K → V → Type μ) where
    abbrev pub Entries : Dict K V → Type μ
    Entries [] = Unit
    Entries ((k, v) ∷ m) = P k v × Entries m

    pub insert-Entries : (k : K) (v : V) (m : Dict K V) → P k v → Entries m → Entries (insert k v m)
    insert-Entries k v [] p h = (p, tt)
    insert-Entries k v ((j, w) ∷ m) p h = elim (Bool-cases (j == k)) [
      | inl e ↦ rw e (p, h.1)
      | inr e ↦ rw e (h.0, insert-Entries k v m p h.1)
    ]

    pub lookup-Entries : (k : K) (v : V) (m : Dict K V) → Entries m → lookup k m ≡ some v → P k v
    lookup-Entries k v [] h e = cc
    lookup-Entries k v ((j, w) ∷ m) h e = elim (Bool-cases (j == k)) [
      | inl q ↦ subst₂ P ((==_iff j k).0 q) (ground arith) h.0
      | inr q ↦ lookup-Entries k v m h.1 (rw q at e)
    ]

  -- What an update does to a sum over the values.
  module _ (f : V → ℕ) where
    abbrev pub sum_values : Dict K V → ℕ
    sum_values [] = 0
    sum_values ((k, v) ∷ m) = f v + sum_values m

    pub sum_values-insert :
        (k : K) (v w : V) (m : Dict K V)
        → lookup k m ≡ some w
        → sum_values (insert k v m) + f w ≡ sum_values m + f v
    sum_values-insert k v w [] h = cc
    sum_values-insert k v w ((j, x) ∷ m) h = ground (arith, ==_iff j k, sum_values-insert k v w m)

    pub sum_values-insert_new :
        (k : K) (v : V) (m : Dict K V)
        → lookup k m ≡ none
        → sum_values (insert k v m) ≡ sum_values m + f v
    sum_values-insert_new k v [] h = omega arith
    sum_values-insert_new k v ((j, x) ∷ m) h =
        ground (arith, ==_iff j k, sum_values-insert_new k v m)

    pub sum_values-remove :
        (k : K) (w : V) (m : Dict K V)
        → lookup k m ≡ some w
        → sum_values (remove k m) + f w ≡ sum_values m
    sum_values-remove k w [] h = cc
    sum_values-remove k w ((j, x) ∷ m) h = ground (arith, ==_iff j k, sum_values-remove k w m)

    pub sum_values-le : (k : K) (w : V) (m : Dict K V) → lookup k m ≡ some w → f w ≤ sum_values m
    sum_values-le k w [] h = cc
    sum_values-le k w ((j, x) ∷ m) h = ground (arith, sum_values-le k w m)
