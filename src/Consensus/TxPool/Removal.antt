-- ===== src/Consensus/TxPool/Removal.antt =====
-- Removal from the pool of crates/consensus/src/tx_pool.rs.
use mathlib.Core.Path.{subst}
use rustblockchain.Base.{
  ℕ, ◌≤◌, ◌≡◌, ◌⊎◌, refl, sym, inl, inr, true, none, some, List, [], ◌∷◌, arith, if◌then◌else◌,
  ◌==◌, nat_eq, pair_eq, ==_iff, length, unwrap_or, Bool-cases, Option-cases,
}
use rustblockchain.Base.Dict.{
  Dict, lookup, remove, HasUniqueKeys, insert-HasUniqueKeys, remove-HasUniqueKeys, Entries,
  lookup-insert, lookup-remove_ne, lookup-remove_self, length-remove-le,
}
use rustblockchain.Consensus.TxPool.{
  PooledTransaction, TransactionPool, set_remove, unindex, remove_transaction, get,
}
use rustblockchain.Consensus.TxPool.Index.{IsValid, Indexed, sender_set, elem-set_remove}

abbrev removed : PooledTransaction → ℕ → TransactionPool → TransactionPool
removed x h p = record p { pending = remove h p.pending; by_sender = unindex x.tx h p.by_sender }

remove-Entries :
    (P : ℕ → PooledTransaction → Type 0) (h : ℕ) (d : Dict ℕ PooledTransaction)
    → Entries P d
    → Entries P (remove h d)
remove-Entries P h [] e = tt
remove-Entries P h ((k, x) ∷ d) e = elim (Bool-cases (k == h)) [
  | inl q ↦ rw q e.1
  | inr q ↦ rw q (e.0, remove-Entries P h d e.1)
]

length-nil : (xs : List (ℕ × ℕ)) → (length xs == 0) ≡ true → xs ≡ []
length-nil [] h = refl
length-nil (x ∷ xs) h = absurd (ground arith)

abbrev rest_of : PooledTransaction → ℕ → List (ℕ × ℕ) → List (ℕ × ℕ)
rest_of x h set = set_remove (x.tx.transaction.nonce, h) set

-- The index after a transaction has left it.
lookup-unindex :
    (a h : ℕ) (x : PooledTransaction) (index : Dict ℕ (List (ℕ × ℕ)))
    → HasUniqueKeys index
    → unwrap_or (lookup a (unindex x.tx h index)) [] ≡ (
        if x.tx.transaction.from == a
        then rest_of x h (unwrap_or (lookup a index) [])
        else unwrap_or (lookup a index) [])
lookup-unindex a h x index u = elim (Option-cases (lookup x.tx.transaction.from index)) [
  | inl e ↦ ground (arith, ==_iff x.tx.transaction.from a)
  | inr (set, e) ↦ elim (Bool-cases (length (rest_of x h set) == 0)) [
    | inl empty ↦ ground (
      arith,
      ==_iff x.tx.transaction.from a,
      length-nil (rest_of x h set) empty,
      lookup-remove_self x.tx.transaction.from index u,
      lookup-remove_ne a x.tx.transaction.from index,
    )
    | inr more ↦ ground (
      arith,
      ==_iff x.tx.transaction.from a,
      lookup-insert a x.tx.transaction.from (rest_of x h set) index,
    )
  ]
]

unindex-HasUniqueKeys :
    (h : ℕ) (x : PooledTransaction) (index : Dict ℕ (List (ℕ × ℕ)))
    → HasUniqueKeys index
    → HasUniqueKeys (unindex x.tx h index)
unindex-HasUniqueKeys h x index u = elim (Option-cases (lookup x.tx.transaction.from index)) [
  | inl e ↦ ground arith
  | inr (set, e) ↦ ground (
    arith,
    remove-HasUniqueKeys x.tx.transaction.from index u,
    insert-HasUniqueKeys x.tx.transaction.from (rest_of x h set) index u,
  )
]

removed-Indexed :
    (x : PooledTransaction) (a n h k : ℕ) (p : TransactionPool)
    → HasUniqueKeys p.pending
    → HasUniqueKeys p.by_sender
    → lookup h p.pending ≡ some x
    → Indexed p a n k
    → Indexed (removed x h p) a n k
removed-Indexed x a n h k p u w found i = ground (
  arith,
  lookup-unindex a h x p.by_sender w,
  elem-set_remove (n, k) (x.tx.transaction.nonce, h) (sender_set p a),
  lookup-remove_self h p.pending u,
  lookup-remove_ne k h p.pending,
  ==_iff x.tx.transaction.from a,
)

removed-IsValid :
    (h : ℕ) (x : PooledTransaction) (p : TransactionPool)
    → lookup h p.pending ≡ some x
    → IsValid p
    → IsValid (removed x h p)
removed-IsValid h x p found v = record {
  unique_pending = remove-HasUniqueKeys h p.pending v.unique_pending;
  unique_senders = unindex-HasUniqueKeys h x p.by_sender v.unique_senders;
  entries =
      remove-Entries
        (λ h (x : PooledTransaction).
          (h ≡ x.tx.tx_hash) × (p.min_gas_price ≤ x.tx.transaction.gas_price))
        h p.pending v.entries;
  small = omega (arith, length-remove-le h p.pending, v.small);
  index =
      λ a n k. removed-Indexed x a n h k p v.unique_pending v.unique_senders found (v.index a n k);
}

remove_transaction_cases :
    (h : ℕ) (p : TransactionPool)
    → ((lookup h p.pending ≡ none) × (remove_transaction h p ≡ (none, p)))
      ⊎ ((x : PooledTransaction) × (lookup h p.pending ≡ some x)
          × (remove_transaction h p ≡ (some x.tx, removed x h p)))
unfolding remove_transaction
remove_transaction_cases h p = elim (Option-cases (lookup h p.pending)) [
  | inl e ↦ inl (ground arith)
  | inr (x, e) ↦ inr (x, e, ground arith)
]

-- Removing a transaction returns it if it was pending, after which it is not, and keeps the pool and
-- its index in agreement.
pub remove_transaction-IsValid :
    (h : ℕ) (p : TransactionPool)
    → IsValid p
    → IsValid (remove_transaction h p).1
      × ((remove_transaction h p).0 ≡ get p h)
      × (get (remove_transaction h p).1 h ≡ none)
unfolding get
remove_transaction-IsValid h p v = elim (remove_transaction_cases h p) [
  | inl (e, r) ↦ (subst (λ r. IsValid r.1) (sym r) v, ground arith, ground arith)
  | inr (x, e, r) ↦ (
    subst (λ r. IsValid r.1) (sym r) (removed-IsValid h x p e v),
    ground arith,
    ground (arith, lookup-remove_self h p.pending v.unique_pending),
  )
]
