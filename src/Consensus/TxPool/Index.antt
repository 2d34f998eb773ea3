-- ===== src/Consensus/TxPool/Index.antt =====
-- The pool of crates/consensus/src/tx_pool.rs: which transactions it takes, and the agreement of
-- its index by sender with what is pending.
use mathlib.Core.Path.{subst}
use rustblockchain.Base.{
  ℕ, ◌≤◌, ◌<◌, ◌≡◌, ◌⊎◌, refl, sym, ap, ◌∙◌, inl, inr, Bool, true, false, not, ◌&&◌, ◌||◌, Option,
  none, some, List, [], ◌∷◌, arith, ◌==◌, nat_eq, pair_eq, ==_iff, ltb, leb, length, unwrap_or,
  Bool-cases, Option-cases,
}
use rustblockchain.Base.Dict.{
  lookup, HasUniqueKeys, insert-HasUniqueKeys, Entries, insert-Entries, lookup-insert,
  lookup-insert_self, length-insert_new,
}
use rustblockchain.Base.Text.{Text}
use rustblockchain.Base.Result.{ok, is_ok, Result-cases}
use rustblockchain.Crypto.Hash.{Primitives}
use rustblockchain.Core.Transaction
use rustblockchain.Core.Transaction.{Transaction, SignedTransaction}
use rustblockchain.Consensus.TxPool
use rustblockchain.Consensus.TxPool.{
  PooledTransaction, TransactionPool, elem, set_insert, set_remove, store, insert_transaction, get,
  contains,
}

-- The set that the index has for a sender.
abbrev pub sender_set : TransactionPool → ℕ → List (ℕ × ℕ)
sender_set p a = unwrap_or (lookup a p.by_sender) []

abbrev pub is_from : Option PooledTransaction → ℕ → ℕ → Bool
is_from none a n = false
is_from (some x) a n = x.tx.transaction.from == a && x.tx.transaction.nonce == n

-- The index lists exactly the pending transactions, each under its sender and nonce, and under the
-- hash it has; all of them pay the minimum gas price; and the pool is not over its size.
pub record IsValid (p : TransactionPool) : Type 0 where
  pub unique_pending : HasUniqueKeys p.pending
  pub unique_senders : HasUniqueKeys p.by_sender
  pub entries :
      Entries
        (λ h (x : PooledTransaction).
          (h ≡ x.tx.tx_hash) × (p.min_gas_price ≤ x.tx.transaction.gas_price))
        p.pending
  pub small : length p.pending ≤ p.max_size
  pub index : (a n h : ℕ) → elem (n, h) (sender_set p a) ≡ is_from (lookup h p.pending) a n

pub new-IsValid : (max_size min_gas_price : ℕ) → IsValid (TxPool.new max_size min_gas_price)
unfolding TxPool.new
new-IsValid max_size min_gas_price = record {
  unique_pending = tt;
  unique_senders = tt;
  entries = tt;
  small = omega arith;
  index = λ a n h. refl;
}

elem-set_insert : (x y : ℕ × ℕ) (s : List (ℕ × ℕ)) → elem x (set_insert y s) ≡ (y == x || elem x s)
elem-set_insert x y s = elim (Bool-cases (elem y s)) [
  | inr e ↦ rw e refl
  | inl e ↦ rw e (there s e)
]
  where
    there : (s : List (ℕ × ℕ)) → elem y s ≡ true → elem x s ≡ (y == x || elem x s)
    there [] h = cc
    there (z ∷ s) h = ground (arith, there s)

pub elem-set_remove :
    (x y : ℕ × ℕ) (s : List (ℕ × ℕ)) → elem x (set_remove y s) ≡ (not (y == x) && elem x s)
elem-set_remove x y [] = ground arith
elem-set_remove x y (z ∷ s) = ground (arith, elem-set_remove x y s)

abbrev pooled : SignedTransaction → ℕ → PooledTransaction
pooled tx now = record { tx = tx; added_at = now; gas_price = tx.transaction.gas_price }

get-store :
    (tx : SignedTransaction) (now : ℕ) (p : TransactionPool)
    → get (store tx now p) tx.tx_hash ≡ some tx
unfolding get
get-store tx now p = ground (arith, lookup-insert_self tx.tx_hash (pooled tx now) p.pending)

-- What the index has to say for a sender, a nonce and a hash.
abbrev pub Indexed : TransactionPool → ℕ → ℕ → ℕ → Type 0
Indexed p a n h = elem (n, h) (sender_set p a) ≡ is_from (lookup h p.pending) a n

abbrev own_set : SignedTransaction → TransactionPool → List (ℕ × ℕ)
own_set tx p = set_insert (tx.transaction.nonce, tx.tx_hash) (sender_set p tx.transaction.from)

store-Indexed :
    (tx : SignedTransaction) (now : ℕ) (p : TransactionPool) (a n h : ℕ)
    → lookup tx.tx_hash p.pending ≡ none
    → Indexed p tx.transaction.from n h
    → Indexed p a n h
    → Indexed (store tx now p) a n h
store-Indexed tx now p a n h fresh i j = ground (
  arith,
  lookup-insert a tx.transaction.from (own_set tx p) p.by_sender,
  lookup-insert h tx.tx_hash (pooled tx now) p.pending,
  elem-set_insert (n, h) (tx.transaction.nonce, tx.tx_hash) (sender_set p tx.transaction.from),
  ==_iff tx.transaction.from a,
)

store-IsValid :
    (tx : SignedTransaction) (now : ℕ) (p : TransactionPool)
    → lookup tx.tx_hash p.pending ≡ none
    → p.min_gas_price ≤ tx.transaction.gas_price
    → length p.pending < p.max_size
    → IsValid p
    → IsValid (store tx now p)
store-IsValid tx now p fresh pays room v = record {
  unique_pending = insert-HasUniqueKeys tx.tx_hash (pooled tx now) p.pending v.unique_pending;
  unique_senders = insert-HasUniqueKeys tx.transaction.from _ p.by_sender v.unique_senders;
  entries =
      insert-Entries
        (λ h (x : PooledTransaction).
          (h ≡ x.tx.tx_hash) × (p.min_gas_price ≤ x.tx.transaction.gas_price))
        tx.tx_hash _ p.pending (refl, pays) v.entries;
  small = ground (arith, length-insert_new tx.tx_hash (pooled tx now) p.pending);
  index =
      λ a n h. store-Indexed tx now p a n h fresh (v.index tx.transaction.from n h) (v.index a n h);
}

module _ (c : Primitives) (serialize : Transaction → Text) where
  -- The pool takes a transaction exactly when it verifies, pays the minimum gas price, finds the
  -- pool not full, and is not pending already; when refused, it leaves the pool as it is.
  pub insert_transaction_cases :
      (tx : SignedTransaction) (now : ℕ) (p : TransactionPool)
      → ((Transaction.verify c serialize tx ≡ ok tt)
          × (p.min_gas_price ≤ tx.transaction.gas_price)
          × (length p.pending < p.max_size)
          × (lookup tx.tx_hash p.pending ≡ none)
          × (insert_transaction c serialize tx now p ≡ (ok tt, store tx now p))
          × (get (insert_transaction c serialize tx now p).1 tx.tx_hash ≡ some tx))
        ⊎ ((is_ok (insert_transaction c serialize tx now p).0 ≡ false)
            × ((insert_transaction c serialize tx now p).1 ≡ p)
            × ((is_ok (Transaction.verify c serialize tx) ≡ false)
                ⊎ (tx.transaction.gas_price < p.min_gas_price)
                ⊎ (p.max_size ≤ length p.pending)
                ⊎ (contains p tx.tx_hash ≡ true)))
  unfolding insert_transaction get contains
  insert_transaction_cases tx now p = elim (Result-cases (Transaction.verify c serialize tx)) [
    | inr (x, bad) ↦ inr (ground arith)
    | inl (u, good) ↦ elim (Bool-cases (ltb tx.transaction.gas_price p.min_gas_price)) [
      | inl cheap ↦ inr (ground arith)
      | inr pays ↦ elim (Bool-cases (leb p.max_size (length p.pending))) [
        | inl full ↦ inr (ground arith)
        | inr room ↦ elim (Option-cases (lookup tx.tx_hash p.pending)) [
          | inr (x, known) ↦ inr (ground arith)
          | inl fresh ↦ inl (
              let taken : insert_transaction c serialize tx now p ≡ (ok tt, store tx now p) =
                ground arith in
              (
                good,
                ground arith,
                ground arith,
                fresh,
                taken,
                ap (λ r. get r.1 tx.tx_hash) taken ∙ get-store tx now p,
              ))
        ]
      ]
    ]
  ]

  -- Taking a transaction, or refusing one, keeps the pool and its index in agreement.
  pub insert_transaction-IsValid :
      (tx : SignedTransaction) (now : ℕ) (p : TransactionPool)
      → IsValid p
      → IsValid (insert_transaction c serialize tx now p).1
  insert_transaction-IsValid tx now p v = elim (insert_transaction_cases tx now p) [
    | inl (_, pays, room, fresh, taken, _) ↦
        subst (λ r. IsValid r.1) (sym taken) (store-IsValid tx now p fresh pays room v)
    | inr (_, same, _) ↦ subst IsValid (sym same) v
  ]
