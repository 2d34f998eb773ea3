-- ===== src/Consensus/TxPool.antt =====
-- crates/consensus/src/tx_pool.rs: the pool of pending transactions. The set of a sender's nonces
-- and hashes, whose order nothing reads, is a list; the clock is an argument in milliseconds.
pub mod Selection
pub mod Index
pub mod Removal
mod Tests
use rustblockchain.Base.{
  ℕ, zero, suc, ◌+◌, ◌-◌, Bool, true, false, not, ◌&&◌, ◌||◌, Option, none, some, List, [], ◌∷◌,
  ◌++◌, map, if◌then◌else◌, Eq, ◌==◌, nat_eq, pair_eq, ltb, leb, length, filter, any, add64,
  unwrap_or, is_some,
}
use rustblockchain.Base.Dict.{Dict, lookup, insert, remove, contains_key, update_or}
use rustblockchain.Base.Sorting.{sort_by}
use rustblockchain.Base.Text.{Text}
use rustblockchain.Base.Result.{Result, ok, err}
use rustblockchain.Base.Action.{Action, pure, gets, raise_if, modify, from_result, ◌>>=◌, ◌>>◌}
use rustblockchain.Crypto.Hash.{Primitives}
use rustblockchain.Core.Error.{CoreError}
use rustblockchain.Core.Transaction
use rustblockchain.Core.Transaction.{Transaction, SignedTransaction}

pub record PooledTransaction : Type 0 where
  pub tx : SignedTransaction
  pub added_at : ℕ
  pub gas_price : ℕ

pub record TransactionPool : Type 0 where
  pub pending : Dict ℕ PooledTransaction
  pub by_sender : Dict ℕ (List (ℕ × ℕ))
  pub max_size : ℕ
  pub min_gas_price : ℕ

-- What a TransactionPool error says.
pub data PoolError : Type 0 where
  bad_transaction : CoreError → PoolError
  gas_price_below : (price minimum : ℕ) → PoolError
  pool_full duplicate : PoolError

unfoldable pub new : ℕ → ℕ → TransactionPool
new max_size min_gas_price = record {
  pending = [];
  by_sender = [];
  max_size = max_size;
  min_gas_price = min_gas_price;
}

abbrev pub elem : ℕ × ℕ → List (ℕ × ℕ) → Bool
elem x s = any (λ y. y == x) s

abbrev pub set_insert : ℕ × ℕ → List (ℕ × ℕ) → List (ℕ × ℕ)
set_insert x s = if elem x s then s else x ∷ s

abbrev pub set_remove : ℕ × ℕ → List (ℕ × ℕ) → List (ℕ × ℕ)
set_remove x s = filter (λ y. not (y == x)) s

abbrev pub Pool : Type 0 → Type 0
Pool = Action PoolError TransactionPool

abbrev pub store : SignedTransaction → ℕ → TransactionPool → TransactionPool
store tx now p = record p {
  pending =
      insert tx.tx_hash (record { tx = tx; added_at = now; gas_price = tx.transaction.gas_price })
        p.pending;
  by_sender =
      update_or tx.transaction.from [] (set_insert (tx.transaction.nonce, tx.tx_hash)) p.by_sender;
}

abbrev pub bad_transactions : Result CoreError (Unit {0}) → Result PoolError (Unit {0})
bad_transactions (ok u) = ok u
bad_transactions (err e) = err (bad_transaction e)

unfoldable pub insert_transaction :
    Primitives → (Transaction → Text) → SignedTransaction → ℕ → Pool (Unit {0})
insert_transaction c serialize tx now = do
  from_result (bad_transactions (Transaction.verify c serialize tx))
  minimum ← gets (λ p. p.min_gas_price)
  raise_if (ltb tx.transaction.gas_price minimum) (gas_price_below tx.transaction.gas_price minimum)
  full ← gets (λ p. leb p.max_size (length p.pending))
  raise_if full pool_full
  known ← gets (λ p. contains_key tx.tx_hash p.pending)
  raise_if known duplicate
  modify (store tx now)

-- The sender's set without the transaction; an empty set is dropped.
abbrev pub unindex : SignedTransaction → ℕ → Dict ℕ (List (ℕ × ℕ)) → Dict ℕ (List (ℕ × ℕ))
unindex tx h index = elim (lookup tx.transaction.from index) [
  | none ↦ index
  | some set ↦
      let rest = set_remove (tx.transaction.nonce, h) set in
      if length rest == 0
      then remove tx.transaction.from index
      else insert tx.transaction.from rest index
]

unfoldable pub remove_transaction : ℕ → TransactionPool → Option SignedTransaction × TransactionPool
remove_transaction h p = elim (lookup h p.pending) [
  | none ↦ (none, p)
  | some pooled ↦ (
    some pooled.tx,
    record p { pending = remove h p.pending; by_sender = unindex pooled.tx h p.by_sender },
  )
]

unfoldable pub get : TransactionPool → ℕ → Option SignedTransaction
get p h = elim (lookup h p.pending) [ none ↦ none | some pooled ↦ some pooled.tx ]

unfoldable pub pending_count : TransactionPool → ℕ
pending_count p = length p.pending

unfoldable pub contains : TransactionPool → ℕ → Bool
contains p h = contains_key h p.pending

abbrev pub Candidate : Type 0
Candidate = ℕ × ℕ × ℕ

abbrev pub candidate : ℕ × PooledTransaction → Candidate
candidate x = (x.1.gas_price, x.1.tx.transaction.nonce, x.0)

-- By gas price, highest first, then by nonce, lowest first.
abbrev pub comes_first : Candidate → Candidate → Bool
comes_first a b = ltb b.0 a.0 || (a.0 == b.0 && leb a.1 b.1)

-- One round of the loop over the candidates; the selection and its gas. A selection of `max_count`
-- stays as it is: the loop has ended.
abbrev pub select_step :
    TransactionPool → ℕ → ℕ → List SignedTransaction × ℕ → Candidate → List SignedTransaction × ℕ
select_step p gas_limit max_count (selected, total_gas) (price, nonce, h) =
    if leb max_count (length selected) then (selected, total_gas) else elim (lookup h p.pending) [
      | none ↦ (selected, total_gas)
      | some pooled ↦
          let total = add64 total_gas pooled.tx.transaction.gas_limit in
          if ltb gas_limit total then (selected, total_gas) else (selected ++ pooled.tx ∷ [], total)
    ]

abbrev pub select_from :
    TransactionPool
    → ℕ
    → ℕ
    → List SignedTransaction × ℕ
    → List Candidate
    → List SignedTransaction × ℕ
select_from p gas_limit max_count acc [] = acc
select_from p gas_limit max_count acc (x ∷ xs) =
    select_from p gas_limit max_count (select_step p gas_limit max_count acc x) xs

unfoldable pub select_transactions : TransactionPool → ℕ → ℕ → List SignedTransaction
select_transactions p gas_limit max_count =
    (select_from p gas_limit max_count ([], 0) (sort_by comes_first (map candidate p.pending))).0

unfoldable pub prune_committed : List ℕ → TransactionPool → TransactionPool
prune_committed [] p = p
prune_committed (h ∷ hs) p = prune_committed hs (remove_transaction h p).1

unfoldable pub prune_expired : (max_age now : ℕ) → TransactionPool → TransactionPool
prune_expired max_age now p =
    prune_committed
      (map (λ x. x.0)
        (filter (λ (x : ℕ × PooledTransaction). ltb max_age (now - x.1.added_at)) p.pending))
      p

unfoldable pub pending_hashes : TransactionPool → List ℕ
pending_hashes p = map (λ x. x.0) p.pending
