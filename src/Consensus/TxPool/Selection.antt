-- ===== src/Consensus/TxPool/Selection.antt =====
-- What crates/consensus/src/tx_pool.rs selects for a block.
use rustblockchain.Base.{
  ℕ, ◌+◌, ◌≤◌, ◌<◌, ◌≡◌, ◌≢◌, inl, inr, some, List, [], ◌∷◌, ◌++◌, map, arith, nat_eq, length,
  sum_by, u64_mod, Option-cases, length-append,
}
use rustblockchain.Base.Dict.{lookup, Entries, lookup-Entries}
use rustblockchain.Base.Sorting.{sort_by}
use rustblockchain.Core.Transaction.{SignedTransaction}
use rustblockchain.Consensus.TxPool.{
  PooledTransaction, TransactionPool, Candidate, candidate, comes_first, select_step, select_from,
  select_transactions,
}

abbrev pub gas_of : List SignedTransaction → ℕ
gas_of ss = sum_by (λ (s : SignedTransaction). s.transaction.gas_limit) ss

gas_of-append :
    (xs : List SignedTransaction) (s : SignedTransaction)
    → gas_of (xs ++ s ∷ []) ≡ gas_of xs + s.transaction.gas_limit
gas_of-append [] s = omega arith
gas_of-append (x ∷ xs) s = omega (arith, gas_of-append xs s)

module _ (p : TransactionPool) (gas_limit max_count : ℕ) where
  -- The selection's gas is counted right, and stays within both limits.
  abbrev Within : List SignedTransaction × ℕ → Type 0
  Within (selected, total) =
      (gas_of selected ≡ total) × (total ≤ gas_limit) × (length selected ≤ max_count)

  -- No pending transaction's gas can overflow the sum.
  abbrev pub NoOverflow : Type 0
  NoOverflow =
      Entries (λ h (x : PooledTransaction). gas_limit + x.tx.transaction.gas_limit < u64_mod)
        p.pending

  step-Within :
      (acc : List SignedTransaction × ℕ) (x : Candidate)
      → NoOverflow
      → Within acc
      → Within (select_step p gas_limit max_count acc x)
  step-Within (selected, total) (price, nonce, h) fits w =
      elim (Option-cases (lookup h p.pending)) [
        | inl e ↦ ground arith
        | inr (x, e) ↦ ground (
          arith,
          lookup-Entries
              (λ h (x : PooledTransaction). gas_limit + x.tx.transaction.gas_limit < u64_mod) h x
              p.pending fits e,
          gas_of-append selected x.tx,
          length-append selected (x.tx ∷ []),
        )
      ]

  from-Within :
      (acc : List SignedTransaction × ℕ) (xs : List Candidate)
      → NoOverflow
      → Within acc
      → Within (select_from p gas_limit max_count acc xs)
  from-Within acc [] fits w = w
  from-Within acc (x ∷ xs) fits w =
      from-Within (select_step p gas_limit max_count acc x) xs fits (step-Within acc x fits w)

  -- A selection holds at most the maximal number of transactions, and their gas limits together stay
  -- within the block's gas limit. Stated where the block's gas limit with any one pending
  -- transaction's gas limit added fits into a u64.
  pub select_transactions-le :
      NoOverflow
      → (gas_of (select_transactions p gas_limit max_count) ≤ gas_limit)
        × (length (select_transactions p gas_limit max_count) ≤ max_count)
  unfolding select_transactions
  select_transactions-le fits =
      let w =
        from-Within ([], 0) (sort_by comes_first (map candidate p.pending)) fits
          (omega arith, omega arith, omega arith) in
      ground (arith, w)

-- From a pool of exactly two transactions a selection with room for two takes both, though their gas
-- limits together are more than the block's, where their sum wraps: the first pays the higher gas price
-- and fits the block alone, the block's limit is a u64, and the gas limits add up to at least 2 ^ 64 and at
-- most the block's limit more.
pub select_transactions_overflow :
    (p : TransactionPool) (h k gas_limit max_count : ℕ) (x y : PooledTransaction)
    → p.pending ≡ (h, x) ∷ (k, y) ∷ []
    → h ≢ k
    → y.gas_price < x.gas_price
    → x.tx.transaction.gas_limit ≤ gas_limit
    → gas_limit < u64_mod
    → 2 ≤ max_count
    → u64_mod ≤ x.tx.transaction.gas_limit + y.tx.transaction.gas_limit
    → x.tx.transaction.gas_limit + y.tx.transaction.gas_limit ≤ u64_mod + gas_limit
    → (select_transactions p gas_limit max_count ≡ x.tx ∷ y.tx ∷ [])
      × (gas_limit < gas_of (select_transactions p gas_limit max_count))
unfolding select_transactions sort_by
select_transactions_overflow p h k gas_limit max_count x y e ne price small block room over within =
    (both, ground (arith, both))
  where
    sorted :
        sort_by comes_first (map candidate p.pending) ≡ candidate (h, x) ∷ candidate (k, y) ∷ []
    sorted = rw e (ground arith)

    found : (lookup h p.pending ≡ some x) × (lookup k p.pending ≡ some y)
    found = rw e (ground arith)

    both :
        (select_from p gas_limit max_count
          ([], 0)
          (sort_by comes_first (map candidate p.pending))).0
        ≡ x.tx ∷ y.tx ∷ []
    both = rw sorted (ground (arith, found))
