-- ===== src/Consensus/TxPool/Tests.antt =====
-- Tests of the transaction pool and the instances of its theorems.
use rustblockchain.Base.{
  ℕ, ◌-◌, ◌≤◌, ◌<◌, ◌≡◌, ◌⊎◌, refl, true, false, none, some, [], ◌∷◌, arith, length, u64_mod,
  nat_eq,
}
use rustblockchain.Base.Text.{Text}
use rustblockchain.Base.Dict.{lookup}
use rustblockchain.Base.Sorting.{sort_by}
use rustblockchain.Base.Result.{ok, is_ok}
use rustblockchain.Crypto.Hash.{Primitives}
use rustblockchain.Core.Transaction
use rustblockchain.Core.Transaction.{Transaction, SignedTransaction, transfer}
use rustblockchain.Consensus.TxPool.{
  PooledTransaction, TransactionPool, store, insert_transaction, remove_transaction, get, contains,
  select_transactions,
}
use rustblockchain.Consensus.TxPool
use rustblockchain.Consensus.TxPool.Index.{
  IsValid, insert_transaction_cases, insert_transaction-IsValid,
}
use rustblockchain.Consensus.TxPool.Selection.{gas_of, select_transactions_overflow}

abbrev primitives : Primitives
primitives = record { blake3 = length; ed25519 = λ key message signature. true }

abbrev serialize : Transaction → Text
serialize t = t.nonce ∷ []

abbrev signed : ℕ → ℕ → ℕ → SignedTransaction
signed hash price gas = record {
  transaction = record {
    chain_id = 1;
    nonce = hash;
    from = 32;
    to = some 5;
    value = 10;
    tx_type = transfer;
    gas_limit = gas;
    gas_price = price;
    data_bytes = [];
    timestamp = 0;
  };
  public_key = 11;
  signature = 0;
  tx_hash = hash;
}

abbrev pool : TransactionPool
pool = store (signed 2 5 30000) 0 (store (signed 1 3 21000) 0 (TxPool.new 10 2))

empty-IsValid : IsValid (TxPool.new 10 2)
unfolding TxPool.new
empty-IsValid = record {
  unique_pending = tt;
  unique_senders = tt;
  entries = tt;
  small = omega arith;
  index = λ a n h. refl;
}

-- The better paid transaction comes first, and a limit leaves the other out.
select_test : select_transactions pool 40000 5 ≡ signed 2 5 30000 ∷ []
unfolding select_transactions sort_by TxPool.new
select_test = refl

insert_transaction_cases_example :
    let tx = signed 1 3 21000 in
    let p = TxPool.new 10 2 in
    let r = insert_transaction primitives serialize tx 0 p in
    ((Transaction.verify primitives serialize tx ≡ ok tt)
      × (p.min_gas_price ≤ 3)
      × (length p.pending < p.max_size)
      × (lookup 1 p.pending ≡ none)
      × (r ≡ (ok tt, store tx 0 p))
      × (get r.1 1 ≡ some tx))
    ⊎ ((is_ok r.0 ≡ false)
        × (r.1 ≡ p)
        × ((is_ok (Transaction.verify primitives serialize tx) ≡ false)
            ⊎ (3 < p.min_gas_price)
            ⊎ (p.max_size ≤ length p.pending)
            ⊎ (contains p 1 ≡ true)))
insert_transaction_cases_example =
    insert_transaction_cases primitives serialize (signed 1 3 21000) 0 (TxPool.new 10 2)

abbrev filled : TransactionPool
filled = (insert_transaction primitives serialize (signed 1 3 21000) 0 (TxPool.new 10 2)).1

filled-IsValid : IsValid filled
filled-IsValid =
    insert_transaction-IsValid primitives serialize (signed 1 3 21000) 0 (TxPool.new 10 2)
      empty-IsValid

abbrev cheap_pooled : PooledTransaction
cheap_pooled = record { tx = signed 1 3 (u64_mod - 10); added_at = 0; gas_price = 3 }

abbrev dear_pooled : PooledTransaction
dear_pooled = record { tx = signed 2 5 20000; added_at = 0; gas_price = 5 }

abbrev overflowing : TransactionPool
overflowing = record {
  pending = (2, dear_pooled) ∷ (1, cheap_pooled) ∷ [];
  by_sender = [];
  max_size = 10;
  min_gas_price = 1;
}

select_transactions_overflow_example :
    (select_transactions overflowing 30000 2 ≡ signed 2 5 20000 ∷ signed 1 3 (u64_mod - 10) ∷ [])
    × (30000 < gas_of (select_transactions overflowing 30000 2))
select_transactions_overflow_example =
    select_transactions_overflow overflowing 2 1 30000 2 dear_pooled cheap_pooled refl (omega arith)
      (omega arith) (omega arith) (omega arith) (omega arith) (omega arith) (omega arith)
