-- ===== src/Vm/Context/Balances.antt =====
-- What a transfer in the context of crates/vm/src/context.rs moves, and what its journal reads back.
use mathlib.Core.Path.{subst}
use rustblockchain.Base.{
  ℕ, ◌+◌, ◌-◌, ◌≤◌, ◌<◌, ◌≡◌, ◌≢◌, ◌⊎◌, ap, sym, ◌∙◌, inl, inr, Option, none, some, arith,
  if◌then◌else◌, ◌==◌, nat_eq, pair_eq, ltb, unwrap_or, add128, sub128, Bool-cases,
}
use rustblockchain.Base.Dict.{Dict, lookup, insert, lookup-insert, lookup-insert_self}
use rustblockchain.Base.Text.{Text, text_eq, text_beq_iff}
use rustblockchain.Base.Result.{ok, err}
use rustblockchain.Core.Account.{Account}
use rustblockchain.Vm.Context.{
  ExecutionContext, storage_read, storage_write, storage_delete, get_balance, transfer,
  move_balance, base_balance, delta_of, i128_min, insufficient,
}

-- The journal reads back what was written or deleted last, and leaves every other key as it was.
pub storage_read-write :
    (addr other : ℕ) (key k value : Text) (c : ExecutionContext)
    → (storage_read addr key (storage_write addr key value c) ≡ ok (some value))
      × (storage_read addr key (storage_delete addr key c) ≡ ok none)
      × (((other ≡ addr) × (k ≡ key))
          ⊎ ((storage_read other k (storage_write addr key value c) ≡ storage_read other k c)
              × (storage_read other k (storage_delete addr key c) ≡ storage_read other k c)))
unfolding storage_read storage_write storage_delete
storage_read-write addr other key k value c = ground (
  arith,
  lookup-insert_self (addr, key) (some value) c.storage_changes,
  lookup-insert_self (addr, key) none c.storage_changes,
  lookup-insert (other, k) (addr, key) (some value) c.storage_changes,
  lookup-insert (other, k) (addr, key) none c.storage_changes,
  text_beq_iff key k,
)

-- An account that the context has at a balance of zero or more, in the range of an i128.
abbrev pub Holds : ExecutionContext → ℕ → ℕ → Type 0
Holds c addr n =
    (a : Option Account) × (c.state_reader.get_account addr ≡ ok a)
    × (add128 (base_balance a) (delta_of c addr) ≡ n)
    × (n < i128_min)

abbrev paid : ℕ → ℕ → ExecutionContext → Dict ℕ ℕ
paid from amount c = insert from (sub128 (delta_of c from) amount) c.balance_changes

delta-move :
    (from to amount a : ℕ) (c : ExecutionContext)
    → from ≢ to
    → delta_of (move_balance from to amount c) a ≡ (
        if to == a
        then add128 (delta_of c to) amount
        else if from == a
        then sub128 (delta_of c from) amount
        else delta_of c a)
delta-move from to amount a c ne = ground (
  arith,
  lookup-insert a to (add128 (unwrap_or (lookup to (paid from amount c)) 0) amount)
      (paid from amount c),
  lookup-insert a from (sub128 (delta_of c from) amount) c.balance_changes,
  lookup-insert to from (sub128 (delta_of c from) amount) c.balance_changes,
)

get_balance-Holds : (c : ExecutionContext) (addr n : ℕ) → Holds c addr n → get_balance addr c ≡ ok n
unfolding get_balance
get_balance-Holds c addr n (a, e, s, b) = ground (arith, e, s, b)

-- The balances after the deltas have moved.
module _ (from to amount : ℕ) (c : ExecutionContext) (ne : from ≢ to) where
  from-move :
      (n : ℕ)
      → Holds c from n
      → amount ≤ n
      → get_balance from (move_balance from to amount c) ≡ ok (n - amount)
  from-move n (a, e, s, b) h =
      get_balance-Holds (move_balance from to amount c) from (n - amount)
        (a, e, ground (arith, delta-move from to amount from c ne), omega arith)

  to-move :
      (m : ℕ)
      → Holds c to m
      → m + amount < i128_min
      → get_balance to (move_balance from to amount c) ≡ ok (m + amount)
  to-move m (a, e, s, b) h =
      get_balance-Holds (move_balance from to amount c) to (m + amount)
        (a, e, ground (arith, delta-move from to amount to c ne), omega arith)

  other-move :
      (other : ℕ)
      → (other ≡ from)
        ⊎ (other ≡ to)
        ⊎ (get_balance other (move_balance from to amount c) ≡ get_balance other c)
  unfolding get_balance
  other-move other = ground (arith, delta-move from to amount other c ne)

-- A transfer between two accounts that the context holds fails, and changes nothing, exactly when the
-- balance is below the amount; otherwise it moves the amount, and every other account holds what it
-- held. Stated where the new balance of the recipient is in the range of an i128.
pub transfer_lem :
    (from to amount n m other : ℕ) (c : ExecutionContext)
    → from ≢ to
    → Holds c from n
    → Holds c to m
    → m + amount < i128_min
    → let r = transfer from to amount c in
      ((n < amount) × (r ≡ (err (insufficient n amount), c)))
      ⊎ ((amount ≤ n)
          × (r.0 ≡ ok tt)
          × (get_balance from r.1 ≡ ok (n - amount))
          × (get_balance to r.1 ≡ ok (m + amount))
          × ((other ≡ from) ⊎ (other ≡ to) ⊎ (get_balance other r.1 ≡ get_balance other c)))
unfolding transfer
transfer_lem from to amount n m other c ne f t small =
    let e = get_balance-Holds c from n f in
    elim (Bool-cases (ltb n amount)) [
      | inl short ↦ inl (ground arith)
      | inr enough ↦
          let h : amount ≤ n = ground arith in
          let moved : transfer from to amount c ≡ (ok tt, move_balance from to amount c) =
            ground arith in
          inr (
            h,
            ap (λ r. r.0) moved,
            ap (λ r. get_balance from r.1) moved ∙ from-move from to amount c ne n f h,
            ap (λ r. get_balance to r.1) moved ∙ to-move from to amount c ne m t small,
            subst
                (λ r. (other ≡ from) ⊎ (other ≡ to) ⊎ (get_balance other r.1 ≡ get_balance other c))
                (sym moved) (other-move from to amount c ne other),
          )
    ]
