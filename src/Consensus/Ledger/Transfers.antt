-- ===== src/Consensus/Ledger/Transfers.antt =====
-- What a transfer of crates/consensus/src/state.rs moves.
use Prim.Native.Nat.{min}
use rustblockchain.Base.{
  ℕ, ◌+◌, ◌-◌, ◌*◌, ◌≤◌, ◌<◌, ◌≡◌, ◌≢◌, ◌⊎◌, ap, ◌∙◌, arith, if◌then◌else◌, ◌==◌, nat_eq, unwrap_or,
  u64_mod, u128_mod,
}
use rustblockchain.Base.Dict.{lookup-insert}
use rustblockchain.Base.Result.{ok}
use rustblockchain.Core.Account.{Account}
use rustblockchain.Core.Transaction.{Transaction, SignedTransaction, max_gas_cost, total_cost}
use rustblockchain.Consensus.Ledger.{
  Ledger, base_gas, load, put, prepare, gas_refund, apply_transfer, credit, debit, succeeded,
}

-- What a transaction without a contract pays for gas.
abbrev pub fee : Transaction → ℕ
fee t = min t.gas_limit base_gas * t.gas_price

-- A transaction with its sender's nonce, whose amount and full gas cost the sender can pay. The gas
-- cost fits into a u64, beyond which the refund of the code wraps, the sender's balance into a u128, and
-- the next nonce into a u64.
pub record IsPayable (l : Ledger) (t : Transaction) : Type 0 where
  pub right_nonce : t.nonce ≡ (load l t.from).nonce
  pub small_gas : t.gas_limit * t.gas_price < u64_mod
  pub enough : t.value + t.gas_limit * t.gas_price ≤ (load l t.from).balance
  pub small_balance : (load l t.from).balance < u128_mod
  pub small_nonce : t.nonce + 1 < u64_mod

pub prepare-ok :
    (l : Ledger) (s : SignedTransaction)
    → IsPayable l s.transaction
    → prepare l s
      ≡ ok (record (load l s.transaction.from) {
        balance =
            (load l s.transaction.from).balance - s.transaction.gas_limit * s.transaction.gas_price;
        nonce = s.transaction.nonce + 1;
      })
unfolding prepare max_gas_cost total_cost
prepare-ok l s h =
    ground (arith, h.right_nonce, h.small_gas, h.enough, h.small_balance, h.small_nonce)

cut_product : (a b p : ℕ) → (a - b) * p + min a b * p ≡ a * p
cut_product a b p = grind arith

pub gas_refund-fee :
    (t : Transaction)
    → t.gas_limit * t.gas_price < u64_mod
    → gas_refund t + fee t ≡ t.gas_limit * t.gas_price
unfolding gas_refund
gas_refund-fee t h = ground (arith, cut_product t.gas_limit base_gas t.gas_price)

pub load-put :
    (a b : ℕ) (x : Account) (l : Ledger) → load (put a x l) b ≡ (if a == b then x else load l b)
unfolding load
load-put a b x l = ground (arith, lookup-insert b a x l.modified)

pub load-put_self : (a : ℕ) (x : Account) (l : Ledger) → load (put a x l) a ≡ x
load-put_self a x l = ground (arith, load-put a a x l)

abbrev pub recipient : Transaction → ℕ
recipient t = unwrap_or t.to 0

apply_transfer-ok :
    (s : SignedTransaction) (l : Ledger) (sender : Account)
    → prepare l s ≡ ok sender
    → let t = s.transaction in
      apply_transfer s l ≡ (
        succeeded,
        put t.from
            (credit (gas_refund t) (debit t.value sender))
            (put (recipient t) (credit t.value (load l (recipient t))) l),
      )
unfolding apply_transfer
apply_transfer-ok s l sender h = ground arith

-- The sender's account once the gas is paid for.
abbrev pub charged : Ledger → Transaction → Account
charged l t = record (load l t.from) {
  balance = (load l t.from).balance - t.gas_limit * t.gas_price;
  nonce = t.nonce + 1;
}

pub debited-balance :
    (l : Ledger) (t : Transaction)
    → IsPayable l t
    → (credit (gas_refund t) (debit t.value (charged l t))).balance + t.value + fee t
      ≡ (load l t.from).balance
debited-balance l t h =
    omega (arith, gas_refund-fee t h.small_gas, h.enough, h.small_balance, h.small_gas)

-- A transfer to another account with the sender's nonce, whose amount and full gas cost the sender can
-- pay, succeeds: the sender pays the value and the fee and its nonce goes up by one, the recipient gets
-- the value, and no other account changes. Stated where the product of gas limit and gas price fits into
-- a u64, the sender's balance and the recipient's new balance into a u128, and the next nonce into a u64.
pub apply_transfer_lem :
    (s : SignedTransaction) (l : Ledger) (other : ℕ)
    → IsPayable l s.transaction
    → s.transaction.from ≢ recipient s.transaction
    → (load l (recipient s.transaction)).balance + s.transaction.value < u128_mod
    → let t = s.transaction in
      let l' = (apply_transfer s l).1 in
      ((apply_transfer s l).0 ≡ succeeded)
      × ((load l' t.from).balance + t.value + fee t ≡ (load l t.from).balance)
      × ((load l' t.from).nonce ≡ (load l t.from).nonce + 1)
      × ((load l' (recipient t)).balance ≡ (load l (recipient t)).balance + t.value)
      × ((other ≡ t.from) ⊎ (other ≡ recipient t) ⊎ (load l' other ≡ load l other))
apply_transfer_lem s l other h ne small =
    let t = s.transaction in
    let sender = credit (gas_refund t) (debit t.value (charged l t)) in
    let paid = put (recipient t) (credit t.value (load l (recipient t))) l in
    let done = apply_transfer-ok s l (charged l t) (prepare-ok l s h) in
    let at : (a : ℕ) → load (apply_transfer s l).1 a ≡ load (put t.from sender paid) a =
      λ a. ap (λ r. load r.1 a) done in
    let own : load (apply_transfer s l).1 t.from ≡ sender =
      at t.from ∙ load-put_self t.from sender paid in
    let got : load (apply_transfer s l).1 (recipient t) ≡ credit t.value (load l (recipient t)) =
      at (recipient t)
      ∙ ground (
        arith,
        load-put t.from (recipient t) sender paid,
        load-put_self (recipient t) (credit t.value (load l (recipient t))) l,
      ) in
    (
      ap (λ r. r.0) done,
      omega (arith, ap (λ a. a.balance) own, debited-balance l t h),
      ap (λ a. a.nonce) own ∙ ap (λ n. n + 1) h.right_nonce,
      ap (λ a. a.balance) got ∙ omega arith,
      ground (
        arith,
        at other,
        load-put t.from other sender paid,
        load-put (recipient t) other (credit t.value (load l (recipient t))) l,
      ),
    )

-- A transfer to oneself with the sender's nonce, whose amount and full gas cost the sender can pay,
-- succeeds and loses the value: the sender pays it and the fee, and gets nothing, since the account
-- written last is the one from before the credit. Stated where the product of gas limit and gas price
-- fits into a u64, the sender's balance into a u128, and the next nonce into a u64.
pub apply_transfer_self :
    (s : SignedTransaction) (l : Ledger)
    → IsPayable l s.transaction
    → s.transaction.from ≡ recipient s.transaction
    → let t = s.transaction in
      ((apply_transfer s l).0 ≡ succeeded)
      × ((load (apply_transfer s l).1 t.from).balance + t.value + fee t ≡ (load l t.from).balance)
apply_transfer_self s l h same =
    let t = s.transaction in
    let sender = credit (gas_refund t) (debit t.value (charged l t)) in
    let paid = put (recipient t) (credit t.value (load l (recipient t))) l in
    let done = apply_transfer-ok s l (charged l t) (prepare-ok l s h) in
    let own : load (apply_transfer s l).1 t.from ≡ sender =
      ap (λ r. load r.1 t.from) done ∙ load-put_self t.from sender paid in
    (ap (λ r. r.0) done, omega (arith, ap (λ a. a.balance) own, debited-balance l t h))
