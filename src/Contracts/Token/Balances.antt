-- ===== src/Contracts/Token/Balances.antt =====
-- What a transfer of contracts/token/src/lib.rs moves.
use rustblockchain.Base.{
  ℕ, ◌+◌, ◌^◌, ◌≤◌, ◌<◌, ◌≡◌, ◌≢◌, ◌⊎◌, ◌↔◌, refl, ap, sym, ◌∙◌, arith, nat_eq, length, take, drop,
  add64, sub64,
}
use rustblockchain.Base.Text.{Text, text}
use rustblockchain.Base.Bytes.{from_le}
use rustblockchain.Base.Result.{ok, err}
use rustblockchain.Contracts.Sdk.{MockEnv, emit_event, returned, minus_one}
use rustblockchain.Contracts.Sdk.Words.{
  read_u64, write_u64, read_u64-write_u64, read_u64-write_u64_ne,
}
use rustblockchain.Contracts.Token.{balance_key, transfer_tokens}

abbrev pub balance : Text → MockEnv → ℕ
balance addr s = read_u64 (balance_key addr) s

balance_key_ne : (a b : Text) → a ≢ b → balance_key a ≢ balance_key b
unfolding balance_key
balance_key_ne a b h e = h (ap (drop 8) e)

event-balance : (a event : Text) (s : MockEnv) → balance a (emit_event event s) ≡ balance a s
unfolding read_u64
event-balance a event s = refl

abbrev pub amount_of : Text → ℕ
amount_of args = from_le (take 8 (drop 20 args))

abbrev debited : Text → MockEnv → MockEnv
debited args s = write_u64 (balance_key s.caller) (sub64 (balance s.caller s) (amount_of args)) s

abbrev credited : Text → MockEnv → MockEnv
credited args s =
    write_u64 (balance_key (take 20 args))
      (add64 (balance (take 20 args) (debited args s)) (amount_of args)) (debited args s)

-- A transfer takes place exactly if the arguments are long enough and the caller has the amount;
-- otherwise it returns -1 and writes nothing.
pub transfer_tokens_iff :
    (args : Text) (s : MockEnv)
    → let r = transfer_tokens args s in
      ((r.0 ≡ ok 0) ↔ ((28 ≤ length args) × (amount_of args ≤ balance s.caller s)))
      × ((r.0 ≡ ok 0) ⊎ ((r.0 ≡ err (returned minus_one)) × (r.1.storage ≡ s.storage)))
unfolding transfer_tokens
transfer_tokens_iff args s = ground arith

transfer_tokens-credited :
    (args : Text) (s : MockEnv)
    → 28 ≤ length args
    → amount_of args ≤ balance s.caller s
    → transfer_tokens args s ≡ (ok 0, emit_event (text "Transfer") (credited args s))
unfolding transfer_tokens
transfer_tokens-credited args s long enough = ground arith

-- A transfer to another account takes the amount from the caller, gives it to the recipient, and changes
-- no other balance. Stated where the balances fit into a u64.
pub transfer_tokens_lem :
    (args other : Text) (s : MockEnv)
    → 28 ≤ length args
    → amount_of args ≤ balance s.caller s
    → balance s.caller s < 2 ^ 64
    → balance (take 20 args) s + amount_of args < 2 ^ 64
    → s.caller ≢ take 20 args
    → other ≢ s.caller
    → other ≢ take 20 args
    → let s' = (transfer_tokens args s).1 in
      (balance s.caller s' + amount_of args ≡ balance s.caller s)
      × (balance (take 20 args) s' ≡ balance (take 20 args) s + amount_of args)
      × (balance other s' ≡ balance other s)
transfer_tokens_lem args other s long enough small fits apart ne ne' =
    let to = take 20 args in
    let from = s.caller in
    let amount = amount_of args in
    let at : (a : Text) → balance a (transfer_tokens args s).1 ≡ balance a (credited args s) = λ a.
      ap (λ r. balance a r.1) (transfer_tokens-credited args s long enough)
      ∙ event-balance a (text "Transfer") (credited args s) in
    let kept : (a : Text) → a ≢ to → balance a (credited args s) ≡ balance a (debited args s) =
      λ a h.
        read_u64-write_u64_ne (balance_key a) (balance_key to)
          (add64 (balance to (debited args s)) amount) (debited args s)
          (balance_key_ne to a (λ e. h (sym e))) in
    let left : (a : Text) → a ≢ from → balance a (debited args s) ≡ balance a s = λ a h.
      read_u64-write_u64_ne (balance_key a) (balance_key from) (sub64 (balance from s) amount) s
        (balance_key_ne from a (λ e. h (sym e))) in
    let paid =
      read_u64-write_u64 (balance_key from) (sub64 (balance from s) amount) s (omega arith) in
    let got =
      read_u64-write_u64 (balance_key to) (add64 (balance to (debited args s)) amount)
        (debited args s) (omega arith) in
    (
      omega (arith, at from, kept from apart, paid, small, enough),
      omega (arith, at to, got, left to (λ e. apart (sym e)), fits),
      at other ∙ kept other ne' ∙ left other ne,
    )

-- A transfer to oneself changes no balance of one's own.
pub transfer_tokens_self :
    (args : Text) (s : MockEnv)
    → 28 ≤ length args
    → amount_of args ≤ balance s.caller s
    → balance s.caller s < 2 ^ 64
    → s.caller ≡ take 20 args
    → balance s.caller (transfer_tokens args s).1 ≡ balance s.caller s
transfer_tokens_self args s long enough small same =
    let to = take 20 args in
    let from = s.caller in
    let amount = amount_of args in
    let at : balance from (transfer_tokens args s).1 ≡ balance from (credited args s) =
      ap (λ r. balance from r.1) (transfer_tokens-credited args s long enough)
      ∙ event-balance from (text "Transfer") (credited args s) in
    let paid =
      read_u64-write_u64 (balance_key from) (sub64 (balance from s) amount) s (omega arith) in
    let got =
      read_u64-write_u64 (balance_key to) (add64 (balance to (debited args s)) amount)
        (debited args s) (omega arith) in
    omega (
      arith,
      at,
      ap (λ a. balance a (credited args s)) same,
      got,
      ap (λ a. balance a (debited args s)) same,
      paid,
      small,
      enough,
    )
