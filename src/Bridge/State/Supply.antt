-- ===== src/Bridge/State/Supply.antt =====
-- The ledgers of crates/bridge/src/state.rs: the amounts locked and the wrapped tokens minted
-- follow from the transfer records.
use rustblockchain.Base.{
  ℕ, ◌+◌, ◌-◌, ◌%◌, ◌<◌, ◌≡◌, refl, inl, inr, none, some, List, [], ◌∷◌, ◌++◌, if◌then◌else◌, ◌==◌,
  arith, Option-cases, u64_mod, u128_mod, add128, length,
}
use rustblockchain.Base.Dict.{
  lookup, lookup-update_or, sum_values, sum_values-insert, sum_values-insert_new,
}
use rustblockchain.Base.Text.{Text, text, text_eq, text_beq_iff}
use rustblockchain.Bridge.Types.{
  ExternalChain, BridgeDirection, inbound, outbound, BridgeTransfer, transfer_status_eq,
}
use rustblockchain.Bridge.State.{
  BridgeState, WrappedTokenState, lock_key, locked_of, initiate_outbound, record_inbound,
  add_confirmation, complete_transfer, fail_transfer, pause, unpause, store_outbound, store_inbound,
  put_transfer, no_wrapped, confirm, complete, fail,
}
use rustblockchain.Bridge.State.History.{
  Call, initiates, records, confirms, completes, fails, pauses, unpauses, step, run,
}
use rustblockchain.Bridge.State.Transfers.{
  ticked, next_outbound, next_inbound, initiate_outbound_lem, record_inbound_lem,
}
use rustblockchain.Bridge.State.Ids.{
  IsNumbered, HasRoom, lookup-next, step-IsNumbered, counter-step,
}

-- What a transfer adds to the locked amount, and to the minted amount, of a chain and token.
abbrev pub locks : Text → BridgeDirection → Text → Text → ℕ → ℕ
locks key outbound dest token amount = if (dest ++ text ":" ++ token) == key then amount else 0
locks key inbound dest token amount = 0

abbrev pub mints : Text → BridgeDirection → Text → Text → ℕ → ℕ
mints key outbound source token net = 0
mints key inbound source token net = if (source ++ text ":" ++ token) == key then net else 0

abbrev pub locks_of : Text → BridgeTransfer → ℕ
locks_of key t = locks key t.direction t.dest_chain t.token_symbol t.amount

abbrev pub mints_of : Text → BridgeTransfer → ℕ
mints_of key t = mints key t.direction t.source_chain t.token_symbol (t.amount - t.fee)

abbrev pub minted_of : BridgeState → Text → ℕ
minted_of s key = elim (lookup key s.wrapped) [ none ↦ 0 | some w ↦ w.total_minted ]

abbrev minting : ℕ → WrappedTokenState → WrappedTokenState
minting net w = record w { total_minted = add128 w.total_minted net }

-- The ledger entries of one key are the sums over all recorded transfers, as u128 values.
abbrev pub Balances : Text → BridgeState → Type 0
Balances key s =
    (locked_of s key ≡ sum_values (locks_of key) s.transfers % u128_mod)
    × (minted_of s key ≡ sum_values (mints_of key) s.transfers % u128_mod)

module _ (key : Text) where
  locked-store :
      (k : Text) (t : BridgeTransfer) (s : BridgeState)
      → locked_of (store_outbound k t s) key
        ≡ (if k == key then add128 (locked_of s key) t.amount else locked_of s key)
  locked-store k t s =
      ground (
        arith,
        lookup-update_or key k 0 (λ (n : ℕ). add128 n t.amount) s.locked,
        text_beq_iff k key,
      )

  minted-store :
      (k : Text) (t : BridgeTransfer) (s : BridgeState)
      → minted_of (store_inbound k t s) key
        ≡ (if k == key then add128 (minted_of s key) (t.amount - t.fee) else minted_of s key)
  minted-store k t s = ground (
    arith,
    lookup-update_or key k no_wrapped (minting (t.amount - t.fee)) s.wrapped,
    text_beq_iff k key,
  )

  outbound-Balances :
      (k : Text) (t : BridgeTransfer) (s : BridgeState)
      → lookup t.id s.transfers ≡ none
      → t.direction ≡ outbound
      → k ≡ t.dest_chain ++ text ":" ++ t.token_symbol
      → Balances key s
      → Balances key (store_outbound k t s)
  outbound-Balances k t s fresh d e b = ground (
    arith,
    locked-store k t s,
    sum_values-insert_new (locks_of key) t.id t s.transfers,
    sum_values-insert_new (mints_of key) t.id t s.transfers,
  )

  inbound-Balances :
      (k : Text) (t : BridgeTransfer) (s : BridgeState)
      → lookup t.id s.transfers ≡ none
      → t.direction ≡ inbound
      → k ≡ t.source_chain ++ text ":" ++ t.token_symbol
      → Balances key s
      → Balances key (store_inbound k t s)
  inbound-Balances k t s fresh d e b = ground (
    arith,
    minted-store k t s,
    sum_values-insert_new (locks_of key) t.id t s.transfers,
    sum_values-insert_new (mints_of key) t.id t s.transfers,
  )

  -- A change of a stored transfer that keeps what it moves keeps the balances.
  put-Balances :
      (id : Text) (t u : BridgeTransfer) (s : BridgeState)
      → lookup id s.transfers ≡ some t
      → locks_of key u ≡ locks_of key t
      → mints_of key u ≡ mints_of key t
      → Balances key s
      → Balances key (put_transfer id u s)
  put-Balances id t u s e l m b = ground (
    arith,
    sum_values-insert (locks_of key) id u t s.transfers,
    sum_values-insert (mints_of key) id u t s.transfers,
  )

  module _ (to_hex : ℕ → Text) (chain : ExternalChain) (token : Text)
      (amount fee now id_now : ℕ) where
    initiate-Balances :
        (sender : ℕ) (recipient : Text) (s : BridgeState)
        → HasRoom s
        → IsNumbered s
        → Balances key s
        → Balances key
            (initiate_outbound to_hex sender chain recipient token amount fee now id_now s).1
    initiate-Balances sender recipient s room v b =
        elim (initiate_outbound_lem to_hex chain token amount fee now id_now sender recipient s) [
          | inl (_, e) ↦ rw e b
          | inr (inl (_, _, e)) ↦ rw e b
          | inr (inr (_, _, e)) ↦ rw e (
              outbound-Balances (lock_key chain token)
                (next_outbound to_hex chain token amount fee now id_now sender recipient s)
                (ticked s) (ground (arith, lookup-next id_now s v room)) refl
                (unfold lock_key in refl) b)
        ]

    record-Balances :
        (sender : Text) (recipient : ℕ) (source_tx : Text) (s : BridgeState)
        → HasRoom s
        → IsNumbered s
        → Balances key s
        → Balances key
            (record_inbound to_hex chain sender recipient token amount fee source_tx now id_now s).1
    record-Balances sender recipient source_tx s room v b =
        elim (record_inbound_lem to_hex chain token amount fee now id_now sender recipient source_tx
          s) [
            | inl (_, e) ↦ rw e b
            | inr (inl (_, _, e)) ↦ rw e b
            | inr (inr (_, _, e)) ↦ rw e (
                inbound-Balances (lock_key chain token)
                  (next_inbound to_hex chain token amount fee now id_now sender recipient source_tx
                    s)
                  (ticked s) (ground (arith, lookup-next id_now s v room)) refl
                  (unfold lock_key in refl) b)
          ]

  module _ (id : Text) (now : ℕ) (s : BridgeState) (b : Balances key s) where
    confirm-Balances : (who : ℕ) → Balances key (add_confirmation id who now s).1
    unfolding add_confirmation
    confirm-Balances who = elim (Option-cases (lookup id s.transfers)) [
      | inl e ↦ ground arith
      | inr (t, e) ↦ ground (arith, put-Balances id t (confirm t now) s e refl refl b)
    ]

    complete-Balances : (dest_tx : Text) → Balances key (complete_transfer id dest_tx now s).1
    unfolding complete_transfer
    complete-Balances dest_tx = elim (Option-cases (lookup id s.transfers)) [
      | inl e ↦ ground arith
      | inr (t, e) ↦ ground (arith, put-Balances id t (complete t dest_tx now) s e refl refl b)
    ]

    fail-Balances : Balances key (fail_transfer id now s).1
    unfolding fail_transfer
    fail-Balances = elim (Option-cases (lookup id s.transfers)) [
      | inl e ↦ ground arith
      | inr (t, e) ↦ ground (arith, put-Balances id t (fail t now) s e refl refl b)
    ]

  step-Balances :
      (to_hex : ℕ → Text) (s : BridgeState) (c : Call)
      → HasRoom s
      → IsNumbered s
      → Balances key s
      → Balances key (step to_hex s c)
  step-Balances to_hex s (initiates sender chain recipient token amount fee now id_now) room v b =
      initiate-Balances to_hex chain token amount fee now id_now sender recipient s room v b
  step-Balances to_hex s (records chain sender recipient token amount fee tx now id_now) room v b =
      record-Balances to_hex chain token amount fee now id_now sender recipient tx s room v b
  step-Balances to_hex s (confirms id who now) room v b = confirm-Balances id now s b who
  step-Balances to_hex s (completes id dest_tx now) room v b = complete-Balances id now s b dest_tx
  step-Balances to_hex s (fails id now) room v b = fail-Balances id now s b
  step-Balances to_hex s pauses room v b = unfold pause in b
  step-Balances to_hex s unpauses room v b = unfold unpause in b

  -- After any history that does not use up the 64-bit counter, the locked amount of a chain and
  -- token is the sum of the amounts of its outbound transfers, and its minted amount the sum of
  -- the amounts less the fees of its inbound transfers, both modulo 2 ^ 128: no transfer is lost,
  -- counted twice or overwritten.
  pub run-Balances :
      (to_hex : ℕ → Text) (s : BridgeState) (cs : List Call)
      → s.counter + length cs < u64_mod
      → IsNumbered s
      → Balances key s
      → IsNumbered (run to_hex s cs) × Balances key (run to_hex s cs)
  run-Balances to_hex s [] room v b = (v, b)
  run-Balances to_hex s (c ∷ cs) room v b =
      let here : HasRoom s = omega arith in
      run-Balances to_hex (step to_hex s c) cs (omega (arith, counter-step to_hex s c here))
        (step-IsNumbered to_hex s c here v) (step-Balances to_hex s c here v b)
