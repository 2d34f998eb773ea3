-- ===== src/Bridge/State/Ids.antt =====
-- The ids of crates/bridge/src/state.rs: `next_id` never gives one that a stored transfer has.
use rustblockchain.Base.{
  ℕ, ◌+◌, ◌≤◌, ◌<◌, ◌≡◌, inl, inr, none, [], ◌∷◌, ◌++◌, arith, Option-cases, u64_mod,
}
use rustblockchain.Bridge.State.History.{
  Call, initiates, records, confirms, completes, fails, pauses, unpauses, step,
}
use rustblockchain.Base.Dict.{Dict, lookup, Entries, insert-Entries, lookup-Entries}
use rustblockchain.Base.Text.{Text, text, text_eq, decimal, read_last_from, read_last-decimal}
use rustblockchain.Bridge.Types.{ExternalChain, BridgeTransfer, transfer_status_eq}
use rustblockchain.Bridge.State.{
  BridgeState, transfer_id, next_id, initiate_outbound, record_inbound, add_confirmation,
  complete_transfer, fail_transfer, pause, unpause,
}

-- The number that an id ends in.
abbrev pub serial : Text → ℕ
serial id = read_last_from 0 id

pub serial-transfer_id :
    (now counter : ℕ) → counter < u64_mod → serial (transfer_id now counter) ≡ counter
unfolding transfer_id
serial-transfer_id now counter h =
    read_last-decimal (text "bridge-" ++ decimal now) counter (omega arith)

-- Every stored transfer has its own id for a key, and its serial number has been given out.
abbrev pub Numbered : ℕ → Text → BridgeTransfer → Type 0
Numbered counter key t = (key ≡ t.id) × (serial key ≤ counter)

abbrev pub IsNumbered : BridgeState → Type 0
IsNumbered s = Entries (Numbered s.counter) s.transfers × (s.counter < u64_mod)

Numbered-mono :
    (m n : ℕ) (d : Dict Text BridgeTransfer)
    → m ≤ n
    → Entries (Numbered m) d
    → Entries (Numbered n) d
Numbered-mono m n [] h v = tt
Numbered-mono m n ((k, t) ∷ d) h v = ((v.0.0, omega arith), Numbered-mono m n d h v.1)

-- The id of the next serial number is new.
pub lookup-next :
    (now : ℕ) (s : BridgeState)
    → IsNumbered s
    → s.counter + 1 < u64_mod
    → lookup (transfer_id now (s.counter + 1)) s.transfers ≡ none
lookup-next now s v h = elim (Option-cases (lookup (transfer_id now (s.counter + 1)) s.transfers)) [
  | inl e ↦ e
  | inr (t, e) ↦
      let w = lookup-Entries (Numbered s.counter) _ t s.transfers v.0 e in
      absurd (omega (arith, serial-transfer_id now (s.counter + 1) h))
]

abbrev pub HasRoom : BridgeState → Type 0
HasRoom s = s.counter + 1 < u64_mod

module _ (to_hex : ℕ → Text) (chain : ExternalChain) (token : Text)
    (amount fee now id_now : ℕ) where
  initiate-IsNumbered :
      (sender : ℕ) (recipient : Text) (s : BridgeState)
      → HasRoom s
      → IsNumbered s
      → IsNumbered (initiate_outbound to_hex sender chain recipient token amount fee now id_now s).1
  unfolding initiate_outbound next_id
  initiate-IsNumbered sender recipient s room v = grind (
    arith,
    insert-Entries,
    Numbered-mono s.counter (s.counter + 1) s.transfers,
    serial-transfer_id id_now (s.counter + 1),
  )

  record-IsNumbered :
      (sender : Text) (recipient : ℕ) (source_tx : Text) (s : BridgeState)
      → HasRoom s
      → IsNumbered s
      → IsNumbered
          (record_inbound to_hex chain sender recipient token amount fee source_tx now id_now s).1
  unfolding record_inbound next_id
  record-IsNumbered sender recipient source_tx s room v = grind (
    arith,
    insert-Entries,
    Numbered-mono s.counter (s.counter + 1) s.transfers,
    serial-transfer_id id_now (s.counter + 1),
  )

module _ (id : Text) (now : ℕ) (s : BridgeState) (v : IsNumbered s) where
  confirm-IsNumbered : (who : ℕ) → IsNumbered (add_confirmation id who now s).1
  unfolding add_confirmation
  confirm-IsNumbered who = elim (Option-cases (lookup id s.transfers)) [
    | inl e ↦ ground arith
    | inr (t, e) ↦
        let w = lookup-Entries (Numbered s.counter) id t s.transfers v.0 e in
        grind (arith, insert-Entries)
  ]

  complete-IsNumbered : (dest_tx : Text) → IsNumbered (complete_transfer id dest_tx now s).1
  unfolding complete_transfer
  complete-IsNumbered dest_tx = elim (Option-cases (lookup id s.transfers)) [
    | inl e ↦ ground arith
    | inr (t, e) ↦
        let w = lookup-Entries (Numbered s.counter) id t s.transfers v.0 e in
        grind (arith, insert-Entries)
  ]

  fail-IsNumbered : IsNumbered (fail_transfer id now s).1
  unfolding fail_transfer
  fail-IsNumbered = elim (Option-cases (lookup id s.transfers)) [
    | inl e ↦ ground arith
    | inr (t, e) ↦
        let w = lookup-Entries (Numbered s.counter) id t s.transfers v.0 e in
        grind (arith, insert-Entries)
  ]

module _ (to_hex : ℕ → Text) where
  pub step-IsNumbered :
      (s : BridgeState) (c : Call) → HasRoom s → IsNumbered s → IsNumbered (step to_hex s c)
  step-IsNumbered s (initiates sender chain recipient token amount fee now id_now) room v =
      initiate-IsNumbered to_hex chain token amount fee now id_now sender recipient s room v
  step-IsNumbered s (records chain sender recipient token amount fee source_tx now id_now) room v =
      record-IsNumbered to_hex chain token amount fee now id_now sender recipient source_tx s room v
  step-IsNumbered s (confirms id who now) room v = confirm-IsNumbered id now s v who
  step-IsNumbered s (completes id dest_tx now) room v = complete-IsNumbered id now s v dest_tx
  step-IsNumbered s (fails id now) room v = fail-IsNumbered id now s v
  step-IsNumbered s pauses room v = unfold pause in v
  step-IsNumbered s unpauses room v = unfold unpause in v

  -- A call gives out one serial number at most.
  pub counter-step :
      (s : BridgeState) (c : Call) → HasRoom s → (step to_hex s c).counter ≤ s.counter + 1
  unfolding initiate_outbound record_inbound next_id add_confirmation complete_transfer
      fail_transfer pause unpause
  counter-step s (initiates sender chain recipient token amount fee now id_now) room = ground arith
  counter-step s (records chain sender recipient token amount fee source_tx now id_now) room =
      ground arith
  counter-step s (confirms id who now) room = ground arith
  counter-step s (completes id dest_tx now) room = ground arith
  counter-step s (fails id now) room = ground arith
  counter-step s pauses room = omega arith
  counter-step s unpauses room = omega arith
