-- ===== src/Bridge/State/Transfers.antt =====
-- What one call of crates/bridge/src/state.rs does to the transfer records.
use rustblockchain.Base.{ℕ, ◌≡◌, ◌⊎◌, inl, inr, true, false, arith, Bool-cases, add64}
use rustblockchain.Base.Result.{ok, err}
use rustblockchain.Base.Text.{Text, text, text_eq}
use rustblockchain.Bridge.Types.{
  ExternalChain, BridgeTransfer, transfer_status_eq, bridge_paused, unauthorized,
}
use rustblockchain.Bridge.State.{
  BridgeState, lock_key, transfer_id, next_id, initiate_outbound, record_inbound, outbound_transfer,
  inbound_transfer, store_outbound, store_inbound,
}

-- The state with the next serial number given out.
abbrev pub ticked : BridgeState → BridgeState
ticked s = record s { counter = add64 s.counter 1 }

module _ (to_hex : ℕ → Text) (chain : ExternalChain) (token : Text)
    (amount fee now id_now : ℕ) where
  abbrev pub next_outbound : ℕ → Text → BridgeState → BridgeTransfer
  next_outbound sender recipient s =
      outbound_transfer (transfer_id id_now (add64 s.counter 1)) (to_hex sender) chain recipient
        token amount fee now s.config

  abbrev pub next_inbound : Text → ℕ → Text → BridgeState → BridgeTransfer
  next_inbound sender recipient source_tx s =
      inbound_transfer (transfer_id id_now (add64 s.counter 1)) chain sender (to_hex recipient)
        token amount fee source_tx now s.config

  -- An outbound request is refused while the bridge is paused or outbound transfers are off, and
  -- then changes nothing; otherwise it locks the amount and stores the new transfer.
  pub initiate_outbound_lem :
      (sender : ℕ) (recipient : Text) (s : BridgeState)
      → let r = initiate_outbound to_hex sender chain recipient token amount fee now id_now s in
        ((s.paused ≡ true) × (r ≡ (err bridge_paused, s)))
        ⊎ ((s.paused ≡ false)
            × (s.config.allow_outbound ≡ false)
            × (r ≡ (err (unauthorized (text "Outbound transfers disabled")), s)))
        ⊎ ((s.paused ≡ false)
            × (s.config.allow_outbound ≡ true)
            × (r ≡ (
              ok (next_outbound sender recipient s),
              store_outbound (lock_key chain token) (next_outbound sender recipient s) (ticked s),
            )))
  unfolding initiate_outbound next_id
  initiate_outbound_lem sender recipient s = elim (Bool-cases s.paused) [
    | inl p ↦ inl (ground arith)
    | inr p ↦ elim (Bool-cases s.config.allow_outbound) [
      | inl a ↦ inr (inr (ground arith))
      | inr a ↦ inr (inl (ground arith))
    ]
  ]

  -- An inbound record is refused while the bridge is paused or inbound transfers are off, and then
  -- changes nothing; otherwise it mints the amount less the fee and stores the new transfer.
  pub record_inbound_lem :
      (sender : Text) (recipient : ℕ) (source_tx : Text) (s : BridgeState)
      → let r =
          record_inbound to_hex chain sender recipient token amount fee source_tx now id_now s in
        ((s.paused ≡ true) × (r ≡ (err bridge_paused, s)))
        ⊎ ((s.paused ≡ false)
            × (s.config.accept_inbound ≡ false)
            × (r ≡ (err (unauthorized (text "Inbound transfers disabled")), s)))
        ⊎ ((s.paused ≡ false)
            × (s.config.accept_inbound ≡ true)
            × (r ≡ (
              ok (next_inbound sender recipient source_tx s),
              store_inbound
                  (lock_key chain token)
                  (next_inbound sender recipient source_tx s)
                  (ticked s),
            )))
  unfolding record_inbound next_id
  record_inbound_lem sender recipient source_tx s = elim (Bool-cases s.paused) [
    | inl p ↦ inl (ground arith)
    | inr p ↦ elim (Bool-cases s.config.accept_inbound) [
      | inl a ↦ inr (inr (ground arith))
      | inr a ↦ inr (inl (ground arith))
    ]
  ]
