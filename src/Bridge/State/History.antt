-- ===== src/Bridge/State/History.antt =====
-- Histories of the bridge state of crates/bridge/src/state.rs: any sequence of the calls that change
-- it, each with its own clock readings.
use rustblockchain.Base.{ℕ, List, [], ◌∷◌}
use rustblockchain.Base.Text.{Text}
use rustblockchain.Bridge.Types.{ExternalChain}
use rustblockchain.Bridge.State.{
  BridgeState, initiate_outbound, record_inbound, add_confirmation, complete_transfer,
  fail_transfer, pause, unpause,
}

pub data Call : Type 0 where
  initiates : ℕ → ExternalChain → Text → Text → ℕ → ℕ → ℕ → ℕ → Call
  records : ExternalChain → Text → ℕ → Text → ℕ → ℕ → Text → ℕ → ℕ → Call
  confirms : Text → ℕ → ℕ → Call
  completes : Text → Text → ℕ → Call
  fails : Text → ℕ → Call
  pauses unpauses : Call

module _ (to_hex : ℕ → Text) where
  abbrev pub step : BridgeState → Call → BridgeState
  step s (initiates sender chain recipient token amount fee now id_now) =
      (initiate_outbound to_hex sender chain recipient token amount fee now id_now s).1
  step s (records chain sender recipient token amount fee source_tx now id_now) =
      (record_inbound to_hex chain sender recipient token amount fee source_tx now id_now s).1
  step s (confirms id validator now) = (add_confirmation id validator now s).1
  step s (completes id dest_tx now) = (complete_transfer id dest_tx now s).1
  step s (fails id now) = (fail_transfer id now s).1
  step s pauses = pause s
  step s unpauses = unpause s

  abbrev pub run : BridgeState → List Call → BridgeState
  run s [] = s
  run s (c ∷ cs) = run (step s c) cs
