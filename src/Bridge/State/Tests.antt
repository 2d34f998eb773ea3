-- ===== src/Bridge/State/Tests.antt =====
-- Tests of the bridge state and the instances of its theorems.
use rustblockchain.Base.{ℕ, ◌≡◌, refl, List, [], ◌∷◌, arith, nat_eq}
use rustblockchain.Base.Text.{Text, text, text_eq, decimal}
use rustblockchain.Bridge.Types.{ethereum, name, default_config}
use rustblockchain.Bridge.State
use rustblockchain.Bridge.State.{
  BridgeState, lock_key, initiate_outbound, record_inbound, store_outbound, outbound_transfer,
  locked_of,
}
use rustblockchain.Bridge.State.History
use rustblockchain.Bridge.State.History.{initiates, records, confirms, completes}
use rustblockchain.Bridge.State.Ids.{IsNumbered}
use rustblockchain.Bridge.State.Supply.{Balances, run-Balances}

-- A stand-in for the printing of an address.
abbrev encode : ℕ → Text
encode n = n ∷ []

abbrev bridge : BridgeState
bridge = State.new default_config

bridge-IsNumbered : IsNumbered bridge
unfolding State.new
bridge-IsNumbered = (tt, omega arith)

bridge-Balances : Balances (lock_key ethereum (text "ETH")) bridge
unfolding State.new
bridge-Balances = (refl, refl)

abbrev calls : List History.Call
calls =
    initiates 1 ethereum (text "0xabc") (text "ETH") 1000 10 5 6
    ∷ records ethereum (text "0xdef") 2 (text "ETH") 500 1 (text "0x1") 7 8
    ∷ confirms (text "bridge-6-1") 9 10
    ∷ []

run_test : locked_of (History.run encode bridge calls) (lock_key ethereum (text "ETH")) ≡ 1000
unfolding State.new initiate_outbound record_inbound State.add_confirmation State.next_id
    State.transfer_id decimal lock_key name
run_test = refl

run-Balances_example :
    IsNumbered (History.run encode bridge calls)
    × Balances (lock_key ethereum (text "ETH")) (History.run encode bridge calls)
run-Balances_example =
    run-Balances (lock_key ethereum (text "ETH")) encode bridge calls
      (unfold State.new in omega arith) bridge-IsNumbered bridge-Balances
