-- ===== src/Bridge/Relay.antt =====
-- crates/bridge/src/relay.rs: the relayer, over the bridge state and the validator set. A chain
-- adapter is a handle; what its `submit_unlock` answers at a call is the parameter `unlock`.
pub mod Fees
pub mod Finalize
pub mod History
pub mod Confirm
mod Tests
use Prim.Native.Nat.{max}
use rustblockchain.Base.{
  ℕ, ◌/◌, Bool, true, false, not, Option, none, some, List, [], ◌∷◌, ◌++◌, map, if◌then◌else◌, leb,
  Eq, ◌==◌, nat_eq, saturating_sub,
}
use rustblockchain.Base.Result.{Result, ok, err}
use rustblockchain.Base.Dict.{Dict, lookup, insert}
use rustblockchain.Base.Text.{Text, text, to_lowercase}
use rustblockchain.Base.Action.{
  Action, pure, raise, gets, or_raise, raise_if, modify, from_result, ◌>>=◌, ◌>>◌,
}
use rustblockchain.Bridge.Types.{
  ExternalChain, bitcoin, ethereum, bnb_chain, polygon, solana, name, symbol, from_name, all_chains,
  chain_eq, BridgeTransfer, BridgeDirection, inbound, outbound, validated, transfer_status_eq,
  BridgeFeeSchedule, BridgeError, invalid_amount, unauthorized, transfer_not_found,
  transfer_already_processed, unsupported_chain,
}
use rustblockchain.Bridge.State
use rustblockchain.Bridge.State.{BridgeState}
use rustblockchain.Bridge.Validators.{BridgeValidatorSet, is_validator, record_confirmation}

pub record BridgeRelayer : Type 0 where
  pub state : BridgeState
  pub validators : BridgeValidatorSet
  pub adapters : Dict ExternalChain ℕ

unfoldable pub new : BridgeState → BridgeValidatorSet → BridgeRelayer
new state validators = record { state = state; validators = validators; adapters = [] }

unfoldable pub register_adapter : ExternalChain → ℕ → BridgeRelayer → BridgeRelayer
register_adapter chain adapter r = record r { adapters = insert chain adapter r.adapters }

unfoldable pub registered_chains : BridgeRelayer → List ExternalChain
registered_chains r = map (λ e. e.0) r.adapters

abbrev pub Relay : Type 0 → Type 0
Relay = Action BridgeError BridgeRelayer

-- A call of a method of the bridge state.
abbrev pub on_state {ℓ} :
    {A : Type ℓ} → Action BridgeError BridgeState A → Action BridgeError BridgeRelayer A
on_state act r = let (x, s) = act r.state in (x, record r { state = s })

unfoldable pub calculate_fee : ℕ → ℕ
calculate_fee amount = max (amount / 1000) 1

unfoldable pub process_inbound_event :
    (ℕ → Text) → ExternalChain → Text → ℕ → Text → ℕ → Text → ℕ → ℕ → Relay BridgeTransfer
process_inbound_event to_hex source sender recipient token amount source_tx now id_now = on_state (
    State.record_inbound to_hex source sender recipient token amount (calculate_fee amount)
      source_tx now id_now)

unfoldable pub process_outbound_request :
    (ℕ → Text) → ℕ → ExternalChain → Text → Text → ℕ → ℕ → ℕ → Relay BridgeTransfer
process_outbound_request to_hex sender dest recipient token amount now id_now = do
  let fee = calculate_fee amount
  raise_if (leb amount fee) (invalid_amount (text "Amount must be greater than fee"))
  on_state (State.initiate_outbound to_hex sender dest recipient token amount fee now id_now)

unfoldable pub submit_confirmation : Text → ℕ → ℕ → Relay BridgeTransfer
submit_confirmation id validator now = do
  known ← gets (λ r. is_validator r.validators validator)
  raise_if (not known) (unauthorized (text "Not a bridge validator"))
  modify (λ r. record r { validators = record_confirmation validator r.validators })
  on_state (State.add_confirmation id validator now)

-- The outbound branch of `finalize_transfer`.
abbrev pub finalize_outbound :
    (ℕ → Text → Text → ℕ → Result BridgeError Text)
    → Text
    → BridgeTransfer
    → ℕ
    → Relay BridgeTransfer
finalize_outbound unlock id t now = do
  chain ← or_raise (from_name t.dest_chain) (unsupported_chain t.dest_chain)
  adapter ← gets (λ r. lookup chain r.adapters)
  dest_tx ← from_result (elim adapter [
    | some a ↦ unlock a t.recipient t.token_symbol (saturating_sub t.amount t.fee)
    | none ↦ ok (text "pending-" ++ to_lowercase (name chain) ++ text "-unlock-" ++ id)
  ])
  on_state (State.complete_transfer id dest_tx now)

abbrev pub finalize_by :
    BridgeDirection
    → (ℕ → Text → Text → ℕ → Result BridgeError Text)
    → Text
    → BridgeTransfer
    → ℕ
    → Relay BridgeTransfer
finalize_by inbound unlock id t now =
    on_state (State.complete_transfer id (text "rustchain-mint-" ++ id) now)
finalize_by outbound unlock id t now = finalize_outbound unlock id t now

unfoldable pub finalize_transfer :
    (ℕ → Text → Text → ℕ → Result BridgeError Text) → Text → ℕ → Relay BridgeTransfer
finalize_transfer unlock id now = do
  found ← gets (λ r. State.get_transfer r.state id)
  t ← or_raise found (transfer_not_found id)
  raise_if (not (t.status == validated)) transfer_already_processed
  finalize_by t.direction unlock id t now

abbrev pub estimated_gas_cost : ExternalChain → Text
estimated_gas_cost bitcoin = text "~0.0001 BTC"
estimated_gas_cost ethereum = text "~0.005 ETH"
estimated_gas_cost bnb_chain = text "~0.001 BNB"
estimated_gas_cost polygon = text "~0.01 MATIC"
estimated_gas_cost solana = text "~0.000005 SOL"

abbrev pub fee_schedule_of : ExternalChain → BridgeFeeSchedule
fee_schedule_of chain = record {
  chain = chain;
  token_symbol = symbol chain;
  fee_bps = 10;
  min_fee = 1;
  estimated_gas_cost = estimated_gas_cost chain;
}

unfoldable pub get_fee_schedule : List BridgeFeeSchedule
get_fee_schedule = map fee_schedule_of all_chains
