-- ===== src/Bridge/Relay/Fees.antt =====
-- The fee of crates/bridge/src/relay.rs, against the schedule that it publishes.
use rustblockchain.Base.{ℕ, ◌+◌, ◌*◌, ◌≤◌, ◌<◌, ◌≡◌, ◌↔◌, ◌⊎◌, arith, All}
use rustblockchain.Base.Result.{ok, err}
use rustblockchain.Base.Text.{Text, text}
use rustblockchain.Bridge.Types.{ExternalChain, BridgeTransfer, BridgeFeeSchedule, invalid_amount}
use rustblockchain.Bridge.State.{initiate_outbound}
use rustblockchain.Bridge.State
use rustblockchain.Bridge.Relay.{
  BridgeRelayer, calculate_fee, process_outbound_request, get_fee_schedule,
}

-- The fee is the rate of every entry of the published schedule, rounded down, but not below that
-- entry's minimum.
pub calculate_fee-schedule :
    (amount : ℕ)
    → All
        (λ (e : BridgeFeeSchedule).
          (e.min_fee ≤ calculate_fee amount)
          × ((calculate_fee amount ≡ e.min_fee)
              ⊎ (calculate_fee amount * 10000 ≤ amount * e.fee_bps))
          × (amount * e.fee_bps < (calculate_fee amount + 1) * 10000))
        get_fee_schedule
unfolding calculate_fee get_fee_schedule
calculate_fee-schedule amount = ground arith

-- An outbound request that is accepted pays out a positive amount: the recorded fee is below the
-- recorded amount. A request for at most one unit is refused, and then nothing changes.
pub process_outbound_request_pays :
    (to_hex : ℕ → Text) (sender : ℕ) (dest : ExternalChain) (recipient token : Text)
    (amount now id_now : ℕ) (r : BridgeRelayer) (t : BridgeTransfer)
    → (process_outbound_request to_hex sender dest recipient token amount now id_now r).0 ≡ ok t
    → (t.amount ≡ amount) × (0 < t.fee) × (t.fee < t.amount)
unfolding process_outbound_request State.initiate_outbound State.next_id calculate_fee
process_outbound_request_pays to_hex sender dest recipient token amount now id_now r t e =
    ground arith

pub process_outbound_request_small :
    (to_hex : ℕ → Text) (sender : ℕ) (dest : ExternalChain) (recipient token : Text)
    (amount now id_now : ℕ) (r : BridgeRelayer)
    → (process_outbound_request to_hex sender dest recipient token amount now id_now r
        ≡ (err (invalid_amount (text "Amount must be greater than fee")), r))
      ↔ (amount ≤ 1)
unfolding process_outbound_request State.initiate_outbound State.next_id calculate_fee
process_outbound_request_small to_hex sender dest recipient token amount now id_now r = ground arith
