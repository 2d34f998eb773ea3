-- ===== src/Bridge/State.antt =====
-- crates/bridge/src/state.rs: transfer records, locked amounts and the wrapped supply. `to_hex`
-- prints an address through another crate and is a parameter; the clock readings, in milliseconds,
-- are arguments.
pub mod Supply
pub mod History
pub mod Ids
pub mod Transfers
mod Tests
use rustblockchain.Base.{
  ℕ, suc, ◌+◌, ◌-◌, Bool, true, false, ◌||◌, not, Option, none, some, List, [], ◌∷◌, ◌++◌, map,
  if◌then◌else◌, leb, Eq, ◌==◌, unwrap_or, filter, filter_map, length, take, drop, add64, mul64,
  add128, saturating_sub,
}
use rustblockchain.Base.Dict.{Dict, lookup, insert, update_or}
use rustblockchain.Base.Text.{Text, text, text_eq, decimal}
use rustblockchain.Base.Action.{Action, pure, gets, or_raise, raise_if, modify, ◌>>=◌, ◌>>◌}
use rustblockchain.Base.Sorting.{sort_by}
use rustblockchain.Bridge.Types.{
  ExternalChain, name, symbol, all_chains, BridgeTransfer, BridgeTransferStatus, pending,
  source_confirmed, relay_submitted, validated, completed, failed, transfer_status_eq, inbound,
  outbound, BridgeLiquidity, BridgeConfig, BridgeError, bridge_paused, unauthorized,
  transfer_not_found, transfer_already_processed,
}

pub record WrappedTokenState : Type 0 where
  pub total_minted : ℕ
  pub total_burned : ℕ
  pub balances : Dict Text ℕ

abbrev pub no_wrapped : WrappedTokenState
no_wrapped = record { total_minted = 0; total_burned = 0; balances = [] }

unfoldable pub circulating_supply : WrappedTokenState → ℕ
circulating_supply w = saturating_sub w.total_minted w.total_burned

pub record BridgeState : Type 0 where
  pub transfers : Dict Text BridgeTransfer
  pub by_sender : Dict Text (List Text)
  pub locked : Dict Text ℕ
  pub wrapped : Dict Text WrappedTokenState
  pub config : BridgeConfig
  pub paused : Bool
  pub counter : ℕ

unfoldable pub new : BridgeConfig → BridgeState
new config = record {
  transfers = [];
  by_sender = [];
  locked = [];
  wrapped = [];
  config = config;
  paused = false;
  counter = 0;
}

abbrev pub Bridge : Type 0 → Type 0
Bridge = Action BridgeError BridgeState

unfoldable pub lock_key : ExternalChain → Text → Text
lock_key chain token = name chain ++ text ":" ++ token

unfoldable pub transfer_id : ℕ → ℕ → Text
transfer_id now counter = (text "bridge-" ++ decimal now) ++ b'-' ∷ decimal counter

unfoldable pub next_id : ℕ → Bridge Text
next_id now = do
  modify (λ s. record s { counter = add64 s.counter 1 })
  gets (λ s. transfer_id now s.counter)

unfoldable pub pause : BridgeState → BridgeState
pause s = record s { paused = true }

unfoldable pub unpause : BridgeState → BridgeState
unpause s = record s { paused = false }

abbrev pub expiry : ℕ → BridgeConfig → ℕ
expiry now config = add64 now (mul64 config.transfer_timeout_seconds 1000)

abbrev pub outbound_transfer :
    Text → Text → ExternalChain → Text → Text → ℕ → ℕ → ℕ → BridgeConfig → BridgeTransfer
outbound_transfer id sender dest recipient token amount fee now config = record {
  id = id;
  direction = outbound;
  source_chain = text "RustChain";
  dest_chain = name dest;
  sender = sender;
  recipient = recipient;
  token_symbol = token;
  amount = amount;
  fee = fee;
  status = pending;
  source_tx_hash = none;
  dest_tx_hash = none;
  confirmations = 0;
  required_confirmations = config.min_signatures;
  created_at = now;
  updated_at = now;
  expires_at = expiry now config;
}

-- `*locked.entry(key).or_insert(0) += amount`
abbrev pub add_locked : Text → ℕ → Dict Text ℕ → Dict Text ℕ
add_locked key amount = update_or key 0 (λ n. add128 n amount)

abbrev pub store_outbound : Text → BridgeTransfer → BridgeState → BridgeState
store_outbound key t s = record s {
  locked = add_locked key t.amount s.locked;
  transfers = insert t.id t s.transfers;
  by_sender = update_or t.sender [] (λ ids. ids ++ t.id ∷ []) s.by_sender;
}

unfoldable pub initiate_outbound :
    (ℕ → Text) → ℕ → ExternalChain → Text → Text → ℕ → ℕ → ℕ → ℕ → Bridge BridgeTransfer
initiate_outbound to_hex sender dest recipient token amount fee now id_now = do
  raise_if (← gets (λ s. s.paused)) bridge_paused
  config ← gets (λ s. s.config)
  raise_if (not config.allow_outbound) (unauthorized (text "Outbound transfers disabled"))
  id ← next_id id_now
  let t = outbound_transfer id (to_hex sender) dest recipient token amount fee now config
  modify (store_outbound (lock_key dest token) t)
  pure t

abbrev pub inbound_transfer :
    Text → ExternalChain → Text → Text → Text → ℕ → ℕ → Text → ℕ → BridgeConfig → BridgeTransfer
inbound_transfer id source sender recipient token amount fee source_tx now config = record {
  id = id;
  direction = inbound;
  source_chain = name source;
  dest_chain = text "RustChain";
  sender = sender;
  recipient = recipient;
  token_symbol = token;
  amount = amount;
  fee = fee;
  status = source_confirmed;
  source_tx_hash = some source_tx;
  dest_tx_hash = none;
  confirmations = 0;
  required_confirmations = config.min_signatures;
  created_at = now;
  updated_at = now;
  expires_at = expiry now config;
}

-- `wrapped.entry(key).or_default().total_minted += net`
abbrev pub add_minted : Text → ℕ → Dict Text WrappedTokenState → Dict Text WrappedTokenState
add_minted key net =
    update_or key no_wrapped (λ w. record w { total_minted = add128 w.total_minted net })

abbrev pub store_inbound : Text → BridgeTransfer → BridgeState → BridgeState
store_inbound key t s = record s {
  wrapped = add_minted key (saturating_sub t.amount t.fee) s.wrapped;
  transfers = insert t.id t s.transfers;
}

unfoldable pub record_inbound :
    (ℕ → Text) → ExternalChain → Text → ℕ → Text → ℕ → ℕ → Text → ℕ → ℕ → Bridge BridgeTransfer
record_inbound to_hex source sender recipient token amount fee source_tx now id_now = do
  raise_if (← gets (λ s. s.paused)) bridge_paused
  config ← gets (λ s. s.config)
  raise_if (not config.accept_inbound) (unauthorized (text "Inbound transfers disabled"))
  id ← next_id id_now
  let t = inbound_transfer id source sender (to_hex recipient) token amount fee source_tx now config
  modify (store_inbound (lock_key source token) t)
  pure t

abbrev pub get_mut : Text → Bridge BridgeTransfer
get_mut id s = or_raise (lookup id s.transfers) (transfer_not_found id) s

-- A write through the guard that `get_mut` returns.
abbrev pub put_transfer : Text → BridgeTransfer → BridgeState → BridgeState
put_transfer id t s = record s { transfers = insert id t s.transfers }

abbrev pub confirm : BridgeTransfer → ℕ → BridgeTransfer
confirm t now = record t {
  confirmations = add64 t.confirmations 1;
  updated_at = now;
  status = if leb t.required_confirmations (add64 t.confirmations 1) then validated else t.status;
}

-- The validator is not recorded.
unfoldable pub add_confirmation : Text → ℕ → ℕ → Bridge BridgeTransfer
add_confirmation id validator now = do
  t ← get_mut id
  raise_if (t.status == completed) transfer_already_processed
  modify (put_transfer id (confirm t now))
  pure (confirm t now)

abbrev pub complete : BridgeTransfer → Text → ℕ → BridgeTransfer
complete t dest_tx now = record t {
  status = completed;
  dest_tx_hash = some dest_tx;
  updated_at = now;
}

unfoldable pub complete_transfer : Text → Text → ℕ → Bridge BridgeTransfer
complete_transfer id dest_tx now = do
  t ← get_mut id
  modify (put_transfer id (complete t dest_tx now))
  pure (complete t dest_tx now)

abbrev pub fail : BridgeTransfer → ℕ → BridgeTransfer
fail t now = record t { status = failed; updated_at = now }

unfoldable pub fail_transfer : Text → ℕ → Bridge BridgeTransfer
fail_transfer id now = do t ← get_mut id; modify (put_transfer id (fail t now)); pure (fail t now)

unfoldable pub get_transfer : BridgeState → Text → Option BridgeTransfer
get_transfer s id = lookup id s.transfers

unfoldable pub get_transfers_by_sender : BridgeState → Text → List BridgeTransfer
get_transfers_by_sender s sender = elim (lookup sender s.by_sender) [
  | none ↦ []
  | some ids ↦ filter_map (λ id. lookup id s.transfers) ids
]

abbrev pub newest_first : BridgeTransfer → BridgeTransfer → Bool
newest_first a b = leb b.created_at a.created_at

unfoldable pub list_transfers : BridgeState → ℕ → ℕ → List BridgeTransfer
list_transfers s limit offset =
    take limit (drop offset (sort_by newest_first (map (λ e. e.1) s.transfers)))

abbrev pub locked_of : BridgeState → Text → ℕ
locked_of s key = unwrap_or (lookup key s.locked) 0

abbrev pub supply_of : BridgeState → Text → ℕ
supply_of s key = elim (lookup key s.wrapped) [ none ↦ 0 | some w ↦ circulating_supply w ]

abbrev pub liquidity_of : BridgeState → ExternalChain → BridgeLiquidity
liquidity_of s chain =
    let key = lock_key chain (symbol chain) in
    record {
      chain = chain;
      token_symbol = symbol chain;
      locked_amount = locked_of s key;
      wrapped_supply = supply_of s key;
      available_outbound = saturating_sub (locked_of s key) (supply_of s key);
    }

unfoldable pub get_liquidity : BridgeState → List BridgeLiquidity
get_liquidity s = map (liquidity_of s) all_chains

unfoldable pub total_transfers : BridgeState → ℕ
total_transfers s = length s.transfers

abbrev pub is_pending : BridgeTransfer → Bool
is_pending t = t.status == pending || (t.status == source_confirmed || t.status == relay_submitted)

unfoldable pub pending_transfers : BridgeState → ℕ
pending_transfers s = length (filter (λ e. is_pending e.1) s.transfers)
