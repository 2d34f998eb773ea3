-- ===== src/Bridge/Htlc.antt =====
-- crates/bridge/src/htlc.rs: hash time-locked swaps. `hex::encode` and SHA-256 are other crates'
-- code and enter as the parameters `encode` and `sha256`; the clock is the argument `now`.
pub mod History
pub mod Invariant
pub mod Settlement
mod Tests
use rustblockchain.Base.{
  ℕ, Bool, ◌&&◌, not, Option, none, some, List, [], ◌∷◌, ◌++◌, map, if◌then◌else◌, leb, ltb, ◌==◌,
  nat_eq, unwrap_or, filter, filter_map, length, take, drop, add64,
}
use rustblockchain.Base.Dict.{Dict, lookup, insert, contains_key, update_or}
use rustblockchain.Base.Text.{Text, text, text_eq}
use rustblockchain.Base.Action.{Action, pure, raise, gets, or_raise, raise_if, modify, ◌>>=◌, ◌>>◌}
use rustblockchain.Base.Sorting.{sort_by}
use rustblockchain.Bridge.Types.{
  ExternalChain, HtlcStatus, active, claimed, refunded, htlc_status_eq, BridgeError, invalid_amount,
  htlc_not_found, htlc_already_exists, htlc_expired, htlc_not_expired, htlc_already_claimed,
  htlc_already_refunded, invalid_preimage, unauthorized,
}

pub record HtlcSwap : Type 0 where
  pub id : Text
  pub hash_lock : ℕ
  pub preimage : Option Text
  pub sender : ℕ
  pub recipient : ℕ
  pub amount : ℕ
  pub external_chain : ExternalChain
  pub external_address : Text
  pub external_amount : Text
  pub timelock : ℕ
  pub status : HtlcStatus
  pub created_at : ℕ
  pub settled_at : Option ℕ

pub record HtlcManager : Type 0 where
  pub swaps : Dict Text HtlcSwap
  pub by_sender : Dict ℕ (List Text)
  pub by_recipient : Dict ℕ (List Text)
  pub default_timelock : ℕ

unfoldable pub new : ℕ → HtlcManager
new default_timelock = record {
  swaps = [];
  by_sender = [];
  by_recipient = [];
  default_timelock = default_timelock;
}

abbrev pub Htlc : Type 0 → Type 0
Htlc = Action BridgeError HtlcManager

-- `entry(key).or_default().push(id)`
abbrev pub push_id : ℕ → Text → Dict ℕ (List Text) → Dict ℕ (List Text)
push_id key id = update_or key [] (λ ids. ids ++ id ∷ [])

-- The swap that a call of `create_swap` asks for.
pub record Request : Type 0 where
  pub sender : ℕ
  pub recipient : ℕ
  pub amount : ℕ
  pub hash_lock : ℕ
  pub external_chain : ExternalChain
  pub external_address : Text
  pub external_amount : Text
  pub timelock : Option ℕ

abbrev pub new_swap : Text → Request → ℕ → ℕ → HtlcSwap
new_swap id r timelock now = record {
  id = id;
  hash_lock = r.hash_lock;
  preimage = none;
  sender = r.sender;
  recipient = r.recipient;
  amount = r.amount;
  external_chain = r.external_chain;
  external_address = r.external_address;
  external_amount = r.external_amount;
  timelock = timelock;
  status = active;
  created_at = now;
  settled_at = none;
}

abbrev pub store_new : HtlcSwap → HtlcManager → HtlcManager
store_new swap m = record m {
  swaps = insert swap.id swap m.swaps;
  by_sender = push_id swap.sender swap.id m.by_sender;
  by_recipient = push_id swap.recipient swap.id m.by_recipient;
}

unfoldable pub create_swap : (ℕ → Text) → Request → ℕ → Htlc HtlcSwap
create_swap encode r now = do
  let id = encode r.hash_lock
  exists ← gets (λ m. contains_key id m.swaps)
  raise_if exists (htlc_already_exists id)
  raise_if (r.amount == 0) (invalid_amount (text "Amount must be > 0"))
  default ← gets (λ m. m.default_timelock)
  let timelock = unwrap_or r.timelock (add64 now default)
  raise_if (leb timelock now) (invalid_amount (text "Timelock must be in the future"))
  let swap = new_swap id r timelock now
  modify (store_new swap)
  pure swap

-- A write through the guard that `get_mut` returns.
abbrev pub put_swap : Text → HtlcSwap → HtlcManager → HtlcManager
put_swap id swap m = record m { swaps = insert id swap m.swaps }

abbrev pub get_mut : Text → Htlc HtlcSwap
get_mut id m = or_raise (lookup id m.swaps) (htlc_not_found id) m

abbrev pub check_open : HtlcSwap → Htlc (Unit {0})
check_open swap = do
  raise_if (swap.status == claimed) htlc_already_claimed
  raise_if (swap.status == refunded) htlc_already_refunded

-- A claim after the timelock marks the swap as expired before it fails.
abbrev pub check_timelock : Text → HtlcSwap → ℕ → Htlc (Unit {0})
check_timelock id swap now m =
    if leb swap.timelock now
    then raise htlc_expired (put_swap id (record swap { status = HtlcStatus.expired }) m)
    else pure tt m

abbrev pub claimed_swap : HtlcSwap → Text → ℕ → HtlcSwap
claimed_swap swap preimage now = record swap {
  preimage = some preimage;
  status = claimed;
  settled_at = some now;
}

unfoldable pub claim_swap : (Text → ℕ) → Text → Text → ℕ → ℕ → Htlc HtlcSwap
claim_swap sha256 id preimage claimer now = do
  swap ← get_mut id
  check_open swap
  raise_if (not (claimer == swap.recipient)) (unauthorized (text "Only the recipient can claim"))
  check_timelock id swap now
  raise_if (not (sha256 preimage == swap.hash_lock)) invalid_preimage
  modify (put_swap id (claimed_swap swap preimage now))
  pure (claimed_swap swap preimage now)

abbrev pub refunded_swap : HtlcSwap → ℕ → HtlcSwap
refunded_swap swap now = record swap { status = refunded; settled_at = some now }

unfoldable pub refund_swap : Text → ℕ → ℕ → Htlc HtlcSwap
refund_swap id refunder now = do
  swap ← get_mut id
  check_open swap
  raise_if (not (refunder == swap.sender)) (unauthorized (text "Only the sender can refund"))
  raise_if (ltb now swap.timelock) htlc_not_expired
  modify (put_swap id (refunded_swap swap now))
  pure (refunded_swap swap now)

unfoldable pub get_swap : HtlcManager → Text → Option HtlcSwap
get_swap m id = lookup id m.swaps

-- The swaps that an index lists under a key.
abbrev pub indexed : HtlcManager → Dict ℕ (List Text) → ℕ → List HtlcSwap
indexed m index key = elim (lookup key index) [
  | none ↦ []
  | some ids ↦ filter_map (λ id. lookup id m.swaps) ids
]

unfoldable pub get_swaps_by_sender : HtlcManager → ℕ → List HtlcSwap
get_swaps_by_sender m sender = indexed m m.by_sender sender

unfoldable pub get_swaps_by_recipient : HtlcManager → ℕ → List HtlcSwap
get_swaps_by_recipient m recipient = indexed m m.by_recipient recipient

abbrev pub newest_first : HtlcSwap → HtlcSwap → Bool
newest_first a b = leb b.created_at a.created_at

unfoldable pub list_swaps : HtlcManager → ℕ → ℕ → List HtlcSwap
list_swaps m limit offset = take limit (drop offset (sort_by newest_first (map (λ e. e.1) m.swaps)))

unfoldable pub active_count : HtlcManager → ℕ
active_count m = length (filter (λ e. e.1.status == active) m.swaps)

abbrev pub is_stale : ℕ → HtlcSwap → Bool
is_stale now swap = swap.status == active && leb swap.timelock now

abbrev pub expire_one : ℕ → Text × HtlcSwap → Text × HtlcSwap
expire_one now (id, swap) =
    (id, if is_stale now swap then record swap { status = HtlcStatus.expired } else swap)

-- The number of swaps that were marked, and the manager after.
unfoldable pub expire_stale_swaps : ℕ → HtlcManager → ℕ × HtlcManager
expire_stale_swaps now m = (
  length (filter (λ e. is_stale now e.1) m.swaps),
  record m { swaps = map (expire_one now) m.swaps },
)
