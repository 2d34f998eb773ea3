-- ===== src/Contracts/Bridge.antt =====
-- contracts/bridge/src/lib.rs: the bridge contract. `args` are the bytes at the pointer that an entry
-- point takes with their length; a slice out of their bounds panics. Lengths do not overflow, as on the
-- native targets.
pub mod Sha256
pub mod Encoding
pub mod Swaps
pub mod Guards
pub mod Keeping
pub mod Histories
use rustblockchain.Base.{
  ℕ, zero, suc, ◌+◌, ◌-◌, ◌*◌, ◌/◌, ◌%◌, ◌^◌, Bool, true, false, ◌||◌, Option, none, some, List, [],
  ◌∷◌, ◌++◌, if◌then◌else◌, Eq, ◌==◌, nat_eq, ltb, leb, length, take, drop, not, is_some, get_elem?,
  unwrap_or, add64, add128, sub64, sub128, mul128, saturating_sub,
}
use rustblockchain.Base.Text.{Text, text, text_eq}
use rustblockchain.Base.Bytes.{from_le, le_bytes}
use rustblockchain.Base.Result.{Result, ok, err}
use rustblockchain.Base.Action.{pure, raise, raise_if, gets, modify, ◌>>=◌, ◌>>◌}
use rustblockchain.Contracts.Sdk
use rustblockchain.Contracts.Sdk.{
  MockEnv, Contract, panicked, aborted, storage_read, storage_write, emit_event, fail, fail_if,
  refuse_if,
}
use rustblockchain.Contracts.Sdk.Words.{
  read_u64, write_u64, read_u128, write_u128, read_bool, write_bool, read_address,
}
use rustblockchain.Contracts.Bridge.Sha256.{simple_sha256}

unfoldable pub require_owner : Contract (Unit {0})
require_owner = do
  owner ← gets (read_address (text "owner"))
  from ← gets (λ s. s.caller)
  raise_if (not (from == owner)) (aborted (text "Only owner can call this function"))

unfoldable pub require_not_paused : Contract (Unit {0})
require_not_paused = do
  paused ← gets (read_bool (text "paused"))
  raise_if paused (aborted (text "Bridge is paused"))

unfoldable pub htlc_key : Text → Text
htlc_key hash_lock_hex = text "htlc:" ++ hash_lock_hex

unfoldable pub locked_key : Text → Text → Text
locked_key chain token = text "locked:" ++ (chain ++ b':' ∷ token)

unfoldable pub wrapped_balance_key : Text → Text → Text → Text
wrapped_balance_key chain token addr = text "wrapped:" ++ (chain ++ b':' ∷ (token ++ b':' ∷ addr))

unfoldable pub wrapped_supply_key : Text → Text → Text
wrapped_supply_key chain token = text "wrapped_supply:" ++ (chain ++ b':' ∷ token)

unfoldable pub validator_key : Text → Text
validator_key addr = text "validator:" ++ addr

pub record HtlcData : Type 0 where
  pub sender : Text
  pub recipient : Text
  pub amount : ℕ
  pub timelock : ℕ
  pub status : ℕ

unfoldable pub encode_htlc : HtlcData → Text
encode_htlc h =
    h.sender ++ (h.recipient ++ (le_bytes 16 h.amount ++ (le_bytes 8 h.timelock ++ h.status ∷ [])))

-- The bytes from `from` on, `n` of them.
abbrev pub slice : (from n : ℕ) → Text → Text
slice from n bytes = take n (drop from bytes)

unfoldable pub decode_htlc : Text → Option HtlcData
decode_htlc bytes =
    if ltb (length bytes) 65
    then none
    else some (record {
      sender = take 20 bytes;
      recipient = slice 20 20 bytes;
      amount = from_le (slice 40 16 bytes);
      timelock = from_le (slice 56 8 bytes);
      status = from_le (slice 64 1 bytes);
    })

abbrev pub hex_char : ℕ → ℕ
hex_char d = if ltb d 10 then b'0' + d else b'a' + (d - 10)

-- A byte's high and low four bits.
unfoldable pub hex_encode_32 : Text → Text
hex_encode_32 [] = []
hex_encode_32 (b ∷ bs) = hex_char (b / 16) ∷ hex_char (b % 16) ∷ hex_encode_32 bs

unfoldable pub init : Contract ℕ
init = do
  owner ← gets (λ s. s.caller)
  modify (storage_write (text "owner") owner)
  modify (write_bool (text "paused") false)
  modify (write_u64 (text "htlc_count") 0)
  modify (write_u64 (text "validator_count") 0)
  modify (write_u64 (text "min_signatures") 2)
  modify (write_u64 (text "fee_bps") 10)
  modify (emit_event (text "BridgeInitialized"))
  pure 0

unfoldable pub create_htlc : Text → Contract ℕ
create_htlc args = do
  require_not_paused
  refuse_if (ltb (length args) 60) (text "HTLCFailed:InvalidArgs")
  let key = htlc_key (hex_encode_32 (take 32 args))
  from ← gets (λ s. s.caller)
  amount ← gets (λ s. s.self_balance)
  refuse_if (amount == 0) (text "HTLCFailed:ZeroAmount")
  known ← gets (storage_read key)
  refuse_if (is_some known) (text "HTLCFailed:AlreadyExists")
  modify (
      storage_write key (
        encode_htlc (record {
          sender = from;
          recipient = slice 32 20 args;
          amount = amount;
          timelock = from_le (slice 52 8 args);
          status = 0;
        })))
  count ← gets (read_u64 (text "htlc_count"))
  modify (write_u64 (text "htlc_count") (add64 count 1))
  modify (emit_event (text "HTLCCreated"))
  pure 0

abbrev pub found : Option Text → Contract Text
found (some bytes) s = (ok bytes, s)
found none s = fail (emit_event (text "HTLCFailed:NotFound") s)

abbrev pub decoded : Option HtlcData → Contract HtlcData
decoded (some h) s = (ok h, s)
decoded none s = fail s

-- The result of the transfer is not looked at.
abbrev pub send : Text → ℕ → MockEnv → MockEnv
send to amount s = (Sdk.transfer to amount s).1

-- An amount as a u64.
abbrev pub as_u64 : ℕ → ℕ
as_u64 n = n % 2 ^ 64

-- Both ends of a swap, which differ in who may call, when, and with which status and event.
abbrev pub close_htlc : Text → HtlcData → (to : Text) → (status : ℕ) → (event : Text) → Contract ℕ
close_htlc key h to status event = do
  modify (send to (as_u64 h.amount))
  modify (storage_write key (encode_htlc (record h { status = status })))
  modify (emit_event event)
  pure 0

abbrev pub active_htlc : Text → Contract HtlcData
active_htlc key = do
  known ← gets (storage_read key)
  bytes ← found known
  h ← decoded (decode_htlc bytes)
  refuse_if (not (h.status == 0)) (text "HTLCFailed:NotActive")
  pure h

unfoldable pub claim_htlc : Text → Contract ℕ
claim_htlc preimage = do
  fail_if (ltb (length preimage) 1)
  let key = htlc_key (hex_encode_32 (simple_sha256 preimage))
  h ← active_htlc key
  from ← gets (λ s. s.caller)
  refuse_if (not (from == h.recipient)) (text "HTLCFailed:NotRecipient")
  now ← gets (λ s. s.block_timestamp)
  refuse_if (leb h.timelock now) (text "HTLCFailed:Expired")
  close_htlc key h h.recipient 1 (text "HTLCClaimed")

unfoldable pub refund_htlc : Text → Contract ℕ
refund_htlc args = do
  fail_if (ltb (length args) 32)
  let key = htlc_key (hex_encode_32 (take 32 args))
  h ← active_htlc key
  from ← gets (λ s. s.caller)
  refuse_if (not (from == h.sender)) (text "HTLCFailed:NotSender")
  now ← gets (λ s. s.block_timestamp)
  refuse_if (ltb now h.timelock) (text "HTLCFailed:NotExpired")
  close_htlc key h h.sender 2 (text "HTLCRefunded")

unfoldable pub bridge_lock : Text → Contract ℕ
bridge_lock args = do
  require_not_paused
  refuse_if (ltb (length args) 12) (text "BridgeLockFailed:InvalidArgs")
  let chain_len = from_le (take 4 args)
  fail_if (ltb (length args) (4 + chain_len + 4))
  let offset = 4 + chain_len
  let token_len = from_le (slice offset 4 args)
  fail_if (ltb (length args) (offset + 4 + token_len + 4))
  let offset2 = offset + 4 + token_len
  fail_if (ltb (length args) (offset2 + 4 + from_le (slice offset2 4 args)))
  amount ← gets (λ s. s.self_balance)
  refuse_if (amount == 0) (text "BridgeLockFailed:ZeroAmount")
  fee_bps ← gets (read_u64 (text "fee_bps"))
  let fee = mul128 amount fee_bps / 10000
  let key = locked_key (slice 4 chain_len args) (slice (offset + 4) token_len args)
  current ← gets (read_u128 key)
  modify (write_u128 key (add128 current (sub128 amount fee)))
  modify (emit_event (text "BridgeLocked"))
  pure 0

-- A slice up to `last`, which panics beyond the arguments.
abbrev pub must_have : (last : ℕ) → Text → Contract (Unit {0})
must_have last args = raise_if (ltb (length args) last) panicked

unfoldable pub bridge_mint : Text → Contract ℕ
bridge_mint args = do
  require_owner
  require_not_paused
  fail_if (ltb (length args) 44)
  let chain_len = from_le (take 4 args)
  let offset = 4 + chain_len
  must_have (offset + 4) args
  let token_len = from_le (slice offset 4 args)
  let offset2 = offset + 4 + token_len
  must_have (offset2 + 36) args
  let chain = slice 4 chain_len args
  let token = slice (offset + 4) token_len args
  let amount = from_le (slice (offset2 + 20) 16 args)
  let balance = wrapped_balance_key chain token (slice offset2 20 args)
  current ← gets (read_u128 balance)
  modify (write_u128 balance (add128 current amount))
  let total = wrapped_supply_key chain token
  supply ← gets (read_u128 total)
  modify (write_u128 total (add128 supply amount))
  modify (emit_event (text "WrappedMinted"))
  pure 0

unfoldable pub bridge_burn : Text → Contract ℕ
bridge_burn args = do
  require_not_paused
  fail_if (ltb (length args) 28)
  let chain_len = from_le (take 4 args)
  let offset = 4 + chain_len
  must_have (offset + 4) args
  let token_len = from_le (slice offset 4 args)
  let offset2 = offset + 4 + token_len
  must_have (offset2 + 16) args
  let chain = slice 4 chain_len args
  let token = slice (offset + 4) token_len args
  let amount = from_le (slice offset2 16 args)
  from ← gets (λ s. s.caller)
  let key = wrapped_balance_key chain token from
  balance ← gets (read_u128 key)
  refuse_if (ltb balance amount) (text "BurnFailed:InsufficientBalance")
  modify (write_u128 key (sub128 balance amount))
  let total = wrapped_supply_key chain token
  supply ← gets (read_u128 total)
  modify (write_u128 total (saturating_sub supply amount))
  modify (emit_event (text "WrappedBurned"))
  pure 0

unfoldable pub add_validator : Text → Contract ℕ
add_validator args = do
  require_owner
  fail_if (ltb (length args) 20)
  modify (write_bool (validator_key (take 20 args)) true)
  count ← gets (read_u64 (text "validator_count"))
  modify (write_u64 (text "validator_count") (add64 count 1))
  modify (emit_event (text "ValidatorAdded"))
  pure 0

abbrev pub count_down : ℕ → MockEnv → MockEnv
count_down count s = if ltb 0 count then write_u64 (text "validator_count") (sub64 count 1) s else s

unfoldable pub remove_validator : Text → Contract ℕ
remove_validator args = do
  require_owner
  fail_if (ltb (length args) 20)
  modify (write_bool (validator_key (take 20 args)) false)
  count ← gets (read_u64 (text "validator_count"))
  modify (count_down count)
  modify (emit_event (text "ValidatorRemoved"))
  pure 0

unfoldable pub pause : Contract ℕ
pause = do
  require_owner
  modify (write_bool (text "paused") true)
  modify (emit_event (text "BridgePaused"))
  pure 0

unfoldable pub unpause : Contract ℕ
unpause = do
  require_owner
  modify (write_bool (text "paused") false)
  modify (emit_event (text "BridgeUnpaused"))
  pure 0

-- A count as an i32: its lowest bits.
unfoldable pub htlc_count : Contract ℕ
htlc_count = do count ← gets (read_u64 (text "htlc_count")); pure (count % 2 ^ 32)

unfoldable pub validator_count : Contract ℕ
validator_count = do count ← gets (read_u64 (text "validator_count")); pure (count % 2 ^ 32)
