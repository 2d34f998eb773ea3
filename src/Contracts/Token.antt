-- ===== src/Contracts/Token.antt =====
-- contracts/token/src/lib.rs: the token contract. `args` are the bytes at the pointer that an entry point
-- takes with their length.
pub mod Balances
use rustblockchain.Base.{
  ℕ, ◌+◌, ◌-◌, ◌%◌, ◌^◌, Bool, true, false, List, [], ◌∷◌, ◌++◌, if◌then◌else◌, Eq, ◌==◌, nat_eq,
  ltb, length, take, drop, not, add64, sub64,
}
use rustblockchain.Base.Text.{Text, text}
use rustblockchain.Base.Bytes.{from_le, le_bytes}
use rustblockchain.Base.Action.{pure, gets, modify, ◌>>=◌, ◌>>◌}
use rustblockchain.Contracts.Sdk.{MockEnv, Contract, storage_write, emit_event, fail_if, refuse_if}
use rustblockchain.Contracts.Sdk.Words.{read_u64, write_u64}

unfoldable pub balance_key : Text → Text
balance_key addr = text "balance:" ++ addr

unfoldable pub allowance_key : Text → Text → Text
allowance_key owner spender = text "allowance:" ++ (owner ++ b':' ∷ spender)

abbrev pub initial_supply : ℕ
initial_supply = 1000000000

unfoldable pub init : Contract ℕ
init = do
  owner ← gets (λ s. s.caller)
  modify (storage_write (text "name") (text "RustChain Token"))
  modify (storage_write (text "symbol") (text "RCT"))
  modify (storage_write (text "decimals") (18 ∷ []))
  modify (storage_write (text "owner") owner)
  modify (write_u64 (text "total_supply") initial_supply)
  modify (write_u64 (balance_key owner) initial_supply)
  modify (emit_event (text "TokenInitialized"))
  pure 0

-- A u64 as an i32: its lowest bits.
abbrev pub as_i32 : ℕ → ℕ
as_i32 n = n % 2 ^ 32

-- Both branches read the caller's balance.
unfoldable pub balance_of : Text → Contract ℕ
balance_of addr = do
  owner ← gets (λ s. s.caller)
  balance ← gets (read_u64 (balance_key owner))
  pure (as_i32 balance)

unfoldable pub transfer_tokens : Text → Contract ℕ
transfer_tokens args = do
  refuse_if (ltb (length args) 28) (text "TransferFailed:InvalidArgs")
  from ← gets (λ s. s.caller)
  caller_balance ← gets (read_u64 (balance_key from))
  let to_addr = take 20 args
  let amount = from_le (take 8 (drop 20 args))
  refuse_if (ltb caller_balance amount) (text "TransferFailed:InsufficientBalance")
  modify (write_u64 (balance_key from) (sub64 caller_balance amount))
  to_balance ← gets (read_u64 (balance_key to_addr))
  modify (write_u64 (balance_key to_addr) (add64 to_balance amount))
  modify (emit_event (text "Transfer"))
  pure 0

unfoldable pub approve : Text → Contract ℕ
approve args = do
  fail_if (ltb (length args) 28)
  owner ← gets (λ s. s.caller)
  modify (write_u64 (allowance_key owner (take 20 args)) (from_le (take 8 (drop 20 args))))
  modify (emit_event (text "Approval"))
  pure 0

unfoldable pub total_supply : Contract ℕ
total_supply = do supply ← gets (read_u64 (text "total_supply")); pure (as_i32 supply)
