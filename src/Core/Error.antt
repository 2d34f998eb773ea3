-- ===== src/Core/Error.antt =====
-- crates/core/src/error.rs: the errors that validation returns. Where the code formats a message, a
-- constructor stands for its text and holds what is printed in it.
use rustblockchain.Base.{ℕ}
use rustblockchain.Base.Text.{Text}
use rustblockchain.Crypto.Hash.{CryptoError}

pub data TransactionReason : Type 0 where
  zero_gas_limit zero_gas_price : TransactionReason
  no_recipient deploy_recipient no_bytecode no_target : TransactionReason
  zero_stake zero_unstake wrong_sender : TransactionReason

pub data GenesisReason : Type 0 where
  unreadable unparsable : Text → GenesisReason
  no_validators no_gas : GenesisReason
  few_validators : (need got : ℕ) → GenesisReason
  low_stake : (address stake min : ℕ) → GenesisReason

mutual
  pub data BlockReason : Type 0 where
    unsupported_version : ℕ → BlockReason
    wrong_validator : BlockReason
    too_many_transactions : ℕ → BlockReason
    wrong_transactions_root : BlockReason
    bad_transaction : ℕ → CoreError → BlockReason

  pub data CoreError : Type 0 where
    invalid_block : BlockReason → CoreError
    invalid_transaction : TransactionReason → CoreError
    invalid_signature : CryptoError → CoreError
    genesis_error : GenesisReason → CoreError
    config_error serialization : Text → CoreError
    insufficient_balance : (have need : ℕ) → CoreError
    invalid_nonce : (expected got : ℕ) → CoreError
    gas_limit_exceeded : (limit used : ℕ) → CoreError
    data_too_large : (max got : ℕ) → CoreError
    chain_id_mismatch : (expected got : ℕ) → CoreError
