-- ===== src/Core/Block.antt =====
-- crates/core/src/block.rs: blocks, their hash, and their basic validation.
pub mod Checks
use rustblockchain.Base.{
  ℕ, zero, suc, ◌+◌, Bool, true, false, not, Option, none, some, List, [], ◌∷◌, ◌++◌, map, Eq, ◌==◌,
  nat_eq, ltb, length, if◌then◌else◌,
}
use rustblockchain.Base.Text.{Text}
use rustblockchain.Base.Bytes.{le_bytes}
use rustblockchain.Base.Result.{Result, ok, err, err_if, ◌>>=◌, ◌>>◌}
use rustblockchain.Crypto.Hash.{Primitives, hash, to_address, verify_key}
use rustblockchain.Crypto.Merkle.{compute_merkle_root}
use rustblockchain.Core.Error.{
  CoreError, invalid_block, unsupported_version, wrong_validator, too_many_transactions,
  wrong_transactions_root, bad_transaction, data_too_large, gas_limit_exceeded,
}
use rustblockchain.Core.Transaction
use rustblockchain.Core.Transaction.{Transaction, SignedTransaction, checked_signature}

pub record BlockHeader : Type 0 where
  pub version : ℕ
  pub chain_id : ℕ
  pub number : ℕ
  pub timestamp : ℕ
  pub parent_hash : ℕ
  pub state_root : ℕ
  pub transactions_root : ℕ
  pub receipts_root : ℕ
  pub validator : ℕ
  pub validator_pubkey : ℕ
  pub validator_signature : ℕ
  pub epoch : ℕ
  pub gas_used : ℕ
  pub gas_limit : ℕ
  pub extra_data : Text

pub record Block : Type 0 where
  pub header : BlockHeader
  pub transactions : List SignedTransaction

abbrev pub protocol_version : ℕ
protocol_version = 1

abbrev pub max_extra_data_size : ℕ
max_extra_data_size = 256

abbrev pub max_block_transactions : ℕ
max_block_transactions = 10000

-- What the header's hash covers: all but the signature.
abbrev pub unsigned : BlockHeader → BlockHeader
unsigned h = record h { validator_signature = 0 }

unfoldable pub compute_transactions_root : Primitives → Block → ℕ
compute_transactions_root c b =
    if length b.transactions == 0
    then 0
    else compute_merkle_root c
        (map (λ (s : SignedTransaction). le_bytes 32 s.tx_hash) b.transactions)

unfoldable pub validate_header : Primitives → BlockHeader → Result CoreError (Unit {0})
validate_header c h =
    err_if (not (h.version == protocol_version)) (invalid_block (unsupported_version h.version))
    >> err_if (ltb max_extra_data_size (length h.extra_data))
        (data_too_large max_extra_data_size (length h.extra_data))
    >> err_if (ltb h.gas_limit h.gas_used) (gas_limit_exceeded h.gas_limit h.gas_used)
    >> err_if (not (to_address c h.validator_pubkey == h.validator)) (invalid_block wrong_validator)

-- The loop over the transactions, from position `i` on.
abbrev pub verify_from :
    Primitives → (Transaction → Text) → ℕ → List SignedTransaction → Result CoreError (Unit {0})
verify_from c serialize i [] = ok tt
verify_from c serialize i (s ∷ rest) = elim (Transaction.verify c serialize s) [
  | ok u ↦ verify_from c serialize (i + 1) rest
  | err e ↦ err (invalid_block (bad_transaction i e))
]

unfoldable pub validate_block :
    Primitives → (Transaction → Text) → Block → Result CoreError (Unit {0})
validate_block c serialize b =
    validate_header c b.header
    >> err_if (ltb max_block_transactions (length b.transactions))
        (invalid_block (too_many_transactions (length b.transactions)))
    >> err_if (not (compute_transactions_root c b == b.header.transactions_root))
        (invalid_block wrong_transactions_root)
    >> verify_from c serialize 0 b.transactions

module _ (c : Primitives) (serialize_header : BlockHeader → Text) where
  unfoldable pub hash_header : BlockHeader → ℕ
  hash_header h = hash c (serialize_header (unsigned h))

  unfoldable pub sign : (Text → ℕ) → BlockHeader → BlockHeader
  sign key h = record h { validator_signature = key (le_bytes 32 (hash_header h)) }

  unfoldable pub verify_signature : BlockHeader → Result CoreError (Unit {0})
  verify_signature h =
      checked_signature
        (verify_key c h.validator_pubkey (le_bytes 32 (hash_header h)) h.validator_signature)

unfoldable pub genesis :
    (chain_id timestamp validator validator_pubkey gas_limit : ℕ) → Text → Block
genesis chain_id timestamp validator validator_pubkey gas_limit extra_data = record {
  header = record {
    version = protocol_version;
    chain_id = chain_id;
    number = 0;
    timestamp = timestamp;
    parent_hash = 0;
    state_root = 0;
    transactions_root = 0;
    receipts_root = 0;
    validator = validator;
    validator_pubkey = validator_pubkey;
    validator_signature = 0;
    epoch = 0;
    gas_used = 0;
    gas_limit = gas_limit;
    extra_data = extra_data;
  };
  transactions = [];
}
