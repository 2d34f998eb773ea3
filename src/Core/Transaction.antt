-- ===== src/Core/Transaction.antt =====
-- crates/core/src/transaction.rs: transactions, their basic validation, their cost and their
-- signature. The serializer is another crate's code: the parameter `serialize`.
pub mod Checks
use rustblockchain.Base.{
  ◌≡◌, ◌⊎◌, inl, inr, refl, ℕ, zero, suc, ◌*◌, Bool, true, false, not, Option, none, some, List, [],
  ◌∷◌, ◌++◌, Eq, ◌==◌, nat_eq, ltb, is_some, length, add128, mul128,
}
use rustblockchain.Base.Text.{Text}
use rustblockchain.Base.Bytes.{le_bytes}
use rustblockchain.Base.Result.{Result, ok, err, err_if, ◌>>=◌, ◌>>◌}
use rustblockchain.Core.Error.{
  TransactionReason, zero_gas_limit, zero_gas_price, no_recipient, deploy_recipient, no_bytecode,
  no_target, zero_stake, zero_unstake, wrong_sender, CoreError, invalid_transaction,
  invalid_signature, data_too_large,
}
use rustblockchain.Crypto.Hash.{Primitives, CryptoError, hash, to_address, verify_key}

pub data TxType : Type 0 where
  transfer contract_deploy contract_call stake unstake : TxType

pub TxType-cases :
    (k : TxType)
    → (k ≡ transfer) ⊎ (k ≡ contract_deploy) ⊎ (k ≡ contract_call) ⊎ (k ≡ stake) ⊎ (k ≡ unstake)
TxType-cases transfer = inl refl
TxType-cases contract_deploy = inr (inl refl)
TxType-cases contract_call = inr (inr (inl refl))
TxType-cases stake = inr (inr (inr (inl refl)))
TxType-cases unstake = inr (inr (inr (inr refl)))

pub record Transaction : Type 0 where
  pub chain_id : ℕ
  pub nonce : ℕ
  pub from : ℕ
  pub to : Option ℕ
  pub value : ℕ
  pub tx_type : TxType
  pub gas_limit : ℕ
  pub gas_price : ℕ
  pub data_bytes : Text
  pub timestamp : ℕ

pub record SignedTransaction : Type 0 where
  pub transaction : Transaction
  pub public_key : ℕ
  pub signature : ℕ
  pub tx_hash : ℕ

abbrev pub max_transaction_data_size : ℕ
max_transaction_data_size = 524288

unfoldable pub validate_type : Transaction → Result CoreError (Unit {0})
validate_type t = elim t.tx_type [
  | transfer ↦ err_if (not (is_some t.to)) (invalid_transaction no_recipient)
  | contract_deploy ↦
      err_if (is_some t.to) (invalid_transaction deploy_recipient)
      >> err_if (length t.data_bytes == 0) (invalid_transaction no_bytecode)
  | contract_call ↦ err_if (not (is_some t.to)) (invalid_transaction no_target)
  | stake ↦ err_if (t.value == 0) (invalid_transaction zero_stake)
  | unstake ↦ err_if (t.value == 0) (invalid_transaction zero_unstake)
]

unfoldable pub validate_basic : Transaction → Result CoreError (Unit {0})
validate_basic t =
    err_if (ltb max_transaction_data_size (length t.data_bytes))
      (data_too_large max_transaction_data_size (length t.data_bytes))
    >> err_if (t.gas_limit == 0) (invalid_transaction zero_gas_limit)
    >> err_if (t.gas_price == 0) (invalid_transaction zero_gas_price)
    >> validate_type t

-- A product of two 64-bit numbers as a u128.
unfoldable pub max_gas_cost : Transaction → ℕ
max_gas_cost t = mul128 t.gas_limit t.gas_price

unfoldable pub total_cost : Transaction → ℕ
total_cost t = add128 t.value (max_gas_cost t)

-- `?` and `map_err` turn a signature error into a core error.
abbrev pub checked_signature : Result CryptoError (Unit {0}) → Result CoreError (Unit {0})
checked_signature (ok u) = ok u
checked_signature (err e) = err (invalid_signature e)

module _ (c : Primitives) (serialize : Transaction → Text) where
  unfoldable pub signing_hash : Transaction → ℕ
  signing_hash t = hash c (serialize t)

  -- A signed transaction; `key` and `sign` are the key pair's.
  unfoldable pub new : (key : ℕ) (sign : Text → ℕ) → Transaction → SignedTransaction
  new key sign t =
      let signature = sign (le_bytes 32 (signing_hash t)) in
      record {
        transaction = t;
        public_key = key;
        signature = signature;
        tx_hash = hash c (serialize t ++ le_bytes 64 signature);
      }

  unfoldable pub verify : SignedTransaction → Result CoreError (Unit {0})
  verify s =
      validate_basic s.transaction
      >> err_if (not (to_address c s.public_key == s.transaction.from))
          (invalid_transaction wrong_sender)
      >> checked_signature
          (verify_key c s.public_key (le_bytes 32 (signing_hash s.transaction)) s.signature)
