-- ===== src/Core/Receipt.antt =====
-- crates/core/src/receipt.rs: what the execution of a transaction leaves behind. `F` is the type of
-- what a failure's text says.
use rustblockchain.Base.{ℕ, Bool, true, false, Option, List}
use rustblockchain.Base.Text.{Text}

pub data TxStatus {ℓ} (F : Type ℓ) : Type ℓ where
  success : TxStatus F
  failure : F → TxStatus F
  out_of_gas : TxStatus F

pub record EventLog : Type 0 where
  pub address : ℕ
  pub topics : List ℕ
  pub data_bytes : Text

pub record TransactionReceipt {ℓ} (F : Type ℓ) : Type ℓ where
  pub tx_hash : ℕ
  pub block_number : ℕ
  pub block_hash : ℕ
  pub index : ℕ
  pub status : TxStatus F
  pub gas_used : ℕ
  pub logs : List EventLog
  pub contract_address : Option ℕ
  pub return_data : Text

abbrev pub is_success {ℓ} : {F : Type ℓ} → TransactionReceipt F → Bool
is_success r = elim r.status [ success ↦ true | failure f ↦ false | out_of_gas ↦ false ]
