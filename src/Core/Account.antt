-- ===== src/Core/Account.antt =====
-- crates/core/src/account.rs: accounts.
use rustblockchain.Base.{ℕ, Bool, Option, none, some, leb, is_some, add64}

pub record Account : Type 0 where
  pub address : ℕ
  pub balance : ℕ
  pub nonce : ℕ
  pub code_hash : Option ℕ
  pub storage_root : ℕ

unfoldable pub new : ℕ → ℕ → Account
new address balance = record {
  address = address;
  balance = balance;
  nonce = 0;
  code_hash = none;
  storage_root = 0;
}

unfoldable pub new_contract : ℕ → ℕ → ℕ → Account
new_contract address balance code_hash = record {
  address = address;
  balance = balance;
  nonce = 0;
  code_hash = some code_hash;
  storage_root = 0;
}

unfoldable pub is_contract : Account → Bool
is_contract a = is_some a.code_hash

abbrev pub has_sufficient_balance : Account → ℕ → Bool
has_sufficient_balance a amount = leb amount a.balance

abbrev pub increment_nonce : Account → Account
increment_nonce a = record a { nonce = add64 a.nonce 1 }
