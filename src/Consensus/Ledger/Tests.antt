-- ===== src/Consensus/Ledger/Tests.antt =====
-- Tests of the ledger and the instances of its theorems.
use rustblockchain.Base.{
  ℕ, ◌+◌, ◌*◌, ◌+◌, ◌≤◌, ◌≡◌, ◌↔◌, ◌⊎◌, refl, none, some, [], ◌∷◌, arith, nat_eq,
}
use rustblockchain.Core.Account
use rustblockchain.Core.Account.{Account}
use rustblockchain.Core.Transaction.{
  SignedTransaction, TxType, max_gas_cost, total_cost, transfer, stake, unstake,
}
use rustblockchain.Core.Validator.{ValidatorInfo, get_validator, new_info}
use rustblockchain.Consensus.Ledger.{
  Ledger, apply_transfer, apply_unstake, prepare, load, succeeded, gas_refund,
}
use rustblockchain.Consensus.Ledger.Transfers.{
  IsPayable, apply_transfer_lem, apply_transfer_self, fee,
}
use rustblockchain.Consensus.Ledger.Staking.{apply_unstake_iff}

abbrev account : ℕ → ℕ → ℕ → Account
account address balance nonce = record {
  address = address;
  balance = balance;
  nonce = nonce;
  code_hash = none;
  storage_root = 0;
}

-- The gas costs at most 60000, and 42000 for a transfer.
abbrev signed : TxType → ℕ → ℕ → SignedTransaction
signed kind to value = record {
  transaction = record {
    chain_id = 1;
    nonce = 7;
    from = 1;
    to = some to;
    value = value;
    tx_type = kind;
    gas_limit = 30000;
    gas_price = 2;
    data_bytes = [];
    timestamp = 0;
  };
  public_key = 11;
  signature = 0;
  tx_hash = 99;
}

abbrev ledger : Ledger
ledger = record {
  modified = [];
  stored = (1, account 1 100000 7) ∷ (2, account 2 50 0) ∷ [];
  validator_set = record {
    validators = new_info 1 11 5000 ∷ [];
    total_stake = 5000;
    min_stake = 1000;
    max_validators = 10;
  };
  stored_validators = [];
}

balance_test : (load (apply_transfer (signed transfer 2 300) ledger).1 1).balance ≡ 57700
unfolding apply_transfer prepare load gas_refund Account.new max_gas_cost total_cost
balance_test = refl

transfer-IsPayable : IsPayable ledger (signed transfer 2 300).transaction
unfolding load Account.new
transfer-IsPayable = record {
  right_nonce = refl;
  small_gas = omega arith;
  enough = omega arith;
  small_balance = omega arith;
  small_nonce = omega arith;
}

self-IsPayable : IsPayable ledger (signed transfer 1 300).transaction
unfolding load Account.new
self-IsPayable = record {
  right_nonce = refl;
  small_gas = omega arith;
  enough = omega arith;
  small_balance = omega arith;
  small_nonce = omega arith;
}

stake-IsPayable : IsPayable ledger (signed stake 1 300).transaction
unfolding load Account.new
stake-IsPayable = record {
  right_nonce = refl;
  small_gas = omega arith;
  enough = omega arith;
  small_balance = omega arith;
  small_nonce = omega arith;
}

unstake-IsPayable : IsPayable ledger (signed unstake 1 4500).transaction
unfolding load Account.new
unstake-IsPayable = record {
  right_nonce = refl;
  small_gas = omega arith;
  enough = omega arith;
  small_balance = omega arith;
  small_nonce = omega arith;
}

abbrev other : ℕ
other = 3

apply_transfer_lem_example :
    let s = signed transfer 2 300 in
    let l' = (apply_transfer s ledger).1 in
    ((apply_transfer s ledger).0 ≡ succeeded)
    × ((load l' 1).balance + 300 + fee s.transaction ≡ (load ledger 1).balance)
    × ((load l' 1).nonce ≡ (load ledger 1).nonce + 1)
    × ((load l' 2).balance ≡ (load ledger 2).balance + 300)
    × ((other ≡ 1) ⊎ (other ≡ 2) ⊎ (load l' other ≡ load ledger other))
unfolding load Account.new
apply_transfer_lem_example =
    apply_transfer_lem (signed transfer 2 300) ledger other transfer-IsPayable (omega arith)
      (omega arith)

apply_transfer_self_example :
    let s = signed transfer 1 300 in
    ((apply_transfer s ledger).0 ≡ succeeded)
    × ((load (apply_transfer s ledger).1 1).balance + 300 + fee s.transaction
        ≡ (load ledger 1).balance)
apply_transfer_self_example = apply_transfer_self (signed transfer 1 300) ledger self-IsPayable refl

apply_unstake_iff_example :
    let t = (signed unstake 1 50000).transaction in
    ((apply_unstake (signed unstake 1 50000) ledger).0 ≡ succeeded) ↔ (
      (t.nonce ≡ (load ledger 1).nonce)
      × (t.value + t.gas_limit * t.gas_price ≤ (load ledger 1).balance)
      × ((v : ValidatorInfo) × (get_validator ledger.validator_set 1 ≡ some v)
          × (t.value ≤ v.stake)))
apply_unstake_iff_example = apply_unstake_iff (signed unstake 1 50000) ledger (omega arith)
