-- ===== src/Core/Tests.antt =====
-- Tests of the core records and the instances of their theorems.
use rustblockchain.Base.{ℕ, ◌≤◌, ◌≡◌, ◌↔◌, refl, true, some, [], ◌∷◌, length, All}
use rustblockchain.Base.Text.{Text, text}
use rustblockchain.Base.Result.{ok, err}
use rustblockchain.Crypto.Hash.{Primitives}
use rustblockchain.Core.Error.{zero_gas_price, invalid_transaction}
use rustblockchain.Core.Transaction.{Transaction, SignedTransaction, transfer, validate_basic}
use rustblockchain.Core.Block.{
  Block, validate_block, genesis, compute_transactions_root, max_block_transactions,
}
use rustblockchain.Core.Block.Checks.{IsBasicHeader, Verified, validate_block_iff}

-- Stand-ins: every signature is valid, and a hash is the number of bytes.
abbrev primitives : Primitives
primitives = record { blake3 = length; ed25519 = λ key message signature. true }

abbrev serialize : Transaction → Text
serialize t = t.nonce ∷ []

abbrev signed : ℕ → SignedTransaction
signed gas_price = record {
  transaction = record {
    chain_id = 1;
    nonce = 0;
    from = 32;
    to = some 5;
    value = 10;
    tx_type = transfer;
    gas_limit = 21000;
    gas_price = gas_price;
    data_bytes = [];
    timestamp = 0;
  };
  public_key = 11;
  signature = 0;
  tx_hash = 99;
}

free_gas_test : validate_basic (signed 0).transaction ≡ err (invalid_transaction zero_gas_price)
unfolding validate_basic
free_gas_test = refl

abbrev block : Block
block = genesis 1 0 32 11 1000000 (text "start")

validate_block_iff_example : (validate_block primitives serialize block ≡ ok tt) ↔ (
    IsBasicHeader primitives block.header
    × (length block.transactions ≤ max_block_transactions)
    × (compute_transactions_root primitives block ≡ block.header.transactions_root)
    × All (Verified primitives serialize) block.transactions)
validate_block_iff_example = validate_block_iff primitives serialize block
