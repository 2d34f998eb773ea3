-- ===== src/Consensus/Samples.antt =====
-- A small chain for the tests: one validator, one block after the genesis, and stand-ins for other
-- crates' code. A hash is the sum of the bytes, every signature is valid, and each contract's call
-- credits its caller.
use rustblockchain.Base.{ℕ, true, Option, none, some, List, [], ◌∷◌, sum_by}
use rustblockchain.Base.Text.{Text, text}
use rustblockchain.Base.Result.{ok}
use rustblockchain.Crypto.Hash.{Primitives}
use rustblockchain.Core.Account.{Account}
use rustblockchain.Core.Block
use rustblockchain.Core.Block.{Block, BlockHeader}
use rustblockchain.Core.Genesis.{GenesisConfig}
use rustblockchain.Core.Params.{ConsensusParams, default_params}
use rustblockchain.Core.Transaction.{SignedTransaction, TxType}
use rustblockchain.Storage.{ChainDatabase}
use rustblockchain.Vm.Gas.{default_costs}
use rustblockchain.Vm.Engine.{Wasmtime, WasmEngine, HostState, default_config}
use rustblockchain.Consensus.Execution.{World, Cause}
use rustblockchain.Consensus.Chain.{ChainState, first_epoch, first_storage}

abbrev pub primitives : Primitives
primitives = record {
  blake3 = λ bytes. sum_by (λ b. b) bytes;
  ed25519 = λ key message signature. true;
}

abbrev pub credit_caller : HostState → HostState
credit_caller host = record host {
  context = record host.context { balance_changes = (1, 500) ∷ [] };
}

abbrev pub wasm : Wasmtime (Unit {0})
wasm = record {
  Store = HostState;
  validate = λ code. ok tt;
  compile = λ code. ok tt;
  instantiate = λ fuel host m. ok host;
  call = λ name args store. some (ok 0, credit_caller store);
  write = λ ptr bytes store. some (ok store);
  host_state = λ store. store;
}

abbrev pub serialize_header : BlockHeader → Text
serialize_header h = h.number ∷ h.gas_used ∷ h.parent_hash ∷ []

abbrev pub to_hex : ℕ → Text
to_hex n = []

abbrev pub account : ℕ → ℕ → Option ℕ → Account
account address balance code_hash = record {
  address = address;
  balance = balance;
  nonce = 0;
  code_hash = code_hash;
  storage_root = 0;
}

abbrev pub empty : ChainDatabase Cause
empty = record {
  blocks = [];
  block_hashes = [];
  signed_transactions = [];
  tx_index = [];
  accounts = [];
  receipts = [];
  validators = [];
  epochs = [];
  contracts = [];
  contract_storage = [];
  chain_height = none;
  best_block_hash = none;
  genesis_hash = none;
}

abbrev pub params : ConsensusParams
params = record default_params { min_stake = 1000; epoch_length = 10 }

abbrev pub genesis : GenesisConfig
genesis = record {
  chain_id = 1;
  chain_name = text "test";
  timestamp = 0;
  initial_validators = record { address = 11; public_key = 11; stake = 5000 } ∷ [];
  initial_accounts = record { address = 1; balance = 100000 } ∷ [];
  consensus_params = params;
  gas_limit = 1000000;
}

-- A call of the contract at 2 by the account 1.
abbrev pub call_of : TxType → SignedTransaction
call_of kind = record {
  transaction = record {
    chain_id = 1;
    nonce = 0;
    from = 1;
    to = some 2;
    value = 300;
    tx_type = kind;
    gas_limit = 30000;
    gas_price = 2;
    data_bytes = [];
    timestamp = 0;
  };
  public_key = 11;
  signature = 0;
  tx_hash = 99;
}

abbrev pub engine : WasmEngine (Unit {0})
engine = record { module_cache = (7, tt) ∷ []; config = default_config; gas_costs = default_costs }

abbrev pub world : World (Unit {0})
world = record {
  ledger = record {
    modified = [];
    stored = (1, account 1 100000 none) ∷ (2, account 2 50 (some 7)) ∷ [];
    validator_set = record {
      validators = [];
      total_stake = 0;
      min_stake = 1000;
      max_validators = 10;
    };
    stored_validators = [];
  };
  storage = empty;
  engine = engine;
}

abbrev pub block : ℕ → List SignedTransaction → Block
block parent_hash txs = record {
  header = record {
    version = 1;
    chain_id = 1;
    number = 1;
    timestamp = 5;
    parent_hash = parent_hash;
    state_root = 0;
    transactions_root = 0;
    receipts_root = 0;
    validator = 11;
    validator_pubkey = 11;
    validator_signature = 0;
    epoch = 0;
    gas_used = 0;
    gas_limit = 1000000;
    extra_data = [];
  };
  transactions = txs;
}

abbrev pub first_block : Block
first_block = Block.genesis 1 0 11 11 1000000 (text "rustchain genesis: test")

abbrev pub first : ChainState
first = record {
  head = first_block;
  height = 0;
  current_epoch = first_epoch genesis;
  storage = first_storage primitives serialize_header genesis first_block empty;
}
