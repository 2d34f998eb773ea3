-- ===== src/Consensus/Engine/Tests.antt =====
-- Tests of the consensus engine and the instances of its theorems.
use rustblockchain.Base.{
  ℕ, ◌≡◌, ◌≢◌, refl, false, true, none, some, List, [], ◌∷◌, ◌++◌, arith, pair_eq, nat_eq,
}
use rustblockchain.Base.Dict.{lookup}
use rustblockchain.Base.Bytes.{le_bytes, from_le}
use rustblockchain.Base.Result.{ok, err, is_ok}
use rustblockchain.Crypto.Hash.{to_address}
use rustblockchain.Core.Block
use rustblockchain.Core.Block.{
  Block, hash_header, sign, compute_transactions_root, validate_header, validate_block,
  verify_signature,
}
use rustblockchain.Core.Receipt.{TransactionReceipt, success}
use rustblockchain.Core.Validator.{active_validators, new_set}
use rustblockchain.Core.Genesis.{to_validator_infos, validate, to_genesis_block}
use rustblockchain.Storage.{get_block_by_number, put_block, put_epoch}
use rustblockchain.Storage.Keys.{encode_block_number, be_bytes}
use rustblockchain.Consensus.Finality
use rustblockchain.Consensus.Slashing.{detect_double_sign}
use rustblockchain.Consensus.Proposer.{select_proposer, verify_proposer}
use rustblockchain.Consensus.TxPool
use rustblockchain.Consensus.TxPool.{select_transactions}
use rustblockchain.Consensus.Samples.{
  call_of, genesis, empty, first, first_block, primitives, wasm, to_hex, serialize_header, engine,
  params, block,
}
use rustblockchain.Core.Account
use rustblockchain.Core.Transaction.{transfer, max_gas_cost, total_cost}
use rustblockchain.Base.Sorting.{sort_by}
use rustblockchain.Consensus.Ledger.{apply_transfer, prepare, load}
use rustblockchain.Consensus.Execution.{Cause, execute_from, apply_transaction}
use rustblockchain.Consensus.Chain.{apply_block, first_storage, from_genesis}
use rustblockchain.Consensus.Chain.Blocks.{IsStored}
use rustblockchain.Consensus.Engine.{
  Services, ConsensusEngine, ConsensusEvent, KeyPair, new, double_sign_detected, new_block, produce,
  on_block_received, try_produce_block, draft, sealed, check_seen, hash_block,
}
use rustblockchain.Consensus.Engine.Sound.{Follows}
use rustblockchain.Consensus.Engine.Handlers.{slot}
use rustblockchain.Consensus.Engine.Histories.{fresh, Reached-Follows}
use rustblockchain.Consensus.Engine.DoubleSigns.{double_sign_keeps_epoch}
use rustblockchain.Consensus.Engine.Producing.{try_produce_block_adds, next_block_refused}

abbrev services : Services (Unit {0})
services = record {
  wasm = wasm;
  crypto = primitives;
  to_hex = to_hex;
  serialize = λ t. t.nonce ∷ [];
  serialize_header = serialize_header;
  draw = λ seed total. 0;
}

abbrev node : ConsensusEngine (Unit {0})
node = record {
  config = record {
    chain_id = 1;
    block_time_ms = 5000;
    max_transactions_per_block = 10;
    mempool_size = 10;
    min_gas_price = 1;
    enable_block_production = true;
    consensus_params = params;
    gas_limit_per_block = 1000000;
  };
  chain_state = first;
  tx_pool = TxPool.new 10 1;
  finality = Finality.new first.current_epoch.validator_set;
  vm_engine = engine;
  events = [];
  seen_blocks = ((1, 11), 77) ∷ [];
}

abbrev keys : KeyPair
keys = record { public_key = 11; sign_bytes = λ bytes. 0 }

-- The node when it has just started.
abbrev fresh_node : ConsensusEngine (Unit {0})
fresh_node = record node { seen_blocks = [] }

new_test : new services node.config genesis empty engine ≡ some (ok fresh_node)
unfolding new from_genesis validate to_genesis_block
new_test = refl

Reached-Follows_example :
    (b : Block) × (to_genesis_block genesis ≡ some b)
    × Follows services
        (hash_header primitives serialize_header b.header)
        fresh_node
        (try_produce_block services keys 5 fresh_node).1
Reached-Follows_example =
    Reached-Follows services node.config genesis fresh_node
      (try_produce_block services keys 5 fresh_node).1 (omega arith)
      (fresh empty engine fresh_node refl new_test) (slot keys 5 fresh_node)

first-IsStored : IsStored primitives serialize_header 0 first
unfolding first_storage put_block put_epoch get_block_by_number Block.genesis hash_header
    to_validator_infos encode_block_number be_bytes
first-IsStored = record {
  head_number = refl;
  height_stored = refl;
  head_stored = refl;
  genesis_stored = refl;
}

turn_test :
    select_proposer primitives services.draw
      (active_validators first.current_epoch.validator_set)
      (hash_block services first_block)
      1
    ≡ ok (to_address primitives 11)
unfolding select_proposer active_validators new_set to_validator_infos to_address le_bytes from_le
turn_test = refl

try_produce_block_adds_example :
    let r = try_produce_block services keys 5 node in
    let b = draft services keys 5 node in
    (r.0 ≡ ok tt)
    × (r.1.chain_state.height ≡ 1)
    × (r.1.chain_state.head ≡ b)
    × ((receipts : List (TransactionReceipt Cause)) × (earlier : List ConsensusEvent)
        × ((apply_block primitives serialize_header wasm to_hex b engine first).0 ≡ ok receipts)
        × (r.1.events ≡ earlier ++ new_block (sealed services keys receipts b) ∷ []))
unfolding Block.genesis
try_produce_block_adds_example =
    try_produce_block_adds services 0 5 keys node first-IsStored turn_test

-- The node with a transfer in its pool, which the next block takes.
abbrev busy : ConsensusEngine (Unit {0})
busy = record node {
  tx_pool = record (TxPool.new 10 1) {
    pending = (99, record { tx = call_of transfer; added_at = 0; gas_price = 2 }) ∷ [];
  };
}

abbrev receipts : List (TransactionReceipt Cause)
receipts =
    record {
      tx_hash = 99;
      block_number = 1;
      block_hash = 1;
      index = 0;
      status = success;
      gas_used = 21000;
      logs = [];
      contract_address = none;
      return_data = [];
    }
    ∷ []

abbrev made : Block
made = draft services keys 5 busy

taken_test : (apply_block primitives serialize_header wasm to_hex made engine first).0 ≡ ok receipts
unfolding apply_block execute_from apply_transaction apply_transfer prepare load max_gas_cost
    total_cost Account.new hash_header Block.genesis select_transactions sort_by TxPool.new
    first_storage put_block put_epoch to_validator_infos
taken_test = refl

differ_test : hash_block services (sealed services keys receipts made) ≢ hash_block services made
unfolding hash_header sign Block.genesis
differ_test e = absurd (omega arith)

abbrev follower : ConsensusEngine (Unit {0})
follower = record node {
  chain_state = record first { head = sealed services keys receipts made; height = 1 };
}

next_block_refused_example :
    let next = sealed services keys [] (draft services keys 6 (produce services keys 5 busy).1) in
    is_ok (on_block_received services next 7 follower).0 ≡ false
next_block_refused_example =
    next_block_refused services 5 6 7 keys busy follower receipts [] taken_test differ_test refl

-- The node has seen another block with this number from its validator.
double_sign_test : (on_block_received services (block 0 []) 5 node).0 ≡ err double_sign_detected
unfolding on_block_received validate_block validate_header compute_transactions_root verify_proposer
    select_proposer active_validators new_set to_validator_infos to_address le_bytes from_le
    verify_signature check_seen detect_double_sign hash_header Block.genesis
double_sign_test = refl

double_sign_keeps_epoch_example :
    ((on_block_received services (block 0 []) 5 node).1.chain_state.current_epoch
      ≡ first.current_epoch)
    × ((prev_hash : ℕ) × (lookup (1, 11) node.seen_blocks ≡ some prev_hash)
        × (prev_hash ≢ hash_block services (block 0 [])))
double_sign_keeps_epoch_example =
    double_sign_keeps_epoch services 5 (block 0 []) node double_sign_test
