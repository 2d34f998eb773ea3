-- ===== src/Lib.antt =====
-- rustchain: a proof-of-stake chain with a cross-chain bridge.
--
-- The chain's core records, accounts, transactions, blocks and validator sets, are those of
-- crates/core, over the hashes, signatures and Merkle trees of crates/crypto. The transaction pool
-- of crates/consensus holds what a block may take; the proposer is chosen by stake; a block's
-- transactions change the accounts and the validators; votes make it final; evidence of
-- misbehaviour is slashed. The engine of crates/consensus puts these together over the chain state
-- and the database of crates/storage, and calls contracts by the virtual machine of crates/vm. The
-- bridge of crates/bridge keeps hash time-locked swaps, the records and ledgers of cross-chain
-- transfers and a set of validators of its own, which the relayer puts together. Two contracts, a
-- token and the chain's side of the bridge, stand under contracts.
--
-- Where the code is modelled:
--   Base: lists, dictionaries, sorting, texts, bytes, words, results, and actions on a state.
--   Crypto/Hash: hash and hash_multiple of crates/crypto/src/hash.rs, to_address and verify of
--     keypair.rs. Crypto/Merkle: MerkleTree of merkle.rs; Proofs and Binding are about its proofs.
--   Core/Account, Block, Epoch, Error, Genesis, Params, Receipt, Transaction, Validator: the files
--     of crates/core/src of those names (Params: the consensus parameters of genesis.rs; Genesis:
--     the rest of it). `validate_header` and `validate_block` are the two functions validate_basic
--     of block.rs, `new_info` and `new_set` the two functions new of validator.rs. Checks, under
--     Block and Transaction, says what is accepted.
--   Vm/Gas: crates/vm/src/gas.rs; Metering is about sequences of charges. Vm/Error: error.rs.
--     Vm/Context: context.rs; Balances is about its balance changes. Vm/Engine: engine.rs, with
--     `execute_function`, `deploy_contract` and `call_contract`; Host has the host functions,
--     Calls is about failing calls.
--   Storage/Keys: the keys of crates/storage/src. Storage: the stores of blocks, state, validators
--     and receipts; Blocks is about reading back.
--   Consensus/Finality: crates/consensus/src/finality.rs; Heights, Votes and Keys are about it.
--   Consensus/Slashing: slashing.rs; Penalty. Consensus/Proposer: pos.rs; Weighted.
--   Consensus/TxPool: tx_pool.rs, `insert_transaction` and `remove_transaction` being insert and
--     remove; Index, Removal and Selection are about it.
--   Consensus/Ledger: of state.rs the guards (`prepare`) and the branches for a transfer, a stake
--     and an unstake of apply_block; Transfers and Staking are about them.
--   Consensus/Execution: the loop of apply_block over a block's transactions (`execute_from`), one
--     round of it (`apply_transaction`), and its branches for contracts (`apply_deploy`,
--     `apply_call`); Names has the messages, Calls, Kept and Replays are about it.
--   Consensus/Chain: the rest of state.rs: `from_genesis` and `load_chain` are from_genesis,
--     `apply_block` and `commit` are apply_block, and maybe_advance_epoch; Blocks, Epochs and
--     Restart are about it.
--   Consensus/Engine: engine.rs; Received, Applied and Handlers are about its handlers, Sound says
--     what they keep, Histories is about all calls since the first start, DoubleSigns and
--     Producing are about double signs and new blocks. Samples has data for the tests.
--   Bridge/Types: types.rs and error.rs of crates/bridge/src. Bridge/Htlc: htlc.rs; History,
--     Invariant, Settlement. Bridge/State: state.rs; History, Ids, Supply, Transfers.
--     Bridge/Validators: validator.rs; Weight, Threshold. Bridge/Relay: relay.rs; Fees, Finalize,
--     Confirm, History. `get_mut` and `put_...` are the lookup of an entry and the writes through it.
--   Contracts/Sdk: the native mock of contracts/sdk/src/lib.rs; Words is about its numbers in
--     bytes. Contracts/Token: contracts/token/src/lib.rs; Balances. Contracts/Bridge:
--     contracts/bridge/src/lib.rs; Sha256 is the contract's own hash, Encoding is about the
--     encoding of swaps, Swaps about their ends, Histories about all calls, Keeping about what the other entry
--     points leave of them, Guards about who may call what.
--   The modules named Tests hold runs on concrete data and instances of the theorems.
--
-- How it is modelled: a method is a function from the component's state to a result and the state
-- after it, so that what was written before an error stays written. A concurrent map is a list of
-- entries with unique keys, read in the order of insertion; a lock is not modelled, since each
-- call here is one step. Numbers are natural numbers; an operation of w bits that wraps in a
-- release build is taken modulo 2 ^ w, and a theorem that needs a sum or product to fit says so.
-- An address, a key, a hash and a signature are the numbers of their bytes, and in the contracts
-- the bytes themselves. The clock is an argument. What is not code of the repository is a
-- parameter: BLAKE3 and Ed25519 (`Primitives`), SHA-256, hexadecimal printing, the serializers,
-- the seeded generator, the answers of foreign chains, and Wasmtime, which runs an instance
-- against the host functions. RocksDB is a dictionary for each column family, whose writes
-- succeed. An error holds what its message prints, and stands for the message.
--
-- Bounds: decimal printing runs on 39 digits, which every u128 has room in; the layers of a Merkle
-- tree are built on as much fuel as there are leaves, and each layer is shorter than the last; the
-- padding of the contract's SHA-256 takes at most 64 rounds, since one of 64 lengths in a row is
-- right. Every other recursion is structural.
--
-- Not modelled: the loop of the consensus engine that waits for timers and channels (its calls of
-- the handlers are the steps of the model), and locks; opening and flushing the database and its
-- schema; the abort function and the options of the virtual machine; the WASM bindings of the
-- contract SDK; reading and writing files of genesis and configuration; network, API, node and
-- wallet, which are I/O; key files and mnemonics; the chain adapters and the token registry.
pub mod Base
pub mod Crypto
pub mod Core
pub mod Vm
pub mod Storage
pub mod Bridge
pub mod Consensus
pub mod Contracts
