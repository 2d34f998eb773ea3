-- ===== src/Consensus/Execution/Tests.antt =====
-- Tests of the execution of transactions and the instances of its theorems.
use rustblockchain.Base.{◌≡◌, true, ◌⊎◌, refl, none, [], arith}
use rustblockchain.Base.Text.{text}
use rustblockchain.Base.Result.{ok}
use rustblockchain.Core.Account
use rustblockchain.Core.Account.{Account}
use rustblockchain.Core.Receipt.{success}
use rustblockchain.Core.Transaction.{contract_call, max_gas_cost, total_cost}
use rustblockchain.Vm.Context
use rustblockchain.Vm.Gas
use rustblockchain.Vm.Gas.{remaining}
use rustblockchain.Vm.Engine.{call_contract, load_module, execute_function, run}
use rustblockchain.Consensus.Ledger.{load, prepare, credit}
use rustblockchain.Consensus.Samples.{primitives, wasm, to_hex, account, call_of, world, block}
use rustblockchain.Consensus.Execution.{apply_call, call_code, refund_after}
use rustblockchain.Consensus.Execution.Calls.{apply_call_sender}
use rustblockchain.Crypto.Hash.{Primitives}
use rustblockchain.Core.Transaction.{SignedTransaction}
use rustblockchain.Consensus.Execution.Names.{extract_function_name}

abbrev sender : Account
sender = record (account 1 40000 none) { nonce = 1 }

prepared_call_test : prepare world.ledger (call_of contract_call) ≡ ok sender
unfolding prepare load max_gas_cost total_cost Account.new
prepared_call_test = refl

name_test : extract_function_name (text "abc") ≡ (text "call", text "abc")
unfolding extract_function_name
name_test = ground arith

-- The contract at 2 pays 500 to the account 1, which has its gas back and nothing more.
call_test :
    let r = apply_call wasm primitives to_hex (block 0 []).header (call_of contract_call) world in
    (r.0.status ≡ success) × ((load r.1.ledger 1).balance ≡ 100000)
unfolding apply_call call_code call_contract load_module execute_function run remaining
    extract_function_name prepare load max_gas_cost total_cost Account.new Context.new Gas.new
call_test = (refl, refl)

-- A stand-in for a hash under which no contract gets the address 1.
abbrev constant : Primitives
constant = record { blake3 = λ bytes. 7; ed25519 = λ key message signature. true }

-- The sender's next transaction.
abbrev next_call : SignedTransaction
next_call =
    let s = call_of contract_call in
    record s { transaction = record s.transaction { nonce = 1 }; tx_hash = 100 }

apply_call_sender_example :
    let s = call_of contract_call in
    let r = apply_call wasm primitives to_hex (block 0 []).header s world in
    (load r.1.ledger 1 ≡ sender)
    ⊎ (load r.1.ledger 1 ≡ credit (refund_after r.0.gas_used s.transaction) sender)
apply_call_sender_example =
    apply_call_sender wasm primitives to_hex (block 0 []).header (call_of contract_call) world
      sender prepared_call_test
