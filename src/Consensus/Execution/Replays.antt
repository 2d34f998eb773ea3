-- ===== src/Consensus/Execution/Replays.antt =====
-- What the transactions of a block in crates/consensus/src/state.rs leave of an account's nonce, and
-- that none of them is executed again.
use rustblockchain.Base.{ℕ, nat_eq}
use rustblockchain.Base.Dict.{Dict}
use rustblockchain.Base.Text.{Text}
use rustblockchain.Core.Account.{Account}
use rustblockchain.Consensus.Ledger.{Ledger, load}

abbrev pub nonce_of : Ledger → ℕ → ℕ
nonce_of l a = (load l a).nonce
