-- ===== src/Contracts/Sdk.antt =====
-- contracts/sdk/src/lib.rs: what a contract calls of its host, with the environment that native targets
-- have. An address is the list of its 20 bytes. An entry point returns a code, may return one early, and
-- may abort or panic.
pub mod Words
use rustblockchain.Base.{
  ℕ, ◌+◌, ◌-◌, ◌^◌, Bool, true, false, Option, none, some, List, [], ◌∷◌, ◌++◌, if◌then◌else◌, leb,
}
use rustblockchain.Base.Dict.{Dict, lookup, insert}
use rustblockchain.Base.Text.{Text, text_eq}
use rustblockchain.Base.Result.{Result, ok, err}
use rustblockchain.Base.Action.{Action}

pub record MockEnv : Type 0 where
  pub storage : Dict Text Text
  pub caller : Text
  pub self_addr : Text
  pub block_number : ℕ
  pub block_timestamp : ℕ
  pub chain_id : ℕ
  pub self_balance : ℕ
  pub events : List Text
  pub transfers : List (Text × ℕ)

-- How an entry point ends before its last line.
pub data Stop : Type 0 where
  returned : ℕ → Stop
  aborted : Text → Stop
  panicked : Stop

abbrev pub Contract : Type 0 → Type 0
Contract = Action Stop MockEnv

-- -1 as an i32.
abbrev pub minus_one : ℕ
minus_one = 2 ^ 32 - 1

abbrev pub storage_read : Text → MockEnv → Option Text
storage_read key s = lookup key s.storage

abbrev pub storage_write : Text → Text → MockEnv → MockEnv
storage_write key value s = record s { storage = insert key value s.storage }

abbrev pub emit_event : Text → MockEnv → MockEnv
emit_event event s = record s { events = s.events ++ event ∷ [] }

unfoldable pub transfer : Text → ℕ → MockEnv → Bool × MockEnv
transfer to amount s =
    if leb amount s.self_balance
    then (
      true,
      record s {
        self_balance = s.self_balance - amount;
        transfers = s.transfers ++ (to, amount) ∷ [];
      },
    )
    else (false, s)

abbrev pub abort : {A : Type 0} → Text → Contract A
abort message s = (err (aborted message), s)

-- `return -1`, and the same behind an event.
abbrev pub fail : {A : Type 0} → Contract A
fail s = (err (returned minus_one), s)

abbrev pub fail_if : Bool → Contract (Unit {0})
fail_if true s = (err (returned minus_one), s)
fail_if false s = (ok tt, s)

abbrev pub refuse_if : Bool → Text → Contract (Unit {0})
refuse_if true event s = (err (returned minus_one), emit_event event s)
refuse_if false event s = (ok tt, s)
