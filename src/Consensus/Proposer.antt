-- ===== src/Consensus/Proposer.antt =====
-- crates/consensus/src/pos.rs: the stake-weighted choice of the proposer. The seeded generator is
-- another crate's code: `draw seed total` is the number below `total` that ChaCha20's `gen_range`
-- gives for the seed.
pub mod Weighted
use rustblockchain.Base.{
  ℕ, ◌+◌, Bool, true, false, not, Option, none, some, List, [], ◌∷◌, if◌then◌else◌, ltb, Eq, ◌==◌,
  nat_eq, add128,
}
use rustblockchain.Base.Text.{text}
use rustblockchain.Base.Bytes.{le_bytes}
use rustblockchain.Crypto.Hash.{Primitives, hash_multiple}
use rustblockchain.Base.Result.{Result, ok, err, err_if, ◌>>=◌}
use rustblockchain.Core.Validator.{ValidatorInfo, sum_stake}

pub data ProposerError : Type 0 where
  no_active_validators zero_total_stake : ProposerError
  wrong_proposer : ℕ → ℕ → ProposerError

abbrev pub Draw : Type 0
Draw = ℕ → ℕ → ℕ

-- The number drawn for a block from its parent's hash and its number.
unfoldable pub target : Primitives → Draw → ℕ → ℕ → ℕ → ℕ
target c draw parent block total =
    draw (hash_multiple c (le_bytes 32 parent ∷ le_bytes 8 block ∷ text "proposer_selection" ∷ []))
      total

abbrev pub last_address : ValidatorInfo → List ValidatorInfo → ℕ
last_address v [] = v.address
last_address v (w ∷ ws) = last_address w ws

-- The loop over the cumulative stake; the second argument is the fallback.
unfoldable pub pick : ℕ → ℕ → ℕ → List ValidatorInfo → ℕ
pick drawn cumulative last [] = last
pick drawn cumulative last (v ∷ vs) =
    let next = add128 cumulative v.stake in
    let rest = pick drawn next last vs in if ltb drawn next then v.address else rest

unfoldable pub select_proposer :
    Primitives → Draw → List ValidatorInfo → ℕ → ℕ → Result ProposerError ℕ
select_proposer c draw [] parent block = err no_active_validators
select_proposer c draw (v ∷ []) parent block = ok v.address
select_proposer c draw (v ∷ w ∷ ws) parent block =
    let total = sum_stake (v ∷ w ∷ ws) in
    if total == 0
    then err zero_total_stake
    else ok (pick (target c draw parent block total) 0 (last_address w ws) (v ∷ w ∷ ws))

unfoldable pub verify_proposer :
    Primitives → Draw → ℕ → List ValidatorInfo → ℕ → ℕ → Result ProposerError (Unit {0})
verify_proposer c draw proposer vs parent block = do
  expected ← select_proposer c draw vs parent block
  err_if (not (proposer == expected)) (wrong_proposer expected proposer)
