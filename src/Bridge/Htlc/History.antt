-- ===== src/Bridge/Htlc/History.antt =====
-- Histories of the swap manager (crates/bridge/src/htlc.rs): any sequence of its state-changing
-- calls, each with its own clock reading.
use rustblockchain.Base.{
  ℕ, ◌≡◌, ◌⊎◌, inl, inr, some, List, [], ◌∷◌, map, arith, nat_eq, Option-cases,
}
use rustblockchain.Base.Dict.{Dict, lookup, lookup-insert, lookup-insert_fresh}
use rustblockchain.Base.Text.{Text, text_eq, text_beq_iff}
use rustblockchain.Bridge.Types.{claimed, refunded, htlc_status_eq}
use rustblockchain.Bridge.Htlc.{
  HtlcSwap, HtlcManager, Request, create_swap, claim_swap, refund_swap, expire_stale_swaps,
  expire_one,
}

pub data Call : Type 0 where
  creates : Request → ℕ → Call
  claims : Text → Text → ℕ → ℕ → Call
  refunds : Text → ℕ → ℕ → Call
  expires : ℕ → Call

module _ (encode : ℕ → Text) (sha256 : Text → ℕ) where
  abbrev pub step : HtlcManager → Call → HtlcManager
  step m (creates r now) = (create_swap encode r now m).1
  step m (claims id preimage claimer now) = (claim_swap sha256 id preimage claimer now m).1
  step m (refunds id refunder now) = (refund_swap id refunder now m).1
  step m (expires now) = (expire_stale_swaps now m).1

  abbrev pub run : HtlcManager → List Call → HtlcManager
  run m [] = m
  run m (c ∷ cs) = run (step m c) cs

-- The swap was paid out, to the recipient or back to the sender.
abbrev pub IsSettled : HtlcSwap → Type 0
IsSettled s = (s.status ≡ claimed) ⊎ (s.status ≡ refunded)

expire_one-settled :
    (now : ℕ) (id : Text) (s : HtlcSwap) → IsSettled s → expire_one now (id, s) ≡ (id, s)
expire_one-settled now id s h = ground arith

lookup-expire :
    (now : ℕ) (id : Text) (s : HtlcSwap) (m : Dict Text HtlcSwap)
    → lookup id m ≡ some s
    → IsSettled s
    → lookup id (map (expire_one now) m) ≡ some s
lookup-expire now id s [] e h = cc
lookup-expire now id s ((j, t) ∷ m) e h =
    ground (arith, lookup-expire now id s m, expire_one-settled now j t)

module _ (encode : ℕ → Text) (sha256 : Text → ℕ) (id : Text) (s : HtlcSwap) (h : IsSettled s) where
  create-settled :
      (r : Request) (now : ℕ) (m : HtlcManager)
      → lookup id m.swaps ≡ some s
      → lookup id (create_swap encode r now m).1.swaps ≡ some s
  unfolding create_swap
  create-settled r now m e = grind (arith, lookup-insert_fresh)

  claim-settled :
      (j p : Text) (who now : ℕ) (m : HtlcManager)
      → lookup id m.swaps ≡ some s
      → lookup id (claim_swap sha256 j p who now m).1.swaps ≡ some s
  unfolding claim_swap
  claim-settled j p who now m e = elim (Option-cases (lookup j m.swaps)) [
    | inl n ↦ ground arith
    | inr (t, f) ↦ grind (arith, lookup-insert, text_beq_iff j id)
  ]

  refund-settled :
      (j : Text) (who now : ℕ) (m : HtlcManager)
      → lookup id m.swaps ≡ some s
      → lookup id (refund_swap j who now m).1.swaps ≡ some s
  unfolding refund_swap
  refund-settled j who now m e = elim (Option-cases (lookup j m.swaps)) [
    | inl n ↦ ground arith
    | inr (t, f) ↦ grind (arith, lookup-insert, text_beq_iff j id)
  ]

  step-settled :
      (m : HtlcManager) (c : Call)
      → lookup id m.swaps ≡ some s
      → lookup id (step encode sha256 m c).swaps ≡ some s
  step-settled m (creates r now) e = create-settled r now m e
  step-settled m (claims j p who now) e = claim-settled j p who now m e
  step-settled m (refunds j who now) e = refund-settled j who now m e
  step-settled m (expires now) e = unfold expire_stale_swaps in lookup-expire now id s m.swaps e h

-- A swap that has been claimed or refunded is never touched again, by any sequence of calls: it is
-- not paid out a second time, in either direction, and no new swap takes its id.
pub run-settled :
    (encode : ℕ → Text) (sha256 : Text → ℕ) (id : Text) (s : HtlcSwap) (m : HtlcManager)
    (cs : List Call)
    → IsSettled s
    → lookup id m.swaps ≡ some s
    → lookup id (run encode sha256 m cs).swaps ≡ some s
run-settled encode sha256 id s m [] h e = e
run-settled encode sha256 id s m (c ∷ cs) h e =
    run-settled encode sha256 id s (step encode sha256 m c) cs h
      (step-settled encode sha256 id s h m c e)
