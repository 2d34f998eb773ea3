-- ===== src/Bridge/Htlc/Invariant.antt =====
-- What holds of every swap that the manager of crates/bridge/src/htlc.rs ever stores.
use rustblockchain.Base.{
  ℕ, ◌≤◌, ◌<◌, ◌≡◌, inl, inr, Option, none, some, List, [], ◌∷◌, map, arith, nat_eq, Option-cases,
}
use rustblockchain.Base.Dict.{Dict, lookup, Entries, insert-Entries, lookup-Entries}
use rustblockchain.Base.Text.{Text, text_eq}
use rustblockchain.Bridge.Types.{HtlcStatus, active, claimed, refunded, htlc_status_eq}
use rustblockchain.Bridge.Htlc.{
  HtlcSwap, HtlcManager, Request, create_swap, claim_swap, refund_swap, expire_stale_swaps,
  expire_one,
}
use rustblockchain.Bridge.Htlc.History.{Call, creates, claims, refunds, expires, step, run}

module _ (encode : ℕ → Text) (sha256 : Text → ℕ) where
  -- How the status, the preimage and the time of settlement fit the lock: a claim came before the
  -- timelock with a preimage of the hash lock, a refund not before the timelock.
  abbrev pub Settles : HtlcStatus → Option Text → Option ℕ → ℕ → ℕ → Type 0
  Settles active none none lock until = Unit
  Settles HtlcStatus.expired none none lock until = Unit
  Settles claimed (some p) (some t) lock until = (sha256 p ≡ lock) × (t < until)
  Settles refunded none (some t) lock until = until ≤ t
  Settles _ _ _ lock until = ⊥

  pub record SwapIsValid (key : Text) (s : HtlcSwap) : Type 0 where
    pub keyed : key ≡ s.id
    pub named : s.id ≡ encode s.hash_lock
    pub funded : 0 < s.amount
    pub open_at_creation : s.created_at < s.timelock
    pub settles : Settles s.status s.preimage s.settled_at s.hash_lock s.timelock

  abbrev pub IsValid : HtlcManager → Type 0
  IsValid m = Entries SwapIsValid m.swaps

  create-IsValid :
      (r : Request) (now : ℕ) (m : HtlcManager) → IsValid m → IsValid (create_swap encode r now m).1
  unfolding create_swap
  create-IsValid r now m v = grind (arith, insert-Entries)

  claim-IsValid :
      (id p : Text) (who now : ℕ) (m : HtlcManager)
      → IsValid m
      → IsValid (claim_swap sha256 id p who now m).1
  unfolding claim_swap
  claim-IsValid id p who now m v = elim (Option-cases (lookup id m.swaps)) [
    | inl e ↦ ground arith
    | inr (s, e) ↦
        let w = lookup-Entries SwapIsValid id s m.swaps v e in grind (arith, insert-Entries)
  ]

  refund-IsValid :
      (id : Text) (who now : ℕ) (m : HtlcManager) → IsValid m → IsValid (refund_swap id who now m).1
  unfolding refund_swap
  refund-IsValid id who now m v = elim (Option-cases (lookup id m.swaps)) [
    | inl e ↦ ground arith
    | inr (s, e) ↦
        let w = lookup-Entries SwapIsValid id s m.swaps v e in grind (arith, insert-Entries)
  ]

  expire_one-IsValid :
      (now : ℕ) (k : Text) (s : HtlcSwap)
      → SwapIsValid k s
      → SwapIsValid k (expire_one now (k, s)).1
  expire_one-IsValid now k s v = ground arith

  expire-IsValid :
      (now : ℕ) (m : Dict Text HtlcSwap)
      → Entries SwapIsValid m
      → Entries SwapIsValid (map (expire_one now) m)
  expire-IsValid now [] v = tt
  expire-IsValid now ((k, s) ∷ m) v = (expire_one-IsValid now k s v.0, expire-IsValid now m v.1)

  pub step-IsValid : (m : HtlcManager) (c : Call) → IsValid m → IsValid (step encode sha256 m c)
  step-IsValid m (creates r now) v = create-IsValid r now m v
  step-IsValid m (claims id p who now) v = claim-IsValid id p who now m v
  step-IsValid m (refunds id who now) v = refund-IsValid id who now m v
  step-IsValid m (expires now) v = unfold expire_stale_swaps in expire-IsValid now m.swaps v

  -- Every state-changing call of the manager keeps all its swaps valid, whatever the clock reads at
  -- each call: a claimed swap stores a preimage of its hash lock and was claimed before its
  -- timelock, a refunded one was refunded at or after it and shows no preimage, and one that is not
  -- settled has neither preimage nor settlement time.
  pub run-IsValid :
      (m : HtlcManager) (cs : List Call) → IsValid m → IsValid (run encode sha256 m cs)
  run-IsValid m [] v = v
  run-IsValid m (c ∷ cs) v = run-IsValid (step encode sha256 m c) cs (step-IsValid m c v)
