-- ===== src/Bridge/Htlc/Settlement.antt =====
-- When crates/bridge/src/htlc.rs lets a swap be claimed or refunded, and what the maintenance pass
-- does.
use rustblockchain.Base.{
  ℕ, ◌+◌, ◌≤◌, ◌<◌, ◌≡◌, ◌≢◌, ◌↔◌, ◌⊎◌, true, false, none, some, [], ◌∷◌, map, arith, ◌==◌, nat_eq,
  length, filter, add64, unwrap_or,
}
use rustblockchain.Base.Result.{ok, err, is_ok}
use rustblockchain.Base.Dict.{Dict, lookup, lookup-insert_self}
use rustblockchain.Base.Text.{Text, text_eq}
use rustblockchain.Bridge.Types.{
  HtlcStatus, active, claimed, refunded, htlc_status_eq, BridgeError, htlc_expired,
  htlc_already_exists,
}
use rustblockchain.Bridge.Htlc.{
  HtlcSwap, HtlcManager, Request, new_swap, claimed_swap, refunded_swap, put_swap, store_new,
  create_swap, claim_swap, refund_swap, expire_stale_swaps, active_count, expire_one, is_stale,
  get_swap,
}

-- The swap is not paid out yet; it may be marked as expired.
abbrev pub IsOpen : HtlcSwap → Type 0
IsOpen s = (s.status ≢ claimed) × (s.status ≢ refunded)

module _ (sha256 : Text → ℕ) (id p : Text) (who now : ℕ) (m : HtlcManager) where
  -- A claim of a stored swap succeeds exactly when the swap is open, the caller is its recipient,
  -- the timelock has not been reached and the preimage hashes to its lock; it then marks the swap
  -- as claimed, with the preimage and the time, and changes no other swap.
  pub claim_swap_iff :
      (s : HtlcSwap)
      → lookup id m.swaps ≡ some s
      → (claim_swap sha256 id p who now m
          ≡ (ok (claimed_swap s p now), put_swap id (claimed_swap s p now) m))
        ↔ (IsOpen s × (who ≡ s.recipient) × (now < s.timelock) × (sha256 p ≡ s.hash_lock))
  unfolding claim_swap
  claim_swap_iff s e = ground arith

  -- A claim that fails leaves the manager as it was, but for one that comes at or after the timelock
  -- from the recipient of an open swap, which marks that swap as expired.
  pub claim_swap_failed :
      (s : HtlcSwap) (x : BridgeError)
      → lookup id m.swaps ≡ some s
      → (claim_swap sha256 id p who now m).0 ≡ err x
      → ((claim_swap sha256 id p who now m).1 ≡ m)
        ⊎ ((x ≡ htlc_expired)
            × (s.timelock ≤ now)
            × (who ≡ s.recipient)
            × IsOpen s
            × ((claim_swap sha256 id p who now m).1
                ≡ put_swap id (record s { status = HtlcStatus.expired }) m))
  unfolding claim_swap
  claim_swap_failed s x e f = ground arith

  -- At one clock reading a swap can be claimed or refunded, but not both, whoever calls.
  pub claim_refund_exclusive :
      (sender : ℕ)
      → is_ok (claim_swap sha256 id p who now m).0 ≡ true
      → is_ok (refund_swap id sender now m).0 ≡ false
  unfolding claim_swap refund_swap
  claim_refund_exclusive sender h = ground arith

-- A refund of a stored swap succeeds exactly when the swap is open, the caller is its sender and
-- the timelock has been reached; it then marks the swap as refunded, with the time, and changes no
-- other swap.
pub refund_swap_iff :
    (id : Text) (who now : ℕ) (m : HtlcManager) (s : HtlcSwap)
    → lookup id m.swaps ≡ some s
    → (refund_swap id who now m ≡ (ok (refunded_swap s now), put_swap id (refunded_swap s now) m))
      ↔ (IsOpen s × (who ≡ s.sender) × (s.timelock ≤ now))
unfolding refund_swap
refund_swap_iff id who now m s e = ground arith

-- A swap that the manager creates is the one that it then stores and returns, and an id that is in
-- use is refused with the manager left as it was.
pub create_swap_lem :
    (encode : ℕ → Text) (r : Request) (now : ℕ) (m : HtlcManager)
    → lookup (encode r.hash_lock) m.swaps ≡ none
    → 0 < r.amount
    → now < unwrap_or r.timelock (add64 now m.default_timelock)
    → let s =
        new_swap (encode r.hash_lock) r (unwrap_or r.timelock (add64 now m.default_timelock)) now in
      (create_swap encode r now m ≡ (ok s, store_new s m))
      × (get_swap (create_swap encode r now m).1 s.id ≡ some s)
unfolding create_swap get_swap
create_swap_lem encode r now m fresh funded later = ground (
  arith,
  lookup-insert_self (encode r.hash_lock)
      (new_swap (encode r.hash_lock) r (unwrap_or r.timelock (add64 now m.default_timelock)) now)
      m.swaps,
)

pub create_swap_duplicate :
    (encode : ℕ → Text) (r : Request) (now : ℕ) (m : HtlcManager) (s : HtlcSwap)
    → lookup (encode r.hash_lock) m.swaps ≡ some s
    → create_swap encode r now m ≡ (err (htlc_already_exists (encode r.hash_lock)), m)
unfolding create_swap
create_swap_duplicate encode r now m s e = ground arith

abbrev actives : Dict Text HtlcSwap → ℕ
actives d = length (filter (λ e. e.1.status == active) d)

abbrev stales : ℕ → Dict Text HtlcSwap → ℕ
stales now d = length (filter (λ e. is_stale now e.1) d)

expired_actives :
    (now : ℕ) (d : Dict Text HtlcSwap) → actives (map (expire_one now) d) + stales now d ≡ actives d
expired_actives now [] = omega arith
expired_actives now ((k, s) ∷ d) = ground (arith, expired_actives now d)

expired_stales : (now : ℕ) (d : Dict Text HtlcSwap) → stales now (map (expire_one now) d) ≡ 0
expired_stales now [] = omega arith
expired_stales now ((k, s) ∷ d) = ground (arith, expired_stales now d)

-- The maintenance pass reports how many active swaps it took away, and a second pass at the same
-- time finds none.
pub expire_stale_swaps_counts :
    (now : ℕ) (m : HtlcManager)
    → let (n, m') = expire_stale_swaps now m in
      (active_count m' + n ≡ active_count m) × ((expire_stale_swaps now m').0 ≡ 0)
unfolding expire_stale_swaps active_count
expire_stale_swaps_counts now m = (expired_actives now m.swaps, expired_stales now m.swaps)
