-- ===== src/Contracts/Bridge/Guards.antt =====
-- Who may call the entry points of contracts/bridge/src/lib.rs, and where they keep a token's amounts.
use rustblockchain.Base.{ℕ, ◌≡◌, ◌≢◌, refl, ap, true, [], ◌∷◌, ◌++◌, arith, ==_iff, nat_eq}
use rustblockchain.Base.Text.{Text, text, text_eq}
use rustblockchain.Base.Result.{Result, err}
use rustblockchain.Contracts.Sdk.{MockEnv, Stop, aborted}
use rustblockchain.Contracts.Sdk.Words.{read_bool, read_address}
use rustblockchain.Contracts.Bridge.{
  require_owner, require_not_paused, create_htlc, bridge_lock, bridge_mint, bridge_burn,
  add_validator, remove_validator, pause, unpause, locked_key,
}

abbrev pub not_owner : Text
not_owner = text "Only owner can call this function"

abbrev pub is_paused : Text
is_paused = text "Bridge is paused"

not_owned :
    (s : MockEnv)
    → s.caller ≢ read_address (text "owner") s
    → require_owner s ≡ (err (aborted not_owner), s)
unfolding require_owner
not_owned s h = ground (arith, ==_iff s.caller (read_address (text "owner") s))

stopped :
    (s : MockEnv)
    → read_bool (text "paused") s ≡ true
    → require_not_paused s ≡ (err (aborted is_paused), s)
unfolding require_not_paused
stopped s h = ground arith

-- For a caller who is not the owner, minting, the changes of the validators, and pausing and unpausing
-- abort and change nothing.
pub owner_only :
    (args : Text) (s : MockEnv)
    → s.caller ≢ read_address (text "owner") s
    → let kept : Result Stop ℕ × MockEnv = (err (aborted not_owner), s) in
      (bridge_mint args s ≡ kept)
      × (add_validator args s ≡ kept)
      × (remove_validator args s ≡ kept)
      × (pause s ≡ kept)
      × (unpause s ≡ kept)
unfolding bridge_mint add_validator remove_validator pause unpause
owner_only args s h =
    let aborts = not_owned s h in
    (
      ground (arith, aborts),
      ground (arith, aborts),
      ground (arith, aborts),
      ground (arith, aborts),
      ground (arith, aborts),
    )

-- While the bridge is paused, no swap is created and nothing is locked or burned: the calls abort and
-- change nothing.
pub paused_aborts :
    (args : Text) (s : MockEnv)
    → read_bool (text "paused") s ≡ true
    → let kept : Result Stop ℕ × MockEnv = (err (aborted is_paused), s) in
      (create_htlc args s ≡ kept) × (bridge_lock args s ≡ kept) × (bridge_burn args s ≡ kept)
unfolding create_htlc bridge_lock bridge_burn
paused_aborts args s h =
    let aborts = stopped s h in
    (ground (arith, aborts), ground (arith, aborts), ground (arith, aborts))

append_assoc : (xs ys zs : Text) → (xs ++ ys) ++ zs ≡ xs ++ (ys ++ zs)
append_assoc [] ys zs = refl
append_assoc (x ∷ xs) ys zs = ap (λ r. x ∷ r) (append_assoc xs ys zs)

-- The amounts of different tokens are kept under one key, where a chain's or a token's name has a colon:
-- the name of the chain may end at any of the colons.
pub locked_key_shared :
    (chain middle token : Text)
    → locked_key (chain ++ b':' ∷ middle) token ≡ locked_key chain (middle ++ b':' ∷ token)
unfolding locked_key
locked_key_shared chain middle token =
    ap (λ r. text "locked:" ++ r) (append_assoc chain (b':' ∷ middle) (b':' ∷ token))
