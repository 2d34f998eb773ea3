-- ===== src/Contracts/Bridge/Histories.antt =====
-- Histories of contracts/bridge/src/lib.rs: any sequence of calls of its entry points, each in its own
-- circumstances, and what they leave of a swap that is closed.
use mathlib.Core.Path.{subst}
use rustblockchain.Base.{
  ℕ, ◌≡◌, ◌≢◌, inl, inr, ap, sym, ◌∙◌, some, List, [], ◌∷◌, arith, ◌==◌, ==_iff, nat_eq, ltb,
  length, Bool-cases, Option-cases,
}
use rustblockchain.Base.Dict.{lookup, lookup-insert_ne}
use rustblockchain.Base.Text.{Text, text, text_eq}
use rustblockchain.Base.Result.{ok}
use rustblockchain.Contracts.Sdk
use rustblockchain.Contracts.Sdk.{MockEnv, Contract, storage_read}
use rustblockchain.Contracts.Sdk.Words.{read_bool}
use rustblockchain.Contracts.Bridge.{
  HtlcData, require_not_paused, htlc_key, hex_encode_32, init, create_htlc, claim_htlc, refund_htlc,
  bridge_lock, bridge_mint, bridge_burn, add_validator, remove_validator, pause, unpause, send,
  as_u64, encode_htlc,
}
use rustblockchain.Contracts.Bridge.Sha256.{simple_sha256}
use rustblockchain.Contracts.Bridge.Encoding.{IsWellFormed}
use rustblockchain.Contracts.Bridge.Keeping.{
  create_htlc-Keeps, init-Keeps, bridge_lock-Keeps, bridge_mint-Keeps, bridge_burn-Keeps,
  add_validator-Keeps, remove_validator-Keeps, pause-Keeps, unpause-Keeps,
}
use rustblockchain.Contracts.Bridge.Swaps.{
  swap_at, swap_in, claim_key, refund_key, closed, Refused, IsClosed, IsClosed-Refused,
  closed-IsClosed, claim_htlc_cases, refund_htlc_cases,
}

pub data Entry : Type 0 where
  initializes pauses unpauses : Entry
  creates claims refunds locks mints burns adds removes : Text → Entry

-- Who calls, when, and what the contract has then.
pub record Setting : Type 0 where
  pub caller : Text
  pub block_number : ℕ
  pub block_timestamp : ℕ
  pub self_balance : ℕ

abbrev pub enter : Setting → MockEnv → MockEnv
enter x s = record s {
  caller = x.caller;
  block_number = x.block_number;
  block_timestamp = x.block_timestamp;
  self_balance = x.self_balance;
}

abbrev pub call : Entry → Contract ℕ
call initializes = init
call pauses = pause
call unpauses = unpause
call (creates args) = create_htlc args
call (claims preimage) = claim_htlc preimage
call (refunds args) = refund_htlc args
call (locks args) = bridge_lock args
call (mints args) = bridge_mint args
call (burns args) = bridge_burn args
call (adds args) = add_validator args
call (removes args) = remove_validator args

abbrev pub run : MockEnv → List (Setting × Entry) → MockEnv
run s [] = s
run s ((x, e) ∷ rest) = run (call e (enter x s)).1 rest

read_closed :
    (key k : Text) (h : HtlcData) (to : Text) (status : ℕ) (event : Text) (s : MockEnv)
    → k ≢ key
    → storage_read key (closed k h to status event s) ≡ storage_read key s
unfolding Sdk.transfer
read_closed key k h to status event s ne =
    lookup-insert_ne key k (encode_htlc (record h { status = status }))
      (send to (as_u64 h.amount) s).storage ne
    ∙ ground arith

-- A swap is not created where there is one.
create_htlc_known :
    (args bytes : Text) (s : MockEnv)
    → storage_read (refund_key args) s ≡ some bytes
    → (create_htlc args s).1.storage ≡ s.storage
unfolding create_htlc require_not_paused
create_htlc_known args bytes s known = elim (Bool-cases (read_bool (text "paused") s)) [
  | inl q ↦ ground arith
  | inr q ↦ elim (Bool-cases (ltb (length args) 60)) [
    | inl k ↦ ground arith
    | inr k ↦ elim (Bool-cases (s.self_balance == 0)) [
      | inl z ↦ ground arith
      | inr z ↦ ground arith
    ]
  ]
]

-- A swap that is closed stays so.
module _ (lock : Text) where
  IsClosed-read :
      (s s' : MockEnv)
      → storage_read (htlc_key lock) s' ≡ storage_read (htlc_key lock) s
      → IsClosed (htlc_key lock) s
      → IsClosed (htlc_key lock) s'
  IsClosed-read s s' same (h, at, shut) = (h, ap swap_in same ∙ at, shut)

  create_htlc-IsClosed :
      (args : Text) (s : MockEnv)
      → IsClosed (htlc_key lock) s
      → IsClosed (htlc_key lock) (create_htlc args s).1
  create_htlc-IsClosed args s (h, at, shut) = elim (Bool-cases (refund_key args == htlc_key lock)) [
    | inr ne ↦
        IsClosed-read s (create_htlc args s).1
          ((create_htlc-Keeps lock args
              (λ q. ground (arith, q, ==_iff (refund_key args) (htlc_key lock)))).kept
            s)
          (h, at, shut)
    | inl eq ↦ elim (Option-cases (storage_read (htlc_key lock) s)) [
      | inl missing ↦ absurd (ground arith)
      | inr (bytes, stored) ↦
          let same = (==_iff (refund_key args) (htlc_key lock)).0 eq in
          let kept = create_htlc_known args bytes s (ap (λ k. storage_read k s) same ∙ stored) in
          IsClosed-read s (create_htlc args s).1 (ap (lookup (htlc_key lock)) kept) (h, at, shut)
    ]
  ]

  closing-IsClosed :
      (k : Text) (h : HtlcData) (to : Text) (status : ℕ) (event : Text) (s : MockEnv)
      → swap_at k s ≡ some h
      → h.status ≡ 0
      → IsClosed (htlc_key lock) s
      → IsClosed (htlc_key lock) (closed k h to status event s)
  closing-IsClosed k h to status event s stored fresh (h', at, shut) =
      let ne : k ≢ htlc_key lock =
        λ q. shut (ground (arith, ap (λ k. swap_at k s) q, stored, at)) in
      IsClosed-read s (closed k h to status event s)
        (read_closed (htlc_key lock) k h to status event s ne) (h', at, shut)

  call-IsClosed :
      (e : Entry) (s : MockEnv) → IsClosed (htlc_key lock) s → IsClosed (htlc_key lock) (call e s).1
  call-IsClosed initializes s c = IsClosed-read s (init s).1 ((init-Keeps lock).kept s) c
  call-IsClosed pauses s c = IsClosed-read s (pause s).1 ((pause-Keeps lock).kept s) c
  call-IsClosed unpauses s c = IsClosed-read s (unpause s).1 ((unpause-Keeps lock).kept s) c
  call-IsClosed (creates args) s c = create_htlc-IsClosed args s c
  call-IsClosed (claims preimage) s c = elim (claim_htlc_cases preimage s) [
    | inr (_, same, _) ↦
        IsClosed-read s (claim_htlc preimage s).1 (ap (lookup (htlc_key lock)) same) c
    | inl (h, stored, fresh, _, _, done) ↦ rw done (
        closing-IsClosed (claim_key preimage) h h.recipient 1 (text "HTLCClaimed") s stored fresh c)
  ]
  call-IsClosed (refunds args) s c = elim (refund_htlc_cases args s) [
    | inr (_, same, _) ↦ IsClosed-read s (refund_htlc args s).1 (ap (lookup (htlc_key lock)) same) c
    | inl (h, stored, fresh, _, _, done) ↦
        rw done
          (closing-IsClosed (refund_key args) h h.sender 2 (text "HTLCRefunded") s stored fresh c)
  ]
  call-IsClosed (locks args) s c =
      IsClosed-read s (bridge_lock args s).1 ((bridge_lock-Keeps lock args).kept s) c
  call-IsClosed (mints args) s c =
      IsClosed-read s (bridge_mint args s).1 ((bridge_mint-Keeps lock args).kept s) c
  call-IsClosed (burns args) s c =
      IsClosed-read s (bridge_burn args s).1 ((bridge_burn-Keeps lock args).kept s) c
  call-IsClosed (adds args) s c =
      IsClosed-read s (add_validator args s).1 ((add_validator-Keeps lock args).kept s) c
  call-IsClosed (removes args) s c =
      IsClosed-read s (remove_validator args s).1 ((remove_validator-Keeps lock args).kept s) c

  run-IsClosed :
      (calls : List (Setting × Entry)) (s : MockEnv)
      → IsClosed (htlc_key lock) s
      → IsClosed (htlc_key lock) (run s calls)
  run-IsClosed [] s c = c
  run-IsClosed ((x, e) ∷ rest) s c =
      run-IsClosed rest (call e (enter x s)).1 (call-IsClosed e (enter x s) c)

-- A swap is paid out once: after a claim that succeeds, and after whatever calls of the contract, each by
-- whoever, at whatever time and with whatever balance, no claim or refund of the swap's hash pays or
-- writes anything. Stated for a swap whose fields have their widths.
pub claim_htlc_once :
    (preimage again args : Text) (s : MockEnv) (h : HtlcData) (between : List (Setting × Entry))
    (x : Setting)
    → swap_at (claim_key preimage) s ≡ some h
    → IsWellFormed h
    → (claim_htlc preimage s).0 ≡ ok 0
    → claim_key again ≡ claim_key preimage
    → refund_key args ≡ claim_key preimage
    → let later = enter x (run (claim_htlc preimage s).1 between) in
      Refused (claim_htlc again later) later × Refused (refund_htlc args later) later
claim_htlc_once preimage again args s h between x stored w paid same same' =
    let key = claim_key preimage in
    let first : IsClosed key (claim_htlc preimage s).1 = elim (claim_htlc_cases preimage s) [
      | inr refused ↦ absurd (ground arith)
      | inl (k, found, _, _, _, done) ↦
          let equal : k ≡ h = ground arith in
          rw done (
            closed-IsClosed key k k.recipient 1 (text "HTLCClaimed") s
              (subst IsWellFormed (sym equal) w) (λ e. omega arith))
    ] in
    let later = enter x (run (claim_htlc preimage s).1 between) in
    let shut : IsClosed key later =
      run-IsClosed (hex_encode_32 (simple_sha256 preimage)) between (claim_htlc preimage s).1
        first in
    let (claim, refund) = IsClosed-Refused again args later in
    (
      claim (subst (λ k. IsClosed k later) (sym same) shut),
      refund (subst (λ k. IsClosed k later) (sym same') shut),
    )
