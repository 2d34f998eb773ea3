-- ===== src/Contracts/Bridge/Swaps.antt =====
-- The swaps of contracts/bridge/src/lib.rs: when they are claimed or refunded, and that this happens once.
use rustblockchain.Base.{
  ℕ, ◌≤◌, ◌<◌, ◌≡◌, ◌≢◌, ◌⊎◌, inl, inr, ap, ◌∙◌, Option, none, some, arith, ◌==◌, ==_iff, nat_eq,
  ltb, leb, length, take, Bool-cases, Option-cases,
}
use rustblockchain.Base.Dict.{lookup-insert_self}
use rustblockchain.Base.Text.{Text, text, text_eq}
use rustblockchain.Base.Result.{Result, ok, err}
use rustblockchain.Contracts.Sdk
use rustblockchain.Contracts.Sdk.{
  MockEnv, Stop, storage_read, storage_write, emit_event, returned, minus_one,
}
use rustblockchain.Contracts.Bridge.{
  HtlcData, encode_htlc, decode_htlc, hex_encode_32, htlc_key, claim_htlc, refund_htlc, active_htlc,
  send, as_u64,
}
use rustblockchain.Contracts.Bridge.Encoding.{IsWellFormed, decode_htlc-encode_htlc}
use rustblockchain.Contracts.Bridge.Sha256.{simple_sha256}

-- The swap that a stored value stands for.
abbrev pub swap_in : Option Text → Option HtlcData
swap_in none = none
swap_in (some bytes) = decode_htlc bytes

-- The swap that is stored under a key.
abbrev pub swap_at : Text → MockEnv → Option HtlcData
swap_at key s = swap_in (storage_read key s)

abbrev pub claim_key : Text → Text
claim_key preimage = htlc_key (hex_encode_32 (simple_sha256 preimage))

abbrev pub refund_key : Text → Text
refund_key args = htlc_key (hex_encode_32 (take 32 args))

abbrev pub closed :
    Text → HtlcData → (to : Text) → (status : ℕ) → (event : Text) → MockEnv → MockEnv
closed key h to status event s =
    emit_event event
      (storage_write key (encode_htlc (record h { status = status })) (send to (as_u64 h.amount) s))

-- An entry point's return of -1, which writes nothing.
abbrev pub Refused : Result Stop ℕ × MockEnv → MockEnv → Type 0
Refused r s =
    (r.0 ≡ err (returned minus_one)) × (r.1.storage ≡ s.storage) × (r.1.transfers ≡ s.transfers)

active_htlc_cases :
    (key : Text) (s : MockEnv)
    → ((h : HtlcData) × (swap_at key s ≡ some h) × (h.status ≡ 0) × (active_htlc key s ≡ (ok h, s)))
      ⊎ (((h : HtlcData) → swap_at key s ≡ some h → h.status ≢ 0)
          × ((active_htlc key s).0 ≡ err (returned minus_one))
          × ((active_htlc key s).1.storage ≡ s.storage)
          × ((active_htlc key s).1.transfers ≡ s.transfers))
active_htlc_cases key s = elim (Option-cases (storage_read key s)) [
  | inl missing ↦ inr (λ h e. absurd (ground arith), ground arith, ground arith, ground arith)
  | inr (bytes, stored) ↦ elim (Option-cases (decode_htlc bytes)) [
    | inl bad ↦ inr (λ h e. absurd (ground arith), ground arith, ground arith, ground arith)
    | inr (h, good) ↦ elim (Bool-cases (h.status == 0)) [
      | inl fresh ↦ inl (h, ground arith, ground arith, ground arith)
      | inr shut ↦ inr (λ k e z. ground arith, ground arith, ground arith, ground arith)
    ]
  ]
]

-- A claim ends in one of two ways. Either the preimage's hash is that of an open swap, the caller is its
-- recipient, it has not expired, and it is closed as claimed; or the call returns -1, writes nothing and
-- pays nothing.
pub claim_htlc_cases :
    (preimage : Text) (s : MockEnv)
    → let r = claim_htlc preimage s in
      let key = claim_key preimage in
      ((h : HtlcData) × (swap_at key s ≡ some h)
        × (h.status ≡ 0)
        × (s.caller ≡ h.recipient)
        × (s.block_timestamp < h.timelock)
        × (r ≡ (ok 0, closed key h h.recipient 1 (text "HTLCClaimed") s)))
      ⊎ Refused r s
unfolding claim_htlc
claim_htlc_cases preimage s = elim (active_htlc_cases (claim_key preimage) s) [
  | inr bad ↦ inr (ground arith)
  | inl (h, stored, fresh, active) ↦ elim (Bool-cases (s.caller == h.recipient)) [
    | inr other ↦ inr (ground arith)
    | inl mine ↦ elim (Bool-cases (leb h.timelock s.block_timestamp)) [
      | inl late ↦ inr (ground arith)
      | inr early ↦ elim (Bool-cases (ltb (length preimage) 1)) [
        | inl short ↦ inr (ground arith)
        | inr some_bytes ↦
            inl (h, stored, fresh, (==_iff s.caller h.recipient).0 mine, ground arith, ground arith)
      ]
    ]
  ]
]

-- A refund ends in one of two ways. Either the hash is that of an open swap, the caller is its sender, it
-- has expired, and it is closed as refunded; or the call returns -1, writes nothing and pays nothing.
pub refund_htlc_cases :
    (args : Text) (s : MockEnv)
    → let r = refund_htlc args s in
      let key = refund_key args in
      ((h : HtlcData) × (swap_at key s ≡ some h)
        × (h.status ≡ 0)
        × (s.caller ≡ h.sender)
        × (h.timelock ≤ s.block_timestamp)
        × (r ≡ (ok 0, closed key h h.sender 2 (text "HTLCRefunded") s)))
      ⊎ Refused r s
unfolding refund_htlc
refund_htlc_cases args s = elim (active_htlc_cases (refund_key args) s) [
  | inr bad ↦ inr (ground arith)
  | inl (h, stored, fresh, active) ↦ elim (Bool-cases (s.caller == h.sender)) [
    | inr other ↦ inr (ground arith)
    | inl mine ↦ elim (Bool-cases (ltb s.block_timestamp h.timelock)) [
      | inl early ↦ inr (ground arith)
      | inr late ↦ elim (Bool-cases (ltb (length args) 32)) [
        | inl short ↦ inr (ground arith)
        | inr long ↦
            inl (h, stored, fresh, (==_iff s.caller h.sender).0 mine, ground arith, ground arith)
      ]
    ]
  ]
]

-- A swap under the key is closed.
abbrev pub IsClosed : Text → MockEnv → Type 0
IsClosed key s = (h : HtlcData) × (swap_at key s ≡ some h) × (h.status ≢ 0)

send_nothing :
    (to : Text) (amount : ℕ) (s : MockEnv) → s.self_balance < amount → send to amount s ≡ s
unfolding Sdk.transfer
send_nothing to amount s h = ground arith

pub closed-IsClosed :
    (key : Text) (h : HtlcData) (to : Text) (status : ℕ) (event : Text) (s : MockEnv)
    → IsWellFormed h
    → status ≢ 0
    → IsClosed key (closed key h to status event s)
closed-IsClosed key h to status event s w ne =
    let updated = record h { status = status } in
    let same : IsWellFormed updated = record {
      sender_length = w.sender_length;
      recipient_length = w.recipient_length;
      small_amount = w.small_amount;
      small_timelock = w.small_timelock;
    } in
    let stored =
      lookup-insert_self key (encode_htlc updated) (send to (as_u64 h.amount) s).storage in
    (updated, ap swap_in stored ∙ decode_htlc-encode_htlc updated same, ne)

-- A swap that is closed stays so: neither a claim nor a refund of it pays or writes anything.
pub IsClosed-Refused :
    (preimage args : Text) (s : MockEnv)
    → (IsClosed (claim_key preimage) s → Refused (claim_htlc preimage s) s)
      × (IsClosed (refund_key args) s → Refused (refund_htlc args s) s)
IsClosed-Refused preimage args s = (
  λ shut. elim (claim_htlc_cases preimage s) [
    | inr refused ↦ refused
    | inl (h, stored, fresh, _, _, _) ↦ absurd (shut.2 (ground arith))
  ],
  λ shut. elim (refund_htlc_cases args s) [
    | inr refused ↦ refused
    | inl (h, stored, fresh, _, _, _) ↦ absurd (shut.2 (ground arith))
  ],
)

-- A claim that succeeds on a swap whose amount the contract does not have pays nothing, and closes the
-- swap all the same.
pub claim_htlc_unpaid :
    (preimage : Text) (s : MockEnv) (h : HtlcData)
    → swap_at (claim_key preimage) s ≡ some h
    → (claim_htlc preimage s).0 ≡ ok 0
    → s.self_balance < as_u64 h.amount
    → let s' = (claim_htlc preimage s).1 in
      (s'.transfers ≡ s.transfers)
      × (storage_read (claim_key preimage) s' ≡ some (encode_htlc (record h { status = 1 })))
claim_htlc_unpaid preimage s h stored paid poor = elim (claim_htlc_cases preimage s) [
  | inr refused ↦ absurd (ground arith)
  | inl (k, found, _, _, _, done) ↦
      let equal : k ≡ h = ground arith in
      let none_left =
        send_nothing k.recipient (as_u64 k.amount) s
          (omega (arith, poor, ap (λ x. x.amount) equal)) in
      (
        ap (λ r. r.1.transfers) done ∙ ap (λ x. x.transfers) none_left,
        ap (λ r. storage_read (claim_key preimage) r.1) done
            ∙ lookup-insert_self (claim_key preimage) (encode_htlc (record k { status = 1 }))
                (send k.recipient (as_u64 k.amount) s).storage
            ∙ ap (λ x. some (encode_htlc (record x { status = 1 }))) equal,
      )
]
