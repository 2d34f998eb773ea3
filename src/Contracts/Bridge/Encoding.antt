-- ===== src/Contracts/Bridge/Encoding.antt =====
-- The encodings of contracts/bridge/src/lib.rs: a swap's data and the key that it stands under.
use rustblockchain.Base.{
  ℕ, zero, suc, ◌+◌, ◌/◌, ◌%◌, ◌^◌, ◌<◌, ◌≡◌, refl, ap, sym, ◌∙◌, some, [], ◌∷◌, ◌++◌, arith,
  length, length-append, take, drop, All,
}
use rustblockchain.Base.Text.{Text}
use rustblockchain.Base.Bytes.{
  le_bytes, from_le, from_le-le_bytes, length-le_bytes, take-append, drop-append,
}
use rustblockchain.Contracts.Bridge.{
  HtlcData, encode_htlc, decode_htlc, hex_char, hex_encode_32, htlc_key,
}

-- The widths of a swap's fields.
pub record IsWellFormed (h : HtlcData) : Type 0 where
  pub sender_length : length h.sender ≡ 20
  pub recipient_length : length h.recipient ≡ 20
  pub small_amount : h.amount < 256 ^ 16
  pub small_timelock : h.timelock < 256 ^ 8

drop_empty : (n : ℕ) → drop {A = ℕ} n [] ≡ []
drop_empty zero = refl
drop_empty (suc n) = refl

drop-drop : (m n : ℕ) (xs : Text) → drop n (drop m xs) ≡ drop (m + n) xs
drop-drop zero n xs = ap (λ k. drop k xs) (omega arith)
drop-drop (suc m) n [] = drop_empty n ∙ sym (drop_empty (suc m + n))
drop-drop (suc m) n (x ∷ xs) =
    let step : suc m + n ≡ suc (m + n) = omega arith in
    drop-drop m n xs ∙ sym (ap (λ k. drop k (x ∷ xs)) step)

-- What follows a part of `n` bytes that begins at `m`.
drop_part :
    (m n : ℕ) (bytes part rest : Text)
    → drop m bytes ≡ part ++ rest
    → length part ≡ n
    → drop (m + n) bytes ≡ rest
drop_part m n bytes part rest h e =
    sym (drop-drop m n bytes) ∙ ap (drop n) h ∙ drop-append n part rest e

one_byte : (b : ℕ) → from_le (take 1 (b ∷ [])) ≡ b
unfolding from_le
one_byte b = omega arith

-- A swap that was encoded is decoded as it was, if its addresses have 20 bytes and its numbers fit.
pub decode_htlc-encode_htlc : (h : HtlcData) → IsWellFormed h → decode_htlc (encode_htlc h) ≡ some h
unfolding decode_htlc encode_htlc
decode_htlc-encode_htlc h w =
    let d = h.status ∷ [] in
    let c = le_bytes 8 h.timelock ++ d in
    let b = le_bytes 16 h.amount ++ c in
    let a = h.recipient ++ b in
    let bytes = h.sender ++ a in
    let long : length bytes ≡ 65 = omega (
      arith,
      length-append h.sender a,
      length-append h.recipient b,
      length-append (le_bytes 16 h.amount) c,
      length-append (le_bytes 8 h.timelock) d,
      length-le_bytes 16 h.amount,
      length-le_bytes 8 h.timelock,
      w.sender_length,
      w.recipient_length,
    ) in
    let d20 = drop-append 20 h.sender a w.sender_length in
    let d40 = drop_part 20 20 bytes h.recipient b d20 w.recipient_length in
    let d56 = drop_part 40 16 bytes (le_bytes 16 h.amount) c d40 (length-le_bytes 16 h.amount) in
    let d64 = drop_part 56 8 bytes (le_bytes 8 h.timelock) d d56 (length-le_bytes 8 h.timelock) in
    let same_sender = take-append 20 h.sender a w.sender_length in
    let same_recipient : take 20 (drop 20 bytes) ≡ h.recipient =
      ap (take 20) d20 ∙ take-append 20 h.recipient b w.recipient_length in
    let same_amount : from_le (take 16 (drop 40 bytes)) ≡ h.amount =
      ap (λ x. from_le (take 16 x)) d40
      ∙ ap from_le (take-append 16 (le_bytes 16 h.amount) c (length-le_bytes 16 h.amount))
      ∙ from_le-le_bytes 16 h.amount w.small_amount in
    let same_timelock : from_le (take 8 (drop 56 bytes)) ≡ h.timelock =
      ap (λ x. from_le (take 8 x)) d56
      ∙ ap from_le (take-append 8 (le_bytes 8 h.timelock) d (length-le_bytes 8 h.timelock))
      ∙ from_le-le_bytes 8 h.timelock w.small_timelock in
    let same_status : from_le (take 1 (drop 64 bytes)) ≡ h.status =
      ap (λ x. from_le (take 1 x)) d64 ∙ one_byte h.status in
    ground (arith, long, same_sender, same_recipient, same_amount, same_timelock, same_status)

hex_digits_differ : (a b : ℕ) → a < 16 → b < 16 → hex_char a ≡ hex_char b → a ≡ b
hex_digits_differ a b ha hb e = ground arith

hex_injective :
    (xs ys : Text)
    → All (λ b. b < 256) xs
    → All (λ b. b < 256) ys
    → hex_encode_32 xs ≡ hex_encode_32 ys
    → xs ≡ ys
unfolding hex_encode_32
hex_injective [] [] hx hy e = refl
hex_injective [] (y ∷ ys) hx hy e = absurd (ground arith)
hex_injective (x ∷ xs) [] hx hy e = absurd (ground arith)
hex_injective (x ∷ xs) (y ∷ ys) hx hy e =
    let high =
      hex_digits_differ (x / 16) (y / 16) (omega (arith, hx.0)) (omega (arith, hy.0))
        (ground arith) in
    let low = hex_digits_differ (x % 16) (y % 16) (omega arith) (omega arith) (ground arith) in
    let same : x ≡ y = omega (arith, high, low) in
    let rest = hex_injective xs ys hx.1 hy.1 (ap (drop 2) e) in cc

-- Different hashes have different hexadecimal texts, and so their swaps different keys.
pub htlc_key-injective :
    (xs ys : Text)
    → All (λ b. b < 256) xs
    → All (λ b. b < 256) ys
    → htlc_key (hex_encode_32 xs) ≡ htlc_key (hex_encode_32 ys)
    → xs ≡ ys
unfolding htlc_key
htlc_key-injective xs ys hx hy e = hex_injective xs ys hx hy (ap (drop 5) e)
