-- ===== src/Contracts/Sdk/Words.antt =====
-- Numbers and flags in a contract's storage: the helpers that contracts/token/src/lib.rs and
-- contracts/bridge/src/lib.rs both have.
use rustblockchain.Base.{
  ℕ, ◌^◌, ◌<◌, ◌≡◌, ◌≢◌, ap, ◌∙◌, Bool, false, Option, none, some, [], ◌∷◌, arith, if◌then◌else◌,
  ◌==◌, nat_eq, length, not,
}
use rustblockchain.Base.Dict.{lookup-insert_self, lookup-insert_ne}
use rustblockchain.Base.Text.{Text, text_eq}
use rustblockchain.Base.Bytes.{le_bytes, from_le, from_le-le_bytes, length-le_bytes}
use rustblockchain.Contracts.Sdk.{MockEnv, storage_read, storage_write}

-- A stored number of `w` bytes; another length counts as no number.
abbrev pub read_word : ℕ → Option Text → ℕ
read_word w none = 0
read_word w (some v) = if length v == w then from_le v else 0

unfoldable pub read_u64 : Text → MockEnv → ℕ
read_u64 key s = read_word 8 (storage_read key s)

unfoldable pub write_u64 : Text → ℕ → MockEnv → MockEnv
write_u64 key value s = storage_write key (le_bytes 8 value) s

unfoldable pub read_u128 : Text → MockEnv → ℕ
read_u128 key s = read_word 16 (storage_read key s)

unfoldable pub write_u128 : Text → ℕ → MockEnv → MockEnv
write_u128 key value s = storage_write key (le_bytes 16 value) s

unfoldable pub read_bool : Text → MockEnv → Bool
read_bool key s = elim (storage_read key s) [
  | none ↦ false
  | some v ↦ elim v [ [] ↦ false | b ∷ bs ↦ not (b == 0) ]
]

unfoldable pub write_bool : Text → Bool → MockEnv → MockEnv
write_bool key value s = storage_write key ((if value then 1 else 0) ∷ []) s

read_word-le_bytes : (w n : ℕ) → n < 256 ^ w → read_word w (some (le_bytes w n)) ≡ n
read_word-le_bytes w n h = ground (arith, length-le_bytes w n, from_le-le_bytes w n h)

pub read_u64-write_u64 :
    (key : Text) (n : ℕ) (s : MockEnv) → n < 2 ^ 64 → read_u64 key (write_u64 key n s) ≡ n
unfolding read_u64 write_u64
read_u64-write_u64 key n s h =
    ap (read_word 8) (lookup-insert_self key (le_bytes 8 n) s.storage) ∙ read_word-le_bytes 8 n h

pub read_u64-write_u64_ne :
    (j k : Text) (n : ℕ) (s : MockEnv) → k ≢ j → read_u64 j (write_u64 k n s) ≡ read_u64 j s
unfolding read_u64 write_u64
read_u64-write_u64_ne j k n s h = ap (read_word 8) (lookup-insert_ne j k (le_bytes 8 n) s.storage h)

pub read_u128-write_u128 :
    (key : Text) (n : ℕ) (s : MockEnv) → n < 2 ^ 128 → read_u128 key (write_u128 key n s) ≡ n
unfolding read_u128 write_u128
read_u128-write_u128 key n s h =
    ap (read_word 16) (lookup-insert_self key (le_bytes 16 n) s.storage) ∙ read_word-le_bytes 16 n h

pub read_u128-write_u128_ne :
    (j k : Text) (n : ℕ) (s : MockEnv) → k ≢ j → read_u128 j (write_u128 k n s) ≡ read_u128 j s
unfolding read_u128 write_u128
read_u128-write_u128_ne j k n s h =
    ap (read_word 16) (lookup-insert_ne j k (le_bytes 16 n) s.storage h)

abbrev pub read_address : Text → MockEnv → Text
read_address key s = elim (storage_read key s) [
  | none ↦ le_bytes 20 0
  | some v ↦ if length v == 20 then v else le_bytes 20 0
]
