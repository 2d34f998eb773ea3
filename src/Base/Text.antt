-- ===== src/Base/Text.antt =====
-- A Rust `String` or `Vec<u8>` as the list of its bytes, and decimal printing.
use Prim.Native.Char.{code}
use Prim.Native.String.{String}
use native.Mathlib.Nat.{pow-suc}
use rustblockchain.Base.{
  ℕ, zero, suc, ◌+◌, ◌-◌, ◌*◌, ◌/◌, ◌%◌, ◌^◌, ◌<◌, ◌≡◌, refl, ◌↔◌, Bool, true, false, ◌&&◌, List,
  [], ◌∷◌, ◌++◌, map, arith, leb, ltb, if◌then◌else◌, Eq, ◌==◌, Bool-cases, inl, inr, nat_eq,
}

abbrev pub Text : Type 0
Text = List ℕ

-- The bytes of an ASCII literal.
abbrev pub text : String → Text
text String.[] = []
text (String.◌∷◌ c s) = code c ∷ text s

abbrev pub text_beq : Text → Text → Bool
text_beq [] [] = true
text_beq [] (y ∷ ys) = false
text_beq (x ∷ xs) [] = false
text_beq (x ∷ xs) (y ∷ ys) = x == y && text_beq xs ys

pub text_beq_iff : (xs ys : Text) → (text_beq xs ys ≡ true) ↔ (xs ≡ ys)
text_beq_iff [] [] = ground arith
text_beq_iff [] (y ∷ ys) = ground arith
text_beq_iff (x ∷ xs) [] = ground arith
text_beq_iff (x ∷ xs) (y ∷ ys) = ground (arith, text_beq_iff xs ys)

instance abbrev pub text_eq : Eq Text
text_eq = record { equal = text_beq; equal_iff = text_beq_iff }

-- `to_lowercase` on ASCII bytes.
abbrev pub lower : ℕ → ℕ
lower c = if leb b'A' c && leb c b'Z' then c + 32 else c

abbrev pub to_lowercase : Text → Text
to_lowercase = map lower

-- The decimal digits of a number below 10 ^ fuel, as `format!` prints them.
decimal_from : ℕ → ℕ → Text
decimal_from zero n = []
decimal_from (suc fuel) n =
    let rest = decimal_from fuel (n / 10) in
    if ltb n 10 then (48 + n) ∷ [] else rest ++ (48 + n % 10) ∷ []

-- A u128 has at most 39 digits.
unfoldable pub decimal : ℕ → Text
unfolding decimal_from
decimal n = decimal_from 39 n

-- Reads a text from the left and starts anew after each dash.
abbrev pub read_step : ℕ → ℕ → ℕ
read_step acc c = if c == b'-' then 0 else acc * 10 + (c - 48)

unfoldable pub read_last_from : ℕ → Text → ℕ
read_last_from acc [] = acc
read_last_from acc (c ∷ cs) = read_last_from (read_step acc c) cs

read_last_from-append :
    (acc : ℕ) (xs ys : Text)
    → read_last_from acc (xs ++ ys) ≡ read_last_from (read_last_from acc xs) ys
unfolding read_last_from
read_last_from-append acc [] ys = refl
read_last_from-append acc (x ∷ xs) ys = read_last_from-append (read_step acc x) xs ys

tenth-lt : (fuel n : ℕ) → n < 10 ^ suc fuel → n / 10 < 10 ^ fuel
tenth-lt fuel n h = omega (arith, pow-suc 10 fuel)

read_last_from-decimal_from :
    (fuel n : ℕ) → n < 10 ^ fuel → read_last_from 0 (decimal_from fuel n) ≡ n
unfolding decimal_from read_last_from
read_last_from-decimal_from zero n h = omega arith
read_last_from-decimal_from (suc fuel) n h = elim (Bool-cases (ltb n 10)) [
  | inl e ↦ rw e (ground arith)
  | inr e ↦ rw e (
      ground (
        arith,
        read_last_from-append 0 (decimal_from fuel (n / 10)) ((48 + n % 10) ∷ []),
        read_last_from-decimal_from fuel (n / 10) (tenth-lt fuel n h),
      ))
]

-- What stands after the last dash is read back.
pub read_last-decimal :
    (xs : Text) (n : ℕ) → n < 10 ^ 39 → read_last_from 0 (xs ++ b'-' ∷ decimal n) ≡ n
unfolding decimal read_last_from
read_last-decimal xs n h = rw read_last_from-append (read_last_from-decimal_from 39 n h)
