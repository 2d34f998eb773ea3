-- ===== src/Contracts/Bridge/Sha256.antt =====
-- SHA-256 as contracts/bridge/src/lib.rs has it, on 32-bit words as native numbers.
use Prim.Native.Nat.{bit_and, bit_xor}
use rustblockchain.Base.{
  ℕ, zero, suc, ◌+◌, ◌-◌, ◌*◌, ◌/◌, ◌%◌, ◌^◌, ◌≤◌, ◌<◌, ◌≡◌, List, [], ◌∷◌, ◌++◌, arith,
  if◌then◌else◌, ◌==◌, nat_eq, length, length-append, take, drop, get_elem?, unwrap_or, mul64,
}
use rustblockchain.Base.Text.{Text}
use rustblockchain.Storage.Keys.{be_bytes, from_be, length-be_bytes}

abbrev pub round_constants : List ℕ
round_constants =
    1116352408 ∷ 1899447441 ∷ 3049323471 ∷ 3921009573 ∷ 961987163 ∷ 1508970993 ∷ 2453635748
    ∷ 2870763221 ∷ 3624381080 ∷ 310598401 ∷ 607225278 ∷ 1426881987 ∷ 1925078388 ∷ 2162078206
    ∷ 2614888103 ∷ 3248222580 ∷ 3835390401 ∷ 4022224774 ∷ 264347078 ∷ 604807628 ∷ 770255983
    ∷ 1249150122 ∷ 1555081692 ∷ 1996064986 ∷ 2554220882 ∷ 2821834349 ∷ 2952996808 ∷ 3210313671
    ∷ 3336571891 ∷ 3584528711 ∷ 113926993 ∷ 338241895 ∷ 666307205 ∷ 773529912 ∷ 1294757372
    ∷ 1396182291 ∷ 1695183700 ∷ 1986661051 ∷ 2177026350 ∷ 2456956037 ∷ 2730485921 ∷ 2820302411
    ∷ 3259730800 ∷ 3345764771 ∷ 3516065817 ∷ 3600352804 ∷ 4094571909 ∷ 275423344 ∷ 430227734
    ∷ 506948616 ∷ 659060556 ∷ 883997877 ∷ 958139571 ∷ 1322822218 ∷ 1537002063 ∷ 1747873779
    ∷ 1955562222 ∷ 2024104815 ∷ 2227730452 ∷ 2361852424 ∷ 2428436474 ∷ 2756734187 ∷ 3204031479
    ∷ 3329325298 ∷ []

abbrev pub initial_hash : List ℕ
initial_hash =
    1779033703 ∷ 3144134277 ∷ 1013904242 ∷ 2773480762 ∷ 1359893119 ∷ 2600822924 ∷ 528734635
    ∷ 1541459225 ∷ []

abbrev pub add32 : ℕ → ℕ → ℕ
add32 a b = (a + b) % 2 ^ 32

abbrev pub rotate_right : ℕ → ℕ → ℕ
rotate_right a n = a / 2 ^ n + (a % 2 ^ n) * 2 ^ (32 - n)

abbrev pub xor3 : ℕ → ℕ → ℕ → ℕ
xor3 a b c = bit_xor (bit_xor a b) c

abbrev pub flip : ℕ → ℕ
flip a = 2 ^ 32 - 1 - a

-- The loop that pads with zeros.
unfoldable pub pad_from : (fuel : ℕ) → Text → Text
pad_from zero bytes = bytes
pad_from (suc fuel) bytes =
    let rest = pad_from fuel (bytes ++ 0 ∷ []) in if length bytes % 64 == 56 then bytes else rest

unfoldable pub padded : Text → Text
unfolding pad_from
padded bytes = pad_from 64 (bytes ++ 128 ∷ []) ++ be_bytes 8 (mul64 (length bytes) 8)

-- The first `n` words of a chunk.
abbrev pub words : (n : ℕ) → Text → List ℕ
words zero chunk = []
words (suc n) chunk = from_be 0 (take 4 chunk) ∷ words n (drop 4 chunk)

abbrev pub at : List ℕ → ℕ → ℕ
at w i = unwrap_or (get_elem? w i) 0

-- The schedule's words from 16 on: `w` has them newest first.
unfoldable pub extend : (n : ℕ) → List ℕ → List ℕ
extend zero w = w
extend (suc n) w =
    let s0 = xor3 (rotate_right (at w 14) 7) (rotate_right (at w 14) 18) (at w 14 / 2 ^ 3) in
    let s1 = xor3 (rotate_right (at w 1) 17) (rotate_right (at w 1) 19) (at w 1 / 2 ^ 10) in
    extend n (add32 (add32 (add32 (at w 15) s0) (at w 6)) s1 ∷ w)

pub record Vars : Type 0 where
  pub a : ℕ
  pub b : ℕ
  pub c : ℕ
  pub d : ℕ
  pub e : ℕ
  pub f : ℕ
  pub g : ℕ
  pub h : ℕ

-- One round with its constant and its word of the schedule.
unfoldable pub sha_round : ℕ → ℕ → Vars → Vars
sha_round k w v =
    let s1 = xor3 (rotate_right v.e 6) (rotate_right v.e 11) (rotate_right v.e 25) in
    let ch = bit_xor (bit_and v.e v.f) (bit_and (flip v.e) v.g) in
    let temp1 = add32 (add32 (add32 (add32 v.h s1) ch) k) w in
    let s0 = xor3 (rotate_right v.a 2) (rotate_right v.a 13) (rotate_right v.a 22) in
    let maj = xor3 (bit_and v.a v.b) (bit_and v.a v.c) (bit_and v.b v.c) in
    let temp2 = add32 s0 maj in
    record {
      a = add32 temp1 temp2;
      b = v.a;
      c = v.b;
      d = v.c;
      e = add32 v.d temp1;
      f = v.e;
      g = v.f;
      h = v.g;
    }

unfoldable pub rounds : List ℕ → List ℕ → Vars → Vars
unfolding sha_round
rounds (k ∷ ks) (w ∷ ws) v = rounds ks ws (sha_round k w v)
rounds [] ws v = v
rounds (k ∷ ks) [] v = v

abbrev pub reversed : List ℕ → List ℕ → List ℕ
reversed [] acc = acc
reversed (x ∷ xs) acc = reversed xs (x ∷ acc)

abbrev pub vars_of : List ℕ → Vars
vars_of x = record {
  a = at x 0;
  b = at x 1;
  c = at x 2;
  d = at x 3;
  e = at x 4;
  f = at x 5;
  g = at x 6;
  h = at x 7;
}

abbrev pub add_vars : Vars → Vars → Vars
add_vars x y = record {
  a = add32 x.a y.a;
  b = add32 x.b y.b;
  c = add32 x.c y.c;
  d = add32 x.d y.d;
  e = add32 x.e y.e;
  f = add32 x.f y.f;
  g = add32 x.g y.g;
  h = add32 x.h y.h;
}

unfoldable pub process_chunk : Vars → Text → Vars
unfolding rounds extend from_be
process_chunk h chunk =
    let schedule = reversed (extend 48 (reversed (words 16 chunk) [])) [] in
    add_vars h (rounds round_constants schedule h)

-- The chunks of 64 bytes, `n` of them.
unfoldable pub process_chunks : (n : ℕ) → Vars → Text → Vars
unfolding process_chunk
process_chunks zero h bytes = h
process_chunks (suc n) h bytes = process_chunks n (process_chunk h (take 64 bytes)) (drop 64 bytes)

unfoldable pub simple_sha256 : Text → Text
unfolding padded process_chunks be_bytes
simple_sha256 bytes =
    let p = padded bytes in
    let v = process_chunks (length p / 64) (vars_of initial_hash) p in
    be_bytes 4 v.a
    ++ (be_bytes 4 v.b
        ++ (be_bytes 4 v.c
            ++ (be_bytes 4 v.d
                ++ (be_bytes 4 v.e ++ (be_bytes 4 v.f ++ (be_bytes 4 v.g ++ be_bytes 4 v.h))))))

-- The loop stops after `k` zeros, the first number that brings the length to 56 modulo 64.
pad_from-length :
    (fuel k : ℕ) (bytes : Text)
    → k ≤ fuel
    → k < 64
    → (length bytes + k) % 64 ≡ 56
    → length (pad_from fuel bytes) ≡ length bytes + k
unfolding pad_from
pad_from-length zero k bytes h small e = omega arith
pad_from-length (suc fuel) zero bytes h small e = ground arith
pad_from-length (suc fuel) (suc k) bytes h small e =
    let grown = length-append bytes (0 ∷ []) in
    let later =
      pad_from-length fuel k (bytes ++ 0 ∷ []) (omega arith) (omega arith)
        (omega (arith, grown, e)) in
    ground (arith, later, grown)

-- The padding of a message of any length ends: 64 rounds of its loop are enough. It makes whole chunks of
-- 64 bytes, and adds 9 bytes at least and 72 at most.
pub padded-length :
    (bytes : Text)
    → (length (padded bytes) % 64 ≡ 0)
      × (length bytes + 9 ≤ length (padded bytes))
      × (length (padded bytes) ≤ length bytes + 72)
unfolding padded
padded-length bytes =
    let marked = bytes ++ 128 ∷ [] in
    let one = length-append bytes (128 ∷ []) in
    let k = (120 - (length bytes + 1) % 64) % 64 in
    let filled = pad_from-length 64 k marked (omega arith) (omega arith) (omega (arith, one)) in
    let whole = length-append (pad_from 64 marked) (be_bytes 8 (mul64 (length bytes) 8)) in
    let tail = length-be_bytes 8 (mul64 (length bytes) 8) in
    (
      omega (arith, one, filled, whole, tail),
      omega (arith, one, filled, whole, tail),
      omega (arith, one, filled, whole, tail),
    )
