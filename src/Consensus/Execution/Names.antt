-- ===== src/Consensus/Execution/Names.antt =====
-- The function's name in a call's data, in crates/consensus/src/state.rs.
use rustblockchain.Base.{
  ℕ, ◌+◌, ◌≤◌, ◌≡◌, refl, Bool, true, false, ◌&&◌, Option, none, some, List, [], ◌∷◌, ◌++◌, arith,
  if◌then◌else◌, leb, ltb, length, length-append, take, drop,
}
use rustblockchain.Base.Text.{Text, text}
use rustblockchain.Base.Bytes.{
  le_bytes, from_le, from_le-le_bytes, length-le_bytes, take-append, drop-append,
}

-- The bounds of a byte that continues a character.
abbrev pub follower : ℕ × ℕ
follower = (128, 191)

-- The bounds of the bytes that follow a first byte in UTF-8.
abbrev pub followers : ℕ → Option (List (ℕ × ℕ))
followers b =
    if leb b 127
    then some []
    else if leb b 193
    then none
    else if leb b 223
    then some (follower ∷ [])
    else if leb b 224
    then some ((160, 191) ∷ follower ∷ [])
    else if leb b 236
    then some (follower ∷ follower ∷ [])
    else if leb b 237
    then some ((128, 159) ∷ follower ∷ [])
    else if leb b 239
    then some (follower ∷ follower ∷ [])
    else if leb b 240
    then some ((144, 191) ∷ follower ∷ follower ∷ [])
    else if leb b 243
    then some (follower ∷ follower ∷ follower ∷ [])
    else if leb b 244
    then some ((128, 143) ∷ follower ∷ follower ∷ [])
    else none

abbrev pub utf8_from : List (ℕ × ℕ) → Text → Bool
utf8_from [] [] = true
utf8_from (r ∷ rs) [] = false
utf8_from [] (b ∷ bs) = elim (followers b) [ none ↦ false | some rs ↦ utf8_from rs bs ]
utf8_from ((low, high) ∷ rs) (b ∷ bs) = leb low b && (leb b high && utf8_from rs bs)

-- Whether `std::str::from_utf8` takes the bytes.
unfoldable pub is_utf8 : Text → Bool
is_utf8 bytes = utf8_from [] bytes

unfoldable pub extract_function_name : Text → Text × Text
extract_function_name bytes =
    let name_len = from_le (take 4 bytes) in
    let rest = drop 4 bytes in
    let name = take name_len rest in
    if leb 4 (length bytes)
      && (ltb 0 name_len
          && (leb name_len 256 && (leb (4 + name_len) (length bytes) && is_utf8 name)))
    then (name, drop name_len rest)
    else (text "call", bytes)

-- The encoding of a call that the function takes apart.
abbrev pub encode_call : Text → Text → Text
encode_call name args = le_bytes 4 (length name) ++ (name ++ args)

-- A name of 1 to 256 bytes that is UTF-8 and stands behind its length is found, and what follows it is
-- handed on as the arguments.
pub extract_function_name-encode_call :
    (name args : Text)
    → 1 ≤ length name
    → length name ≤ 256
    → is_utf8 name ≡ true
    → extract_function_name (encode_call name args) ≡ (name, args)
unfolding extract_function_name
extract_function_name-encode_call name args low high valid =
    let size = length-le_bytes 4 (length name) in
    let head = take-append 4 (le_bytes 4 (length name)) (name ++ args) size in
    let tail = drop-append 4 (le_bytes 4 (length name)) (name ++ args) size in
    let counted : from_le (take 4 (encode_call name args)) ≡ length name =
      rw head (from_le-le_bytes 4 (length name) (omega arith)) in
    let total : length (encode_call name args) ≡ 4 + length name + length args = omega (
      arith,
      length-append (le_bytes 4 (length name)) (name ++ args),
      length-append name args,
      size,
    ) in
    ground (
      arith,
      take-append (length name) name args refl,
      drop-append (length name) name args refl,
      total,
      counted,
      tail,
    )
