-- ===== src/Storage/Keys.antt =====
-- The keys of crates/storage/src/db.rs: a block's number in big-endian bytes, and a contract's address
-- before the key of its storage.
use rustblockchain.Base.{
  ℕ, zero, suc, ◌+◌, ◌*◌, ◌/◌, ◌%◌, ◌^◌, ◌<◌, ◌≡◌, refl, ap, sym, ◌∙◌, [], ◌∷◌, ◌++◌, arith, not,
  ◌==◌, nat_eq, length, length-append, u64_mod,
}
use rustblockchain.Base.Text.{Text}
use rustblockchain.Base.Bytes.{
  le_bytes, from_le, from_le-le_bytes, length-le_bytes, take-append, drop-append, byte_shift,
}
use rustblockchain.Base.{take, drop}
use rustblockchain.Base.Result.{Result, ok, err_if, ◌>>◌}

pub data StorageError : Type 0 where
  database serialization deserialization not_found : Text → StorageError
  -- A text that says how many bytes there are.
  bad_number_length : ℕ → StorageError
  column_family_not_found corruption io : Text → StorageError
  schema_mismatch : (expected actual : ℕ) → StorageError

-- The lowest `w` bytes, highest first.
unfoldable pub be_bytes : ℕ → ℕ → Text
be_bytes zero n = []
be_bytes (suc w) n = be_bytes w (n / 256) ++ (n % 256) ∷ []

unfoldable pub from_be : ℕ → Text → ℕ
from_be acc [] = acc
from_be acc (b ∷ bs) = from_be (256 * acc + b) bs

unfoldable pub encode_block_number : ℕ → Text
encode_block_number n = be_bytes 8 n

unfoldable pub decode_block_number : Text → Result StorageError ℕ
decode_block_number bytes =
    err_if (not (length bytes == 8)) (bad_number_length (length bytes)) >> ok (from_be 0 bytes)

unfoldable pub contract_storage_key : ℕ → Text → Text
contract_storage_key address key = le_bytes 20 address ++ key

from_be-append : (acc b : ℕ) (xs : Text) → from_be acc (xs ++ b ∷ []) ≡ 256 * from_be acc xs + b
unfolding from_be
from_be-append acc b [] = refl
from_be-append acc b (x ∷ xs) = from_be-append (256 * acc + x) b xs

from_be-be_bytes : (w n : ℕ) → n < 256 ^ w → from_be 0 (be_bytes w n) ≡ n
unfolding be_bytes from_be
from_be-be_bytes zero n h = omega arith
from_be-be_bytes (suc w) n h =
    from_be-append 0 (n % 256) (be_bytes w (n / 256))
    ∙ omega (arith, from_be-be_bytes w (n / 256) (byte_shift w n h))

pub length-be_bytes : (w n : ℕ) → length (be_bytes w n) ≡ w
unfolding be_bytes
length-be_bytes zero n = refl
length-be_bytes (suc w) n =
    length-append (be_bytes w (n / 256)) ((n % 256) ∷ [])
    ∙ omega (arith, length-be_bytes w (n / 256))

-- The number of a block is read back from its key.
pub decode-encode_block_number :
    (n : ℕ) → n < u64_mod → decode_block_number (encode_block_number n) ≡ ok n
unfolding decode_block_number encode_block_number
decode-encode_block_number n h = ground (arith, length-be_bytes 8 n, from_be-be_bytes 8 n h)

-- Two entries of contract storage have the same key only if they are of the same contract and under
-- the same key of it: the address has a fixed length.
pub contract_storage_key-injective :
    (a b : ℕ) (j k : Text)
    → a < 256 ^ 20
    → b < 256 ^ 20
    → contract_storage_key a j ≡ contract_storage_key b k
    → (a ≡ b) × (j ≡ k)
unfolding contract_storage_key
contract_storage_key-injective a b j k ha hb h = (
  sym (from_le-le_bytes 20 a ha)
      ∙ ap from_le (
          sym (take-append 20 (le_bytes 20 a) j (length-le_bytes 20 a))
          ∙ ap (take 20) h
          ∙ take-append 20 (le_bytes 20 b) k (length-le_bytes 20 b))
      ∙ from_le-le_bytes 20 b hb,
  sym (drop-append 20 (le_bytes 20 a) j (length-le_bytes 20 a))
      ∙ ap (drop 20) h
      ∙ drop-append 20 (le_bytes 20 b) k (length-le_bytes 20 b),
)
