-- ===== src/Crypto/Hash.antt =====
-- crates/crypto/src/hash.rs, and the addresses and signatures of crates/crypto/src/keypair.rs. A
-- hash, a key and an address are the numbers of their bytes, lowest first. BLAKE3 and Ed25519 are
-- other crates' code, and so is the serializer: `Primitives` holds what the code calls of them.
use rustblockchain.Base.{ℕ, Bool, List, [], ◌∷◌, ◌++◌, length, take, not}
use rustblockchain.Base.Text.{Text}
use rustblockchain.Base.Bytes.{le_bytes, from_le}
use rustblockchain.Base.Result.{Result, err_if}

pub record Primitives : Type 0 where
  pub blake3 : Text → ℕ
  -- Whether the signature of the message is valid for the key.
  pub ed25519 : ℕ → Text → ℕ → Bool

pub data CryptoError : Type 0 where
  invalid_signature : CryptoError

module _ (c : Primitives) where
  abbrev pub hash : Text → ℕ
  hash data_bytes = c.blake3 data_bytes

  unfoldable pub framed : List Text → Text
  framed [] = []
  framed (item ∷ items) = le_bytes 8 (length item) ++ (item ++ framed items)

  -- The hasher takes the items one after the other, each behind its length.
  unfoldable pub hash_multiple : List Text → ℕ
  hash_multiple items = c.blake3 (framed items)

  unfoldable pub to_address : ℕ → ℕ
  to_address public_key = from_le (take 20 (le_bytes 32 (hash (le_bytes 32 public_key))))

  abbrev pub verify_key : ℕ → Text → ℕ → Result CryptoError (Unit {0})
  verify_key public_key message signature =
      err_if (not (c.ed25519 public_key message signature)) invalid_signature
