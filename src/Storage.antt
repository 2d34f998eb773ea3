-- ===== src/Storage.antt =====
-- crates/storage/src: the database of the chain. RocksDB and bincode are other crates' code: a column
-- family is a dictionary from a key's bytes (a hash or an address as its number) to the value that
-- was stored, reading and writing succeed, and a batch is written as a whole. `F` is the type of what
-- a receipt's failure says.
pub mod Keys
pub mod Blocks
use rustblockchain.Base.{
  ℕ, ◌+◌, ◌≡◌, Bool, Option, none, some, List, [], ◌∷◌, ◌++◌, if◌then◌else◌, Eq, ◌==◌, nat_eq,
  unwrap_or,
}
use rustblockchain.Base.Dict.{Dict, lookup, insert, remove}
use rustblockchain.Base.Text.{Text, text_eq}
use rustblockchain.Base.Result.{Result, ok, err, ◌>>=◌}
use rustblockchain.Crypto.Hash.{Primitives}
use rustblockchain.Core.Account.{Account}
use rustblockchain.Core.Block.{Block, BlockHeader, hash_header}
use rustblockchain.Core.Epoch.{EpochInfo}
use rustblockchain.Core.Receipt.{TransactionReceipt}
use rustblockchain.Core.Transaction.{SignedTransaction}
use rustblockchain.Core.Validator.{ValidatorInfo}
use rustblockchain.Storage.Keys.{
  StorageError, encode_block_number, decode_block_number, contract_storage_key,
}

pub record ChainDatabase (F : Type 0) : Type 0 where
  pub blocks : Dict Text Block
  pub block_hashes : Dict ℕ Text
  pub signed_transactions : Dict ℕ SignedTransaction
  pub tx_index : Dict ℕ (ℕ × ℕ)
  pub accounts : Dict ℕ Account
  pub receipts : Dict ℕ (TransactionReceipt F)
  pub validators : Dict ℕ ValidatorInfo
  pub epochs : Dict Text EpochInfo
  pub contracts : Dict ℕ Text
  pub contract_storage : Dict Text Text
  pub chain_height : Option ℕ
  pub best_block_hash : Option ℕ
  pub genesis_hash : Option ℕ

module _ {F : Type 0} where
  unfoldable pub get_block_by_number : ℕ → ChainDatabase F → Option Block
  get_block_by_number number db = lookup (encode_block_number number) db.blocks

  unfoldable pub get_block_by_hash : ℕ → ChainDatabase F → Result StorageError (Option Block)
  get_block_by_hash block_hash db = elim (lookup block_hash db.block_hashes) [
    | none ↦ ok none
    | some bytes ↦ do number ← decode_block_number bytes; ok (get_block_by_number number db)
  ]

  abbrev pub set_chain_height : ℕ → ChainDatabase F → ChainDatabase F
  set_chain_height height db = record db { chain_height = some height }

  unfoldable pub get_latest_block : ChainDatabase F → Option Block
  get_latest_block db = elim db.chain_height [
    | none ↦ none
    | some height ↦ get_block_by_number height db
  ]

  abbrev pub set_genesis_hash : ℕ → ChainDatabase F → ChainDatabase F
  set_genesis_hash block_hash db = record db { genesis_hash = some block_hash }

  abbrev pub set_best_block_hash : ℕ → ChainDatabase F → ChainDatabase F
  set_best_block_hash block_hash db = record db { best_block_hash = some block_hash }

  abbrev pub get_account : ℕ → ChainDatabase F → Option Account
  get_account address db = lookup address db.accounts

  abbrev pub put_account : Account → ChainDatabase F → ChainDatabase F
  put_account a db = record db { accounts = insert a.address a db.accounts }

  abbrev pub update_accounts : List Account → ChainDatabase F → ChainDatabase F
  update_accounts [] db = db
  update_accounts (a ∷ rest) db = update_accounts rest (put_account a db)

  unfoldable pub get_contract_storage : ℕ → Text → ChainDatabase F → Option Text
  get_contract_storage addr key db = lookup (contract_storage_key addr key) db.contract_storage

  unfoldable pub put_contract_storage : ℕ → Text → Text → ChainDatabase F → ChainDatabase F
  put_contract_storage addr key value db = record db {
    contract_storage = insert (contract_storage_key addr key) value db.contract_storage;
  }

  unfoldable pub delete_contract_storage : ℕ → Text → ChainDatabase F → ChainDatabase F
  delete_contract_storage addr key db = record db {
    contract_storage = remove (contract_storage_key addr key) db.contract_storage;
  }

  abbrev pub put_contract_code : ℕ → Text → ChainDatabase F → ChainDatabase F
  put_contract_code code_hash code db = record db { contracts = insert code_hash code db.contracts }

  abbrev pub get_contract_code : ℕ → ChainDatabase F → Option Text
  get_contract_code code_hash db = lookup code_hash db.contracts

  abbrev pub put_validator : ValidatorInfo → ChainDatabase F → ChainDatabase F
  put_validator v db = record db { validators = insert v.address v db.validators }

  unfoldable pub put_epoch : EpochInfo → ChainDatabase F → ChainDatabase F
  put_epoch e db = record db { epochs = insert (encode_block_number e.epoch_number) e db.epochs }

  unfoldable pub get_epoch : ℕ → ChainDatabase F → Option EpochInfo
  get_epoch epoch_number db = lookup (encode_block_number epoch_number) db.epochs

  abbrev pub put_receipts : List (TransactionReceipt F) → ChainDatabase F → ChainDatabase F
  put_receipts [] db = db
  put_receipts (r ∷ rest) db =
      put_receipts rest (record db { receipts = insert r.tx_hash r db.receipts })

  -- The transactions from position `i` on, each with its place.
  abbrev pub put_transactions :
      ℕ → (block_number : ℕ) → List SignedTransaction → ChainDatabase F → ChainDatabase F
  put_transactions i block_number [] db = db
  put_transactions i block_number (s ∷ rest) db =
      put_transactions (i + 1) block_number rest (record db {
        signed_transactions = insert s.tx_hash s db.signed_transactions;
        tx_index = insert s.tx_hash (block_number, i) db.tx_index;
      })

  module _ (c : Primitives) (serialize_header : BlockHeader → Text) where
    unfoldable pub put_block : Block → ChainDatabase F → ChainDatabase F
    put_block b db =
        let number_key = encode_block_number b.header.number in
        record db {
          blocks = insert number_key b db.blocks;
          block_hashes =
              insert (hash_header c serialize_header b.header) number_key db.block_hashes;
        }
