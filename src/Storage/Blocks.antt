-- ===== src/Storage/Blocks.antt =====
-- What crates/storage/src/block_store.rs finds of a block that was stored.
use rustblockchain.Base.{◌<◌, ◌≡◌, refl, some, nat_eq, u64_mod}
use rustblockchain.Base.Dict.{lookup-insert_self}
use rustblockchain.Base.Text.{Text, text_eq}
use rustblockchain.Base.Result.{ok}
use rustblockchain.Crypto.Hash.{Primitives}
use rustblockchain.Core.Block.{Block, BlockHeader, hash_header}
use rustblockchain.Storage.{
  ChainDatabase, put_block, get_block_by_number, get_block_by_hash, get_latest_block,
  set_chain_height,
}
use rustblockchain.Storage.Keys.{encode_block_number, decode-encode_block_number}

-- A stored block is found under its number, under its hash, and as the latest block once its number is
-- the chain's height.
pub put_block-get_block :
    {F : Type 0} (c : Primitives) (serialize_header : BlockHeader → Text) (b : Block)
    (db : ChainDatabase F)
    → b.header.number < u64_mod
    → let stored = put_block c serialize_header b db in
      (get_block_by_number b.header.number stored ≡ some b)
      × (get_block_by_hash (hash_header c serialize_header b.header) stored ≡ ok (some b))
      × (get_latest_block (set_chain_height b.header.number stored) ≡ some b)
unfolding put_block get_block_by_number get_block_by_hash get_latest_block
put_block-get_block c serialize_header b db small =
    let key = encode_block_number b.header.number in
    let found = lookup-insert_self key b db.blocks in
    let named = lookup-insert_self (hash_header c serialize_header b.header) key db.block_hashes in
    let number = decode-encode_block_number b.header.number small in
    (found, rw (get_block_by_hash, named, number, found) refl, found)
