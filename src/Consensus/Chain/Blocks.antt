-- ===== src/Consensus/Chain/Blocks.antt =====
-- What a block changes in the chain's state of crates/consensus/src/state.rs, and what the database has
-- of it afterwards.
use mathlib.Core.Path.{subst}
use rustblockchain.Base.{
  ℕ, ◌+◌, ◌≡◌, ◌⊎◌, ◌↔◌, inl, inr, refl, ap, sym, ◌∙◌, true, some, List, [], ◌∷◌, map, arith,
  nat_eq, add64, Bool-cases,
}
use rustblockchain.Base.Dict.{lookup, lookup-insert_self}
use rustblockchain.Base.Text.{Text, text_eq}
use rustblockchain.Base.Result.{ok, is_ok, Result-cases}
use rustblockchain.Crypto.Hash.{Primitives}
use rustblockchain.Core.Account
use rustblockchain.Core.Account.{Account}
use rustblockchain.Core.Block.{Block, BlockHeader, hash_header}
use rustblockchain.Core.Genesis.{GenesisAccount}
use rustblockchain.Core.Epoch.{is_last_block}
use rustblockchain.Core.Params.{ConsensusParams}
use rustblockchain.Core.Receipt.{TransactionReceipt}
use rustblockchain.Core.Transaction.{SignedTransaction}
use rustblockchain.Core.Validator.{ValidatorInfo}
use rustblockchain.Storage.{
  ChainDatabase, get_block_by_number, put_block, put_account, put_validator, put_epoch,
  update_accounts, put_transactions, put_receipts,
}
use rustblockchain.Storage.Keys.{encode_block_number}
use rustblockchain.Vm.Engine.{Wasmtime, WasmEngine}
use rustblockchain.Consensus.Ledger.{Ledger}
use rustblockchain.Consensus.Execution.{Cause}
use rustblockchain.Consensus.Execution.Kept.{chain_part, execute_from_kept}
use rustblockchain.Consensus.Chain.{
  ChainState, ledger_of, apply_block, maybe_advance_epoch, applied, executed, commit, put_accounts,
  put_validators,
}

module _ {F : Type 0} where
  update_accounts_kept :
      (accounts : List Account) (db : ChainDatabase F)
      → chain_part (update_accounts accounts db) ≡ chain_part db
  update_accounts_kept [] db = refl
  update_accounts_kept (a ∷ rest) db = update_accounts_kept rest (put_account a db)

  put_receipts_kept :
      (rs : List (TransactionReceipt F)) (db : ChainDatabase F)
      → chain_part (put_receipts rs db) ≡ chain_part db
  put_receipts_kept [] db = refl
  put_receipts_kept (r ∷ rest) db = put_receipts_kept rest _

  put_transactions_kept :
      (i n : ℕ) (ss : List SignedTransaction) (db : ChainDatabase F)
      → chain_part (put_transactions i n ss db) ≡ chain_part db
  put_transactions_kept i n [] db = refl
  put_transactions_kept i n (s ∷ rest) db = put_transactions_kept (i + 1) n rest _

pub put_accounts_kept :
    (accounts : List GenesisAccount) (db : ChainDatabase Cause)
    → chain_part (put_accounts accounts db) ≡ chain_part db
put_accounts_kept [] db = refl
put_accounts_kept (a ∷ rest) db =
    put_accounts_kept rest (put_account (Account.new a.address a.balance) db)

pub put_validators_kept :
    (vs : List ValidatorInfo) (db : ChainDatabase Cause)
    → chain_part (put_validators vs db) ≡ chain_part db
put_validators_kept [] db = refl
put_validators_kept (v ∷ rest) db = put_validators_kept rest (put_validator v db)

module _ (c : Primitives) (serialize_header : BlockHeader → Text) where
  -- The database has the head under the height, and knows the genesis.
  pub record IsStored (genesis_hash : ℕ) (st : ChainState) : Type 0 where
    pub head_number : st.head.header.number ≡ st.height
    pub height_stored : st.storage.chain_height ≡ some st.height
    pub head_stored : get_block_by_number st.height st.storage ≡ some st.head
    pub genesis_stored : st.storage.genesis_hash ≡ some genesis_hash

  commit_kept :
      (b : Block) (receipts : List (TransactionReceipt Cause)) (l : Ledger)
      (db : ChainDatabase Cause)
      → chain_part (commit c serialize_header b receipts l db)
        ≡ chain_part (put_block c serialize_header b db)
  unfolding commit put_block
  commit_kept b receipts l db =
      let blocked =
        put_block c serialize_header b (record db { validators = l.stored_validators }) in
      let listed = put_transactions 0 b.header.number b.transactions blocked in
      update_accounts_kept (map (λ (entry : ℕ × Account). entry.1) l.modified)
        (put_receipts receipts listed)
      ∙ put_receipts_kept receipts listed
      ∙ put_transactions_kept 0 b.header.number b.transactions blocked

  pub put_block-get_block_by_number :
      (b : Block) (db : ChainDatabase Cause)
      → get_block_by_number b.header.number (put_block c serialize_header b db) ≡ some b
  unfolding get_block_by_number put_block
  put_block-get_block_by_number b db =
      lookup-insert_self (encode_block_number b.header.number) b db.blocks

  put_block_genesis :
      (b : Block) (db : ChainDatabase Cause)
      → (put_block c serialize_header b db).genesis_hash ≡ db.genesis_hash
  unfolding put_block
  put_block_genesis b db = refl

  stored_height :
      (b : Block) (receipts : List (TransactionReceipt Cause)) (l : Ledger)
      (db : ChainDatabase Cause)
      → (commit c serialize_header b receipts l db).chain_height ≡ some b.header.number
  unfolding commit
  stored_height b receipts l db = refl

  pub chain_part-get_block_by_number :
      (n : ℕ) (x y : ChainDatabase Cause)
      → chain_part x ≡ chain_part y
      → get_block_by_number n x ≡ get_block_by_number n y
  unfolding get_block_by_number
  chain_part-get_block_by_number n x y e = ap (λ p. lookup (encode_block_number n) p.0) e

  pub commit-get_block_by_number :
      (b : Block) (receipts : List (TransactionReceipt Cause)) (l : Ledger)
      (db : ChainDatabase Cause)
      → get_block_by_number b.header.number (commit c serialize_header b receipts l db) ≡ some b
  commit-get_block_by_number b receipts l db =
      chain_part-get_block_by_number b.header.number (commit c serialize_header b receipts l db)
        (put_block c serialize_header b db) (commit_kept b receipts l db)
      ∙ put_block-get_block_by_number b db

  pub maybe_advance_epoch-IsStored :
      (p : ConsensusParams) (genesis_hash now : ℕ) (st : ChainState)
      → IsStored genesis_hash st
      → IsStored genesis_hash (maybe_advance_epoch p now st).1
  unfolding maybe_advance_epoch put_epoch get_block_by_number
  maybe_advance_epoch-IsStored p genesis_hash now st s =
      elim (Bool-cases (is_last_block st.current_epoch st.height)) [
        | inl e ↦
            rw (maybe_advance_epoch, e)
              (record {
                head_number = s.head_number;
                height_stored = s.height_stored;
                head_stored = s.head_stored;
                genesis_stored = s.genesis_stored;
              })
        | inr e ↦ rw (maybe_advance_epoch, e) s
      ]

  -- The head stays, or one block that names it as its parent takes its place.
  abbrev pub Grows : ChainState → ChainState → Type 0
  Grows st st' =
      ((st'.head ≡ st.head) × (st'.height ≡ st.height))
      ⊎ ((st'.head.header.parent_hash ≡ hash_header c serialize_header st.head.header)
          × (st'.height ≡ add64 st.height 1))

  pub maybe_advance_epoch-Grows :
      (p : ConsensusParams) (now : ℕ) (st st' : ChainState)
      → Grows st st'
      → Grows st (maybe_advance_epoch p now st').1
  unfolding maybe_advance_epoch
  maybe_advance_epoch-Grows p now st st' h =
      elim (Bool-cases (is_last_block st'.current_epoch st'.height)) [
        | inl e ↦ rw (maybe_advance_epoch, e) h
        | inr e ↦ rw (maybe_advance_epoch, e) h
      ]

  module _ {Module : Type 0} (m : Wasmtime Module) (to_hex : ℕ → Text) (e : WasmEngine Module) where
    -- A block is applied exactly if its parent is the head and its number the next; otherwise there is an
    -- error, and neither the state nor the engine changes.
    pub apply_block_iff :
        (b : Block) (st : ChainState)
        → let r = apply_block c serialize_header m to_hex b e st in
          let fits =
            (b.header.parent_hash ≡ hash_header c serialize_header st.head.header)
            × (b.header.number ≡ add64 st.height 1) in
          ((is_ok r.0 ≡ true) ↔ fits) × ((is_ok r.0 ≡ true) ⊎ ((r.1 ≡ e) × (r.2 ≡ st)))
    unfolding apply_block
    apply_block_iff b st = ground arith

    pub apply_block-applied :
        (b : Block) (st : ChainState) (receipts : List (TransactionReceipt Cause))
        → (apply_block c serialize_header m to_hex b e st).0 ≡ ok receipts
        → let w = (executed c serialize_header m to_hex b e st).1 in
          (receipts ≡ (executed c serialize_header m to_hex b e st).0)
          × (b.header.parent_hash ≡ hash_header c serialize_header st.head.header)
          × (b.header.number ≡ add64 st.height 1)
          × (apply_block c serialize_header m to_hex b e st
              ≡ (ok receipts, w.engine, applied c serialize_header m to_hex b receipts w st))
    unfolding apply_block
    apply_block-applied b st receipts h = ground arith

    applied-IsStored :
        (genesis_hash : ℕ) (b : Block) (receipts : List (TransactionReceipt Cause))
        (st : ChainState)
        → IsStored genesis_hash st
        → IsStored genesis_hash (
            applied c serialize_header m to_hex b receipts
              (executed c serialize_header m to_hex b e st).1
              st)
    applied-IsStored genesis_hash b receipts st s =
        let w = (executed c serialize_header m to_hex b e st).1 in
        record {
          head_number = refl;
          height_stored = stored_height b receipts w.ledger w.storage;
          head_stored = commit-get_block_by_number b receipts w.ledger w.storage;
          genesis_stored =
              ap (λ p. p.1) (commit_kept b receipts w.ledger w.storage)
              ∙ put_block_genesis b w.storage
              ∙ ap (λ p. p.1)
                  (execute_from_kept m c to_hex b.header (hash_header c serialize_header b.header) 0
                    b.transactions
                    (record {
                      ledger = ledger_of c serialize_header st;
                      storage = st.storage;
                      engine = e;
                    }))
              ∙ s.genesis_stored;
        }

    pub apply_block-IsStored :
        (genesis_hash : ℕ) (b : Block) (st : ChainState)
        → IsStored genesis_hash st
        → IsStored genesis_hash (apply_block c serialize_header m to_hex b e st).2
    apply_block-IsStored genesis_hash b st s =
        elim (Result-cases (apply_block c serialize_header m to_hex b e st).0) [
          | inl (receipts, h) ↦
              subst (IsStored genesis_hash)
                (sym (ap (λ r. r.2) (apply_block-applied b st receipts h).3))
                (applied-IsStored genesis_hash b receipts st s)
          | inr (f, h) ↦ elim (apply_block_iff b st).1 [
            | inl good ↦ absurd (ground arith)
            | inr same ↦ subst (IsStored genesis_hash) (sym same.1) s
          ]
        ]

    pub apply_block-Grows :
        (b : Block) (st : ChainState) → Grows st (apply_block c serialize_header m to_hex b e st).2
    apply_block-Grows b st =
        elim (Result-cases (apply_block c serialize_header m to_hex b e st).0) [
          | inl (receipts, h) ↦
              let (_, parent, number, same) = apply_block-applied b st receipts h in
              rw same (inr (parent, number))
          | inr (f, h) ↦ elim (apply_block_iff b st).1 [
            | inl good ↦ absurd (ground arith)
            | inr same ↦ rw (same.1) (inl (refl, refl))
          ]
        ]
