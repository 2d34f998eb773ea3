-- ===== src/Consensus/Chain/Restart.antt =====
-- What crates/consensus/src/state.rs finds of a chain when it starts again on the same database.
use mathlib.Core.Path.{subst}
use rustblockchain.Base.{
  ℕ, ◌/◌, ◌≤◌, ◌≡◌, inl, inr, refl, ap, sym, ◌∙◌, none, some, List, [], ◌∷◌, arith, ==_iff, nat_eq,
  Option-cases, mul64,
}
use rustblockchain.Base.Text.{Text, text_eq}
use rustblockchain.Base.Result.{ok, Result-cases}
use rustblockchain.Crypto.Hash.{Primitives}
use rustblockchain.Core.Block
use rustblockchain.Core.Block.{Block, BlockHeader, hash_header}
use rustblockchain.Core.Account
use rustblockchain.Core.Validator.{ValidatorInfo}
use rustblockchain.Storage.Keys.{encode_block_number}
use rustblockchain.Base.Dict.{lookup}
use rustblockchain.Core.Genesis.{
  GenesisAccount, GenesisConfig, validate, to_genesis_block, to_validator_infos,
}
use rustblockchain.Storage.{
  ChainDatabase, get_block_by_number, put_block, put_epoch, put_account, put_validator,
  set_genesis_hash, set_chain_height,
}
use rustblockchain.Vm.Engine.{Wasmtime, WasmEngine}
use rustblockchain.Consensus.Execution.{Cause}
use rustblockchain.Consensus.Execution.Kept.{chain_part}
use rustblockchain.Consensus.Chain.{
  ChainState, from_genesis, load_chain, apply_block, maybe_advance_epoch, genesis_set, epoch_end,
  first_epoch, first_storage, put_accounts, put_validators,
}
use rustblockchain.Consensus.Chain.Blocks.{
  IsStored, apply_block-IsStored, maybe_advance_epoch-IsStored, put_accounts_kept,
  put_validators_kept, put_block-get_block_by_number,
}

module _ (c : Primitives) (serialize_header : BlockHeader → Text) (g : GenesisConfig) where
  -- A chain that starts on a database, takes blocks, and enters new epochs.
  pub data Reach {Module : Type 0} (m : Wasmtime Module) (to_hex : ℕ → Text)
      : ChainState → Type 0 where
    started :
        (db : ChainDatabase Cause) (st : ChainState)
        → db.genesis_hash ≡ none
        → from_genesis c serialize_header g db ≡ some (ok st)
        → Reach m to_hex st
    took :
        {st : ChainState} (b : Block) (e : WasmEngine Module)
        → Reach m to_hex st
        → Reach m to_hex (apply_block c serialize_header m to_hex b e st).2
    advanced :
        {st : ChainState} (now : ℕ)
        → Reach m to_hex st
        → Reach m to_hex (maybe_advance_epoch g.consensus_params now st).1

  abbrev hash_of : Block → ℕ
  hash_of b = hash_header c serialize_header b.header

  first_storage_kept :
      (b : Block) (db : ChainDatabase Cause)
      → chain_part (first_storage c serialize_header g b db)
        ≡ ((put_block c serialize_header b db).blocks, some (hash_of b))
  unfolding first_storage put_epoch
  first_storage_kept b db =
      let headed =
        set_genesis_hash (hash_of b) (set_chain_height 0 (put_block c serialize_header b db)) in
      put_validators_kept (to_validator_infos g) (put_accounts g.initial_accounts headed)
      ∙ put_accounts_kept g.initial_accounts headed

  accounts_height :
      (accounts : List GenesisAccount) (db : ChainDatabase Cause)
      → (put_accounts accounts db).chain_height ≡ db.chain_height
  accounts_height [] db = refl
  accounts_height (a ∷ rest) db =
      accounts_height rest (put_account (Account.new a.address a.balance) db)

  validators_height :
      (vs : List ValidatorInfo) (db : ChainDatabase Cause)
      → (put_validators vs db).chain_height ≡ db.chain_height
  validators_height [] db = refl
  validators_height (v ∷ rest) db = validators_height rest (put_validator v db)

  first_height :
      (b : Block) (db : ChainDatabase Cause)
      → (first_storage c serialize_header g b db).chain_height ≡ some 0
  unfolding first_storage put_epoch
  first_height b db =
      let headed =
        set_genesis_hash (hash_of b) (set_chain_height 0 (put_block c serialize_header b db)) in
      validators_height (to_validator_infos g) (put_accounts g.initial_accounts headed)
      ∙ accounts_height g.initial_accounts headed

  genesis_number : (b : Block) → to_genesis_block g ≡ some b → b.header.number ≡ 0
  unfolding to_genesis_block Block.genesis
  genesis_number b e = ground arith

  abbrev first_state : Block → ChainDatabase Cause → ChainState
  first_state b db = record {
    head = b;
    height = 0;
    current_epoch = first_epoch g;
    storage = first_storage c serialize_header g b db;
  }

  -- A start on an empty database needs a valid configuration, and gives the state of its block.
  from_genesis-first :
      (db : ChainDatabase Cause) (st : ChainState)
      → db.genesis_hash ≡ none
      → from_genesis c serialize_header g db ≡ some (ok st)
      → (validate g ≡ ok tt)
        × ((b : Block) × (to_genesis_block g ≡ some b) × (st ≡ first_state b db))
  unfolding from_genesis
  from_genesis-first db st fresh h = elim (Result-cases (validate g)) [
    | inr (x, bad) ↦ absurd (ground arith)
    | inl (u, good) ↦ elim (Option-cases (to_genesis_block g)) [
      | inl missing ↦ absurd (ground arith)
      | inr (b, made) ↦ (good, (b, made, ground arith))
    ]
  ]

  first_block :
      (n : ℕ) (b : Block) (db : ChainDatabase Cause)
      → get_block_by_number n (first_storage c serialize_header g b db)
        ≡ get_block_by_number n (put_block c serialize_header b db)
  unfolding get_block_by_number
  first_block n b db = ap (λ p. lookup (encode_block_number n) p.0) (first_storage_kept b db)

  first_state-IsStored :
      (b : Block) (db : ChainDatabase Cause)
      → to_genesis_block g ≡ some b
      → IsStored c serialize_header (hash_of b) (first_state b db)
  first_state-IsStored b db made = record {
    head_number = genesis_number b made;
    height_stored = first_height b db;
    head_stored =
        ap (λ n. get_block_by_number n (first_storage c serialize_header g b db))
          (sym (genesis_number b made))
        ∙ first_block b.header.number b db
        ∙ put_block-get_block_by_number c serialize_header b db;
    genesis_stored = ap (λ p. p.1) (first_storage_kept b db);
  }

  -- The state that a start finds in the database of the given one.
  abbrev reloaded : ChainState → ChainState
  reloaded st =
      let len = g.consensus_params.epoch_length in
      let start = mul64 (st.height / len) len in
      record st {
        current_epoch = record {
          epoch_number = st.height / len;
          start_block = start;
          end_block = epoch_end start len;
          validator_set = genesis_set g;
          finalized_block = none;
        };
      }

  load_chain-stored :
      (st : ChainState) (genesis_hash : ℕ)
      → IsStored c serialize_header genesis_hash st
      → 1 ≤ g.consensus_params.epoch_length
      → load_chain g st.storage ≡ some (ok (reloaded st))
  unfolding load_chain
  load_chain-stored st genesis_hash s len = ground (arith, s.height_stored, s.head_stored)

  from_genesis-load_chain :
      (db : ChainDatabase Cause) (b : Block)
      → validate g ≡ ok tt
      → to_genesis_block g ≡ some b
      → db.genesis_hash ≡ some (hash_of b)
      → from_genesis c serialize_header g db ≡ load_chain g db
  unfolding from_genesis
  from_genesis-load_chain db b good made known = ground (arith, ==_iff (hash_of b) (hash_of b))

  -- A start on the database of a chain keeps it.
  pub from_genesis-IsStored :
      (st st' : ChainState) (b : Block)
      → validate g ≡ ok tt
      → to_genesis_block g ≡ some b
      → IsStored c serialize_header (hash_of b) st
      → 1 ≤ g.consensus_params.epoch_length
      → from_genesis c serialize_header g st.storage ≡ some (ok st')
      → IsStored c serialize_header (hash_of b) st'
  from_genesis-IsStored st st' b good made s len h =
      let found =
        from_genesis-load_chain st.storage b good made s.genesis_stored
        ∙ load_chain-stored st (hash_of b) s len in
      let same : reloaded st ≡ st' = cc (found, h) in
      subst (IsStored c serialize_header (hash_of b)) same (record {
        head_number = s.head_number;
        height_stored = s.height_stored;
        head_stored = s.head_stored;
        genesis_stored = s.genesis_stored;
      })

  module _ {Module : Type 0} (m : Wasmtime Module) (to_hex : ℕ → Text) where
    -- The configuration of a chain that has started is valid, and its block has the hash that is stored.
    pub Reach-IsStored :
        {st : ChainState}
        → Reach m to_hex st
        → (validate g ≡ ok tt)
          × ((b : Block) × (to_genesis_block g ≡ some b)
              × IsStored c serialize_header (hash_of b) st)
    Reach-IsStored (started db st fresh h) =
        let (good, (b, made, same)) = from_genesis-first db st fresh h in
        (
          good,
          (
            b,
            made,
            subst (IsStored c serialize_header (hash_of b)) (sym same)
                (first_state-IsStored b db made),
          ),
        )
    Reach-IsStored (took {st = st} b e r) =
        let (good, (first, made, s)) = Reach-IsStored r in
        (
          good,
          (first, made, apply_block-IsStored c serialize_header m to_hex e (hash_of first) b st s),
        )
    Reach-IsStored (advanced {st = st} now r) =
        let (good, (first, made, s)) = Reach-IsStored r in
        (
          good,
          (
            first,
            made,
            maybe_advance_epoch-IsStored c serialize_header g.consensus_params (hash_of first) now
                st s,
          ),
        )

    -- Whatever blocks a chain has taken and whatever epochs it has entered, a start on its database finds
    -- its head and its height again, where an epoch has at least one block. The validators are those of
    -- the genesis, whatever stakes were added or withdrawn since.
    pub from_genesis_restart :
        (st : ChainState)
        → Reach m to_hex st
        → 1 ≤ g.consensus_params.epoch_length
        → (st' : ChainState) × (from_genesis c serialize_header g st.storage ≡ some (ok st'))
          × (st'.head ≡ st.head)
          × (st'.height ≡ st.height)
          × (st'.current_epoch.validator_set ≡ genesis_set g)
    from_genesis_restart st r len =
        let (good, (b, made, s)) = Reach-IsStored r in
        (
          reloaded st,
          from_genesis-load_chain st.storage b good made s.genesis_stored
              ∙ load_chain-stored st (hash_of b) s len,
          refl,
          refl,
          refl,
        )
