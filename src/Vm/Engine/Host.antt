-- ===== src/Vm/Engine/Host.antt =====
-- The host functions that crates/vm/src/engine.rs gives a contract. An instance's memory is its bytes,
-- or none where it exports none; a pointer and a length are not negative. A result of -1 is the i32
-- with all bits set.
use rustblockchain.Base.{
  ℕ, ◌+◌, ◌-◌, ◌%◌, ◌^◌, Bool, true, false, not, Option, none, some, [], ◌++◌, if◌then◌else◌,
  nat_eq, leb, length, take, drop, add64, mul64, u64_mod, u128_mod,
}
use rustblockchain.Base.Text.{Text}
use rustblockchain.Base.Bytes.{le_bytes, from_le}
use rustblockchain.Base.Result.{ok, err}
use rustblockchain.Vm.Gas.{GasCosts, consume}
use rustblockchain.Vm.Context
use rustblockchain.Vm.Context.{ExecutionContext, get_balance, emit_event}
use rustblockchain.Vm.Engine.{HostState}

pub record Instance : Type 0 where
  pub host : HostState
  pub memory : Option Text

abbrev pub minus_one : ℕ
minus_one = 4294967295

-- Reads and writes of a memory fail outside its bytes.
abbrev pub read_memory : Option Text → (ptr len : ℕ) → Option Text
read_memory none ptr len = none
read_memory (some m) ptr len =
    if leb (ptr + len) (length m) then some (take len (drop ptr m)) else none

abbrev pub write_memory : Option Text → ℕ → Text → Option Text
write_memory none ptr bytes = none
write_memory (some m) ptr bytes =
    if leb (ptr + length bytes) (length m)
    then some (take ptr m ++ (bytes ++ drop (ptr + length bytes) m))
    else none

abbrev pub with_context : ExecutionContext → Instance → Instance
with_context x i = record i { host = record i.host { context = x } }

-- The meter charged, and whether it could pay.
abbrev pub pay : ℕ → Instance → Bool × Instance
pay cost i =
    let (r, meter) = consume cost i.host.context.gas_meter in
    (
      elim r [ ok u ↦ true | err f ↦ false ],
      with_context (record i.host.context { gas_meter = meter }) i,
    )

-- A written value, or the memory as it was.
abbrev pub returned : Instance → Option Text → ℕ → ℕ × Instance
returned i none n = (minus_one, i)
returned i (some m) n = (n, record i { memory = some m })

unfoldable pub host_storage_read : (key_ptr key_len val_ptr : ℕ) → Instance → ℕ × Instance
host_storage_read key_ptr key_len val_ptr i =
    let (paid, j) = pay i.host.gas_costs.storage_read i in
    if not paid then (minus_one, j) else elim (read_memory j.memory key_ptr key_len) [
      | none ↦ (minus_one, j)
      | some key ↦ elim (Context.storage_read j.host.context.contract_address key j.host.context) [
        | err f ↦ (0, j)
        | ok found ↦ elim found [
          | none ↦ (0, j)
          | some value ↦ returned j (write_memory j.memory val_ptr value) (length value % 2 ^ 32)
        ]
      ]
    ]

unfoldable pub host_storage_write : (key_ptr key_len val_ptr val_len : ℕ) → Instance → Instance
host_storage_write key_ptr key_len val_ptr val_len i =
    let (_, j) = pay i.host.gas_costs.storage_write i in
    elim (read_memory j.memory key_ptr key_len) [
      | none ↦ j
      | some key ↦ elim (read_memory j.memory val_ptr val_len) [
        | none ↦ j
        | some value ↦
            with_context
              (Context.storage_write j.host.context.contract_address key value j.host.context) j
      ]
    ]

abbrev pub write_address : ℕ → ℕ → Instance → Instance
write_address out_ptr address i = elim (write_memory i.memory out_ptr (le_bytes 20 address)) [
  | none ↦ i
  | some m ↦ record i { memory = some m }
]

unfoldable pub host_caller : ℕ → Instance → Instance
host_caller out_ptr i = write_address out_ptr i.host.context.caller i

unfoldable pub host_self_address : ℕ → Instance → Instance
host_self_address out_ptr i = write_address out_ptr i.host.context.contract_address i

unfoldable pub host_block_number : Instance → ℕ
host_block_number i = i.host.context.block_number

unfoldable pub host_block_timestamp : Instance → ℕ
host_block_timestamp i = i.host.context.block_timestamp

unfoldable pub host_chain_id : Instance → ℕ
host_chain_id i = i.host.context.chain_id

-- The balance's lowest 64 bits.
unfoldable pub host_self_balance : Instance → ℕ
host_self_balance i = elim (get_balance i.host.context.contract_address i.host.context) [
  | ok n ↦ n % u64_mod
  | err f ↦ 0
]

-- `amount as u128` of an i64, which extends its sign.
abbrev pub sign_extended : ℕ → ℕ
sign_extended n = if leb (2 ^ 63) n then n + (u128_mod - u64_mod) else n

unfoldable pub host_transfer : (to_ptr amount : ℕ) → Instance → ℕ × Instance
host_transfer to_ptr amount i =
    let (paid, j) = pay i.host.gas_costs.transfer i in
    if not paid then (minus_one, j) else elim (read_memory j.memory to_ptr 20) [
      | none ↦ (minus_one, j)
      | some bytes ↦
          let (r, x) =
            Context.transfer j.host.context.contract_address (from_le bytes) (sign_extended amount)
              j.host.context in
          (elim r [ ok u ↦ 0 | err f ↦ minus_one ], with_context x j)
    ]

abbrev pub event_cost : GasCosts → (topics_count data_len : ℕ) → ℕ
event_cost g topics_count data_len =
    add64 (add64 g.event_base (mul64 g.event_per_topic topics_count))
      (mul64 g.event_per_byte data_len)

unfoldable pub host_emit_event : (topics_count data_ptr data_len : ℕ) → Instance → Instance
host_emit_event topics_count data_ptr data_len i =
    let (paid, j) = pay (event_cost i.host.gas_costs topics_count data_len) i in
    if not paid then j else elim (read_memory j.memory data_ptr data_len) [
      | none ↦ j
      | some bytes ↦
          with_context
            (emit_event
              (record {
                address = j.host.context.contract_address;
                topics = [];
                data_bytes = bytes;
              })
              j.host.context)
            j
    ]
