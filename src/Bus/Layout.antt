-- ===== src/Bus/Layout.antt =====
-- `Layout` and `build_layout`: the heights of the announced tables, and the slot of each column.
pub mod Kappas
pub mod Slots
pub mod Apart
use hardware_wallet_benchmar.Prelude.{
  some, none, ℕ, zero, suc, List, [], ◌∷◌, ◌++◌, Bool, true, false, if◌then◌else◌, ◌+◌, ◌-◌, ◌^◌,
  leb, replicate, set, max, some, ◌&&◌, u8, not, u32, ◌<<<◌, ◌==◌, map, length,
}
use hardware_wallet_benchmar.Error.{
  Result, ok, require, announced_table_sizes, committed_size, ◌>>=◌, ◌>>◌,
}
use hardware_wallet_benchmar.Bytecode.{Program, len}
use hardware_wallet_benchmar.Tables.Slots.{qkeccak_slot, is_keccak_output}
use hardware_wallet_benchmar.Keccak.Shape.{KeccakShape, slot_bits}
use hardware_wallet_benchmar.Bus.Slot.{Slot, no_slot}
use hardware_wallet_benchmar.Transcript.Placement.{log2_strict, log2_ceil, stack_offsets}
use hardware_wallet_benchmar.Tables.Columns.{
  nat_at, table_widths, bus_bits, qkeccak, op_keccak, n_columns,
}
use hardware_wallet_benchmar.Whir.Config.{min_stacked_log, max_stacked_log}

abbrev pub max_table_log : ℕ
max_table_log = 32

abbrev pub keccak_depth : ℕ
keccak_depth = 12

abbrev pub keccak_min_steps_log : ℕ
keccak_min_steps_log = 9

abbrev pub table_log_floors : List ℕ
table_log_floors = 0 ∷ 0 ∷ 0 ∷ 0 ∷ 0 ∷ keccak_min_steps_log ∷ []

pub record Layout : Type 0 where
  pub log_memory : ℕ
  pub log_bytecode : ℕ
  pub table_rows : List ℕ
  pub heights : List ℕ
  pub stack_log : ℕ
  pub placed : ℕ
  pub keccak : KeccakShape

-- is every row count at most `2^32`?
unfoldable pub all_rows_fit : List ℕ → Bool
all_rows_fit [] = true
all_rows_fit (rows ∷ table_rows) = leb rows (2 ^ max_table_log) && all_rows_fit table_rows

unfoldable pub heights_of : List ℕ → List ℕ → List ℕ
heights_of (rows ∷ table_rows) (floor ∷ floors) =
    max (log2_ceil rows) floor ∷ heights_of table_rows floors
heights_of [] floors = []
heights_of (rows ∷ table_rows) [] = []

-- each table's columns have its height
unfoldable pub table_kappas : List ℕ → List ℕ → List ℕ
table_kappas (width ∷ widths) (height ∷ heights) =
    replicate width height ++ table_kappas widths heights
table_kappas [] heights = []
table_kappas (width ∷ widths) [] = []

-- the log size of each column
unfoldable pub kappas_of : ℕ → ℕ → KeccakShape → List ℕ → List ℕ
kappas_of log_memory log_bytecode keccak heights =
    log_memory
    ∷ log_memory
    ∷ log_memory
    ∷ log_memory
    ∷ log_bytecode
    ∷ (keccak.log_steps + slot_bits keccak)
    ∷ table_kappas table_widths heights

-- has `column` a block of its own?
unfoldable pub has_block : ℕ → Bool
has_block column = elim (qkeccak_slot column) [
  | some _ ↦ false
  | none ↦ not (is_keccak_output column)
]

-- the columns that have, of `n` columns from `column` on
unfoldable pub block_columns : ℕ → ℕ → List ℕ
block_columns column zero = []
block_columns column (suc n) =
    let rest = block_columns (column + 1) n in if has_block column then column ∷ rest else rest

-- `offsets[blocks[b]] = block_offsets[b]`, and the words placed
unfoldable pub place_blocks : List ℕ → List ℕ → List ℕ → List ℕ → ℕ → List ℕ × ℕ
place_blocks (column ∷ blocks) (offset ∷ offsets) (kappa ∷ kappas) out placed =
    place_blocks blocks offsets kappas (set out column offset) (placed + 2 ^ kappa)
place_blocks [] offsets kappas out placed = (out, placed)
place_blocks (column ∷ blocks) [] kappas out placed = (out, placed)
place_blocks (column ∷ blocks) (offset ∷ offsets) [] out placed = (out, placed)

-- `u64::MAX`: no offset
abbrev pub no_offset : ℕ
no_offset = 2 ^ 64 - 1

unfoldable pub slot_of : List ℕ → List ℕ → ℕ → Slot
slot_of kappas offsets column =
    let kappa = nat_at kappas column in
    let at_index : ℕ → Slot = λ index. record { variables = u8 kappa; index = u32 index } in
    elim (qkeccak_slot column) [
      | some slot ↦ at_index (nat_at offsets qkeccak + slot <<< kappa)
      | none ↦
          if nat_at offsets column == no_offset then no_slot else at_index (nat_at offsets column)
    ]

-- the slots of `n` columns from `column` on
unfoldable pub slots_from : List ℕ → List ℕ → ℕ → ℕ → List Slot
slots_from kappas offsets column zero = []
slots_from kappas offsets column (suc n) =
    slot_of kappas offsets column ∷ slots_from kappas offsets (column + 1) n

unfoldable pub build_layout : Program → ℕ → List ℕ → Result (Layout × List Slot)
build_layout program log_memory table_rows = do
  log_words ← log2_strict (len program)
  require
      (leb 16 log_memory
        && leb log_memory 32
        && all_rows_fit table_rows
        && leb bus_bits log_words
        && leb log_words (32 + bus_bits))
      announced_table_sizes
  let log_bytecode = log_words - bus_bits
  let heights = heights_of table_rows table_log_floors
  let keccak : KeccakShape = record { log_steps = nat_at heights op_keccak; depth = keccak_depth }
  let kappas = kappas_of log_memory log_bytecode keccak heights
  let blocks = block_columns 0 n_columns
  let block_kappas = map (λ c. nat_at kappas c) blocks
  let stacked = stack_offsets block_kappas (replicate (length blocks) 0)
  let offsets = place_blocks blocks stacked.0 block_kappas (replicate n_columns no_offset) 0
  let stack_log = max min_stacked_log stacked.1
  require (leb stack_log max_stacked_log) committed_size
  ok (
    record {
      log_memory = log_memory;
      log_bytecode = log_bytecode;
      table_rows = table_rows;
      heights = heights;
      stack_log = stack_log;
      placed = offsets.1;
      keccak = keccak;
    },
    slots_from kappas offsets.0 0 n_columns,
  )
