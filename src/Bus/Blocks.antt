-- ===== src/Bus/Blocks.antt =====
-- `SideLayout`, the blocks of each side, and a block's fingerprint form.
use hardware_wallet_benchmar.Prelude.{
  ℕ, zero, suc, List, [], ◌∷◌, ◌++◌, Bool, if◌then◌else◌, ◌+◌, ◌==◌, u8, map, u32, replicate,
  get_or, length, leb,
}
use hardware_wallet_benchmar.Error.{Result, ok, require, announced_table_sizes, ◌>>◌}
use hardware_wallet_benchmar.Bus.Layout.{Layout}
use hardware_wallet_benchmar.Tables.Columns.{n_flushes, count_columns, numbers, n_tables, nat_at}
use hardware_wallet_benchmar.Field.E.{E, ◌⊞◌}
use hardware_wallet_benchmar.Bus.Slot.{Slot, slot_eq_above, no_slot}
use hardware_wallet_benchmar.Transcript.Placement.{stack_offsets}
use hardware_wallet_benchmar.Transcript.Multilinear.{at, dot}
use hardware_wallet_benchmar.Tables.Flush.{flush}

-- an owner with a flush or a count column
abbrev pub Block : Type 0
Block = ℕ × ℕ

unfoldable pub owned : ℕ → List ℕ → List Block
owned t [] = []
owned t (which ∷ whiches) = (t, which) ∷ owned t whiches

-- the flushes of the tables from `t` on
unfoldable pub flush_blocks : ℕ → List ℕ → List Block
unfolding owned
flush_blocks t [] = []
flush_blocks t (n ∷ flushes) = owned t (numbers 0 n) ++ flush_blocks (t + 1) flushes

unfoldable pub push_pull_blocks : List Block
unfolding flush_blocks
push_pull_blocks = flush_blocks 0 n_flushes

-- the count columns of `n` tables from `t` on
unfoldable pub count_blocks_from : ℕ → ℕ → List Block
unfolding owned
count_blocks_from t zero = []
count_blocks_from t (suc n) = owned t (count_columns t) ++ count_blocks_from (t + 1) n

unfoldable pub count_blocks : List Block
unfolding count_blocks_from
count_blocks = count_blocks_from 0 n_tables

-- the slots of a side, the framework's first, and the depth of its cube
pub record SideLayout : Type 0 where
  pub depth : ℕ
  pub slots : List Slot
  pub n_framework : ℕ

unfoldable pub side_sizes : Layout → Bool → List ℕ
side_sizes layout count =
    let owners = λ (blocks : List Block). map (λ (b : Block). nat_at layout.heights b.0) blocks in
    if count
    then owners count_blocks
    else 0 ∷ layout.log_memory ∷ layout.log_bytecode ∷ owners push_pull_blocks

unfoldable pub side_slots : List ℕ → List ℕ → List Slot
side_slots (size ∷ sizes) (offset ∷ offsets) =
    record { variables = u8 size; index = u32 offset } ∷ side_slots sizes offsets
side_slots [] offsets = []
side_slots (size ∷ sizes) [] = []

-- `SideLayout::new`
unfoldable pub side_layout : Layout → Bool → Result SideLayout
side_layout layout count = do
  let sizes = side_sizes layout count
  let stacked = stack_offsets sizes (replicate (length sizes) 0)
  require (leb stacked.1 32) announced_table_sizes
  ok (record {
    depth = stacked.1;
    slots = side_slots sizes stacked.0;
    n_framework = if count then 0 else 3;
  })

-- `selector`: block `b`'s, at the bus point
unfoldable pub selector : SideLayout → ℕ → List E → E
selector side b point = slot_eq_above (get_or side.slots (side.n_framework + b) no_slot) point

-- on side 2 a block has one coordinate
unfoldable pub block_form : ℕ → ℕ → ℕ → List E → E → List E → E
block_form side owner which v beta weights =
    if side == 2 then at v which else beta ⊞ dot weights (flush owner which (side == 0) v)
