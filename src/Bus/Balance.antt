-- ===== src/Bus/Balance.antt =====
-- `verify_bus_balance`: the bus point, and what the tables owe each side there.
use hardware_wallet_benchmar.Prelude.{
  ℕ, List, [], ◌∷◌, ◌++◌, true, false, ◌+◌, ◌-◌, ◌^◌, take, replicate, not, leb, max, length, ◌&&◌,
}
use hardware_wallet_benchmar.Error.{require, bus_count_zero, announced_table_sizes}
use hardware_wallet_benchmar.Transcript.Monad.{M, ◌>>=◌, ◌>>◌, pure, lift}
use hardware_wallet_benchmar.Transcript.Source.{Source}
use hardware_wallet_benchmar.Field.E.{E, one_e, zero_e, ◌⊞◌, ◌⊠◌, is_zero, pow, gen}
use hardware_wallet_benchmar.Bytecode.{Program, evaluate}
use hardware_wallet_benchmar.Bus.Blocks.{
  SideLayout, Block, side_layout, selector, block_form, push_pull_blocks, count_blocks,
}
use hardware_wallet_benchmar.Transcript.Multilinear.{padding_weight, dot, eq_kernel, at, index_mle}
use hardware_wallet_benchmar.Bus.Slot.{Slot, slot_eq_above}
use hardware_wallet_benchmar.Bus.Layout.{Layout}
use hardware_wallet_benchmar.Tables.Columns.{sep_state, tuple, sep_mem, bus_bits, sep_bytecode}
use hardware_wallet_benchmar.Transcript.Ops.{samples, sample, next_scalars, next_scalar}
use hardware_wallet_benchmar.Tables.Slots.{padding_row}
use hardware_wallet_benchmar.Bus.Gkr.{verify_gkr, max_point}

pub record Bus : Type 0 where
  pub point : List E
  pub memory : List E
  pub memory_final : E
  pub bytecode_final : E
  pub totals : List E
  pub beta : E
  pub weights : List E

-- the framework's forms at a program counter, a memory count and a bytecode count
unfoldable pub fingerprints : List E → List E → E → E → E → E → E → E → List E
fingerprints weights memory memory_index bytecode_index bytecode_value pc memory_count
      bytecode_count =
    dot (take 3 weights) (sep_state ∷ pc ∷ one_e ∷ [])
    ∷ dot (take 6 weights)
        (sep_mem ∷ memory_index ∷ memory_count ∷ at memory 0 ∷ at memory 1 ∷ at memory 2 ∷ [])
    ∷ (dot (take 3 weights) (sep_bytecode ∷ bytecode_index ∷ bytecode_count ∷ []) ⊞ bytecode_value)
    ∷ []

-- the framework's blocks: what is known, and the sum of the selectors
unfoldable pub framework_loop : List E → E → List Slot → List E → E × E → E × E
framework_loop point beta (slot ∷ slots) (form ∷ forms) (known, selector_sum) =
    let selector = slot_eq_above slot point in
    framework_loop point beta slots forms
      (known ⊞ selector ⊠ (beta ⊞ form), selector_sum ⊞ selector)
framework_loop point beta [] forms sums = sums
framework_loop point beta (slot ∷ slots) [] sums = sums

unfoldable pub padding_weights : List E → List ℕ → List ℕ → List E
padding_weights point (height ∷ heights) (rows ∷ table_rows) =
    padding_weight (take height point) rows ∷ padding_weights point heights table_rows
padding_weights point [] table_rows = []
padding_weights point (height ∷ heights) [] = []

-- the tables' blocks from `b` on: the sum of the selectors, and the padding rows
unfoldable pub block_loop :
    ℕ → SideLayout → List E → List E → E → List E → ℕ → List Block → E × E → E × E
block_loop side layout point weights_of_padding beta weights b [] sums = sums
block_loop side layout point weights_of_padding beta weights b ((owner, which) ∷ blocks)
      (selector_sum, padding_rows) =
    let s = selector layout b point in
    let form = block_form side owner which (padding_row owner) beta weights in
    block_loop side layout point weights_of_padding beta weights (b + 1) blocks
      (selector_sum ⊞ s, padding_rows ⊞ s ⊠ at weights_of_padding owner ⊠ (form ⊞ one_e))

-- what the tables owe a side
unfoldable pub side_total :
    ℕ → SideLayout → List Block → List E → List E → List E → E → List E → E → E
unfolding framework_loop block_loop
side_total side layout blocks framework point weights_of_padding beta weights tree_value =
    let (known, framework_sum) =
      framework_loop point beta (take layout.n_framework layout.slots) framework (zero_e, zero_e) in
    let (selector_sum, padding_rows) =
      block_loop side layout point weights_of_padding beta weights 0 blocks
        (framework_sum, zero_e) in
    tree_value ⊞ known ⊞ selector_sum ⊞ one_e ⊞ padding_rows

-- `one_weight`
abbrev pub one_weight : List E
one_weight = one_e ∷ replicate (tuple - 1) zero_e

module _ {S : Type 0} (src : Source S) where
  unfoldable pub verify_bus_balance : Program → Layout → M S Bus
  verify_bus_balance program layout = do
    flush_layout ← lift (side_layout layout false)
    alphas ← samples bus_bits
    let weights = eq_kernel alphas (replicate tuple zero_e)
    beta ← sample
    (count_root, point, tree_values) ← verify_gkr src flush_layout.depth
    lift (require (not (is_zero count_root)) bus_count_zero)
    lift (
        require
          (leb (max layout.log_memory layout.log_bytecode) (length point)
            && leb (layout.log_bytecode + bus_bits) max_point)
          announced_table_sizes)
    memory ← next_scalars src 3
    memory_final ← next_scalar src
    bytecode_final ← next_scalar src
    let memory_index = index_mle (take layout.log_memory point)
    let bytecode_index = index_mle (take layout.log_bytecode point)
    bytecode_value ← lift (evaluate program (take layout.log_bytecode point ++ alphas))
    let prints = fingerprints weights memory memory_index bytecode_index bytecode_value
    let final_pc = pow gen (2 ^ layout.log_bytecode - 1)
    let push = prints one_e one_e one_e
    let pull = prints final_pc memory_final bytecode_final
    let padding = padding_weights point layout.heights layout.table_rows
    count_layout ← lift (side_layout layout true)
    pure (record {
      point = point;
      memory = memory;
      memory_final = memory_final;
      bytecode_final = bytecode_final;
      totals =
          side_total 0 flush_layout push_pull_blocks push point padding beta weights
            (at tree_values 0)
          ∷ side_total 1 flush_layout push_pull_blocks pull point padding beta weights
              (at tree_values 1)
          ∷ side_total 2 count_layout count_blocks [] point padding zero_e one_weight
              (at tree_values 2)
          ∷ [];
      beta = beta;
      weights = weights;
    })
