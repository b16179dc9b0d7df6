-- ===== src/Bus/Tests.antt =====
-- The layers of the GKR reduction at concrete proofs.
use hardware_wallet_benchmar.Transcript.Sponge
use hardware_wallet_benchmar.Prelude.{
  ℕ, zero, suc, List, ◌++◌, ◌+◌, ◌≡◌, refl, [], ◌∷◌, replicate, ◌≤◌, length, arith, from_le_bytes,
}
use hardware_wallet_benchmar.Error.{ok}
use hardware_wallet_benchmar.Bytecode.{Program, len}
use hardware_wallet_benchmar.Tables.Columns.{bus_bits}
use hardware_wallet_benchmar.Bus.Slot.{Slot, no_slot}
use hardware_wallet_benchmar.Bus.Layout.{
  Layout, build_layout, all_rows_fit, heights_of, kappas_of, table_kappas, block_columns, has_block,
  place_blocks, slots_from, slot_of,
}
use hardware_wallet_benchmar.Transcript.Placement.{
  log2_strict, log2_ceil, bit_length_loop, stack_offsets, sorted_order, sift, place, trailing_zeros,
  trailing_zeros_loop,
}
use hardware_wallet_benchmar.Tables.Slots.{qkeccak_slot, is_keccak_output}
use hardware_wallet_benchmar.Keccak.Shape.{slot_bits}
use hardware_wallet_benchmar.Bus.Layout.Apart.{build_layout-LaidOut, LaidOut}
use hardware_wallet_benchmar.Transcript.Source.{Source}
use hardware_wallet_benchmar.Bus.Gkr.{gkr_layers, verify_gkr}
use hardware_wallet_benchmar.Bus.Depth.{verify_gkr-length}
use hardware_wallet_benchmar.Bus.Schedule.{turns, each_turn, gkr_layers-each_turn}
use hardware_wallet_benchmar.Transcript.Sponge.{Sponge, ds_observe}
use hardware_wallet_benchmar.Transcript.Monad.{Transcript}
use hardware_wallet_benchmar.Field.E.{zero_e, E}
use hardware_wallet_benchmar.Hash.State.{zero_state}
use hardware_wallet_benchmar.Transcript.Ops.{next_scalar, next, read, absorb, from_bytes}

-- a source that serves the byte 0 without end
abbrev zeros : Source ℕ
zeros = record { read = λ piece n s. ok (replicate n 0, s); finish = λ s. ok tt }

abbrev empty_sponge : Sponge
empty_sponge = record { state = zero_state; pending = [] }

abbrev empty : Transcript ℕ
empty = record { source = 0; sponge = empty_sponge }

gkr_layers-each_turn_example :
    gkr_layers zeros 9 5 [] (zero_e ∷ zero_e ∷ zero_e ∷ []) empty
    ≡ each_turn zeros (turns 5) [] (zero_e ∷ zero_e ∷ zero_e ∷ []) empty
gkr_layers-each_turn_example =
    gkr_layers-each_turn zeros 9 5 [] (zero_e ∷ zero_e ∷ zero_e ∷ []) empty (omega arith)

-- the two roots that a reduction of no layers reads
abbrev after_roots : Sponge
after_roots = Sponge.absorb (Sponge.absorb empty_sponge zero_e ds_observe) zero_e ds_observe

gkr_run :
    verify_gkr zeros 0 empty
    ≡ ok ((zero_e, [], zero_e ∷ zero_e ∷ zero_e ∷ []), record { source = 0; sponge = after_roots })
unfolding verify_gkr gkr_layers next_scalar next read absorb from_bytes from_le_bytes
gkr_run = refl

verify_gkr-length_example :
    (length {A = E} [] ≡ 0) × (length (zero_e ∷ zero_e ∷ zero_e ∷ []) ≡ 3) × (0 ≤ 30)
verify_gkr-length_example =
    verify_gkr-length zeros 0 empty (record { source = 0; sponge = after_roots }) zero_e []
      (zero_e ∷ zero_e ∷ zero_e ∷ []) gkr_run

-- 512 rows in each table, 2^16 words of memory and 2^15 instructions
abbrev even_program : Program
even_program = record {
  log_len = 15 + bus_bits;
  fiat_shamir_iv = [];
  column_start = [];
  dict = [];
  entries = [];
}

abbrev even_layout : Layout
even_layout = record {
  log_memory = 16;
  log_bytecode = 15;
  table_rows = replicate 6 512;
  heights = replicate 6 9;
  stack_log = 19;
  placed = 375296;
  keccak = record { log_steps = 9; depth = 12 };
}

-- `n` columns of 512 rows, one after the other from `index` on
unfoldable run_slots : ℕ → ℕ → List Slot
run_slots zero index = []
run_slots (suc n) index = record { variables = 9; index = index } ∷ run_slots n (index + 512)

abbrev even_slots : List Slot
unfolding run_slots
even_slots =
    record { variables = 16; index = 0 }
    ∷ record { variables = 16; index = 65536 }
    ∷ record { variables = 16; index = 131072 }
    ∷ record { variables = 16; index = 196608 }
    ∷ record { variables = 15; index = 262144 }
    ∷ record { variables = 15; index = 294912 }
    ∷ (run_slots 67 327680
        ++ (run_slots 13 320512
            ++ (run_slots 25 294912
                ++ (replicate 25 no_slot ++ (run_slots 1 327168 ++ run_slots 26 361984)))))

even_built : build_layout even_program 16 (replicate 6 512) ≡ ok (even_layout, even_slots)
unfolding build_layout run_slots all_rows_fit heights_of log2_strict log2_ceil bit_length_loop
    kappas_of table_kappas block_columns has_block len trailing_zeros trailing_zeros_loop
    qkeccak_slot is_keccak_output slot_bits stack_offsets sorted_order sift place place_blocks
    slots_from slot_of
even_built = refl

build_layout-LaidOut_example : (19 ≤ 28) × LaidOut 19 even_slots
build_layout-LaidOut_example =
    build_layout-LaidOut even_program 16 (replicate 6 512) even_layout even_slots even_built
