-- ===== src/Bus/Layout/Apart.antt =====
-- What `build_layout` promises of the slots that it returns.
use native.Mathlib.Decide.{dec_lt}
use native.Mathlib.Nat.{pow-le-pow_right}
use hardware_wallet_benchmar.Prelude.{
  ℕ, List, ◌≡◌, ◌≢◌, sym, ap, ◌∙◌, arith, ◌+◌, ◌-◌, ◌*◌, ◌^◌, ◌<◌, ◌≤◌, ◌⊎◌, leb, leb→le, ◌&&◌,
  true, length, replicate, max, length-replicate, length-map, map, subst,
}
use hardware_wallet_benchmar.Error.{
  ok, ok-inj, require, require-true, result-bind_ok, announced_table_sizes, committed_size,
}
use hardware_wallet_benchmar.Bits.Linear.{both_left, both_right}
use hardware_wallet_benchmar.Bytecode.{Program, len}
use hardware_wallet_benchmar.Transcript.Placement.{log2_strict, stack_offsets}
use hardware_wallet_benchmar.Transcript.Placement.Disjoint.{Stacked, stack_offsets-Stacked}
use hardware_wallet_benchmar.Tables.Columns.{nat_at, n_columns, bus_bits, op_keccak}
use hardware_wallet_benchmar.Whir.Config.{min_stacked_log, max_stacked_log}
use hardware_wallet_benchmar.Keccak.Shape.{KeccakShape}
use hardware_wallet_benchmar.Bus.Slot.{Slot}
use hardware_wallet_benchmar.Bus.Layout.{
  Layout, build_layout, all_rows_fit, heights_of, kappas_of, table_log_floors, keccak_depth,
  has_block, block_columns, place_blocks, slots_from, slot_of, no_offset,
}
use hardware_wallet_benchmar.Bus.Layout.Kappas.{
  AllLe, AllLe-at, kappas-AllLe, block_spot, block_columns-Rising, length-block_columns, Rising,
}
use hardware_wallet_benchmar.Bus.Layout.Slots.{
  slot_at, slots_from-at, slot_of-block, place_blocks-at, length-stack_offsets, nat_at-map,
}

-- the columns with a block of their own, in a stack of `2^stack_log` words: each at a multiple of its
-- size, and no two of them share a word
pub record LaidOut (stack_log : ℕ) (slots : List Slot) : Type 0 where
  pub aligned :
      (c : ℕ)
      → c < n_columns
      → has_block c ≡ true
      → (q : ℕ) × ((slot_at slots c).index ≡ q * 2 ^ (slot_at slots c).variables)
  pub inside :
      (c : ℕ)
      → c < n_columns
      → has_block c ≡ true
      → (slot_at slots c).index + 2 ^ (slot_at slots c).variables ≤ 2 ^ stack_log
  pub apart :
      (c d : ℕ)
      → c < n_columns
      → d < n_columns
      → has_block c ≡ true
      → has_block d ≡ true
      → c ≢ d
      → ((slot_at slots c).index + 2 ^ (slot_at slots c).variables ≤ (slot_at slots d).index)
        ⊎ ((slot_at slots d).index + 2 ^ (slot_at slots d).variables ≤ (slot_at slots c).index)

small_power : (k : ℕ) → 2 ^ k ≤ 2 ^ 28 → k < 2 ^ 8
small_power k h = elim (dec_lt k (2 ^ 8)) [
  | yes low ↦ low
  | no high ↦
      let two : 0 < 2 = omega arith in
      let above : 256 ≤ k = omega arith in absurd (omega (arith, pow-le-pow_right two above))
]

module _ (kappas : List ℕ) (stack_log : ℕ) (small : AllLe 38 kappas) where
  abbrev blocks : List ℕ
  blocks = block_columns 0 n_columns

  abbrev block_kappas : List ℕ
  block_kappas = map (λ c. nat_at kappas c) blocks

  abbrev stacked : List ℕ × ℕ
  stacked = stack_offsets block_kappas (replicate (length blocks) 0)

  abbrev offsets : List ℕ
  offsets = (place_blocks blocks stacked.0 block_kappas (replicate n_columns no_offset) 0).0

  abbrev placed_slots : List Slot
  placed_slots = slots_from kappas offsets 0 n_columns

  rising : Rising 0 (0 + n_columns) blocks
  rising = block_columns-Rising n_columns 0

  all_stacked : Stacked block_kappas stacked.0 stacked.1
  all_stacked =
      stack_offsets-Stacked block_kappas (replicate (length blocks) 0)
        (length-replicate (length blocks) 0 ∙ sym (length-map blocks (λ c. nat_at kappas c)))
        (omega (arith, length-map blocks (λ c. nat_at kappas c), length-block_columns n_columns 0))
        (λ i h. omega (
          arith,
          nat_at-map kappas blocks i (omega (arith, length-map blocks (λ c. nat_at kappas c))),
          AllLe-at 38 kappas small (nat_at blocks i),
        ))

  abbrev run_slot : ℕ → Slot
  run_slot a = record { variables = nat_at block_kappas a; index = nat_at stacked.0 a }

  module _ (fits : stacked.1 ≤ stack_log) (bounded : stack_log ≤ 28) where
    -- what lies in the stack has a small size and a small offset
    run_bounds :
        (a : ℕ)
        → a < length block_kappas
        → (nat_at stacked.0 a + 2 ^ nat_at block_kappas a ≤ 2 ^ stack_log)
          × (nat_at block_kappas a < 2 ^ 8)
          × (nat_at stacked.0 a < 2 ^ 32)
    run_bounds a h =
        let two : 0 < 2 = omega arith in
        let grown = pow-le-pow_right two fits in
        let capped = pow-le-pow_right two bounded in
        let here = all_stacked.inside a h in
        (
          omega (arith, grown, here),
          small_power (nat_at block_kappas a) (omega (arith, here, grown, capped)),
          omega (arith, here, grown, capped),
        )

    spot :
        (c : ℕ)
        → c < n_columns
        → has_block c ≡ true
        → (a : ℕ) × (a < length block_kappas)
          × (nat_at blocks a ≡ c)
          × (slot_at placed_slots c ≡ run_slot a)
    unfolding slot_at Rising
    spot c low h =
        let (a, within, at) = block_spot n_columns 0 c (omega arith) (omega (arith, low)) h in
        let long = length-map blocks (λ j. nat_at kappas j) in
        let within' : a < length block_kappas = omega (arith, within, long) in
        let (reach, size_small, offset_small) = run_bounds a within' in
        let size : nat_at block_kappas a ≡ nat_at kappas c =
          nat_at-map kappas blocks a within ∙ ap (nat_at kappas) at in
        let offset : nat_at offsets c ≡ nat_at stacked.0 a =
          ap (nat_at offsets) (sym at)
          ∙ place_blocks-at blocks stacked.0 block_kappas (replicate n_columns no_offset) 0 a
              (length-stack_offsets block_kappas (replicate (length blocks) 0)
                ∙ length-replicate (length blocks) 0)
              long
              (λ b hb.
                let (l, u) = rising.0 b hb in
                omega (arith, u, length-replicate n_columns no_offset))
              rising.1 within in
        (
          a,
          within',
          at,
          slots_from-at kappas offsets n_columns 0 c low
              ∙ ap (slot_of kappas offsets) (omega arith)
              ∙ slot_of-block kappas offsets c h (omega (arith, size, size_small))
                  (omega (arith, offset, offset_small))
              ∙ (λ i. record { variables = sym size i; index = offset i }),
        )

    laid_out : LaidOut stack_log placed_slots
    laid_out = record {
      aligned = λ c low h.
          let (a, within, at, e) = spot c low h in
          subst (λ (s : Slot). (q : ℕ) × (s.index ≡ q * 2 ^ s.variables)) (sym e)
            (all_stacked.aligned a within);
      inside = λ c low h.
          let (a, within, at, e) = spot c low h in
          subst (λ (s : Slot). s.index + 2 ^ s.variables ≤ 2 ^ stack_log) (sym e)
            (run_bounds a within).0;
      apart = λ c d low low' h h' differ.
          let (a, within, at, e) = spot c low h in
          let (b, within', at', e') = spot d low' h' in
          let Apart : Slot → Slot → Type 0 = λ s s'.
            (s.index + 2 ^ s.variables ≤ s'.index) ⊎ (s'.index + 2 ^ s'.variables ≤ s.index) in
          subst (λ s. Apart s (slot_at placed_slots d)) (sym e)
            (subst (Apart (run_slot a)) (sym e') (
              all_stacked.apart a b within within'
                (λ same. differ (sym at ∙ ap (nat_at blocks) same ∙ at'))));
    }

-- A layout that build_layout returns has at most 2^28 words, and the columns with a block of their own
-- lie in it: each at a multiple of its size, and no two of them share a word.
pub build_layout-LaidOut :
    (program : Program) (log_memory : ℕ) (table_rows : List ℕ) (layout : Layout) (slots : List Slot)
    → build_layout program log_memory table_rows ≡ ok (layout, slots)
    → (layout.stack_log ≤ 28) × LaidOut layout.stack_log slots
unfolding build_layout
build_layout-LaidOut program log_memory table_rows layout found e =
    let (log_words, e0, e1) = result-bind_ok (log2_strict (len program)) _ (layout, found) e in
    let heights = heights_of table_rows table_log_floors in
    let keccak : KeccakShape = record {
      log_steps = nat_at heights op_keccak;
      depth = keccak_depth;
    } in
    let kappas = kappas_of log_memory (log_words - bus_bits) keccak heights in
    let a = leb 16 log_memory in
    let b = leb log_memory 32 in
    let c = all_rows_fit table_rows in
    let d = leb bus_bits log_words in
    let f = leb log_words (32 + bus_bits) in
    let (u, e2, e3) =
      result-bind_ok (require (a && b && c && d && f) announced_table_sizes) _ (layout, found) e1 in
    let passed = require-true (a && b && c && d && f) announced_table_sizes e2 in
    let abcd = both_left (a && b && c && d) f passed in
    let f_holds = both_right (a && b && c && d) f passed in
    let abc = both_left (a && b && c) d abcd in
    let memory = leb→le log_memory 32 (both_right a b (both_left (a && b) c abc)) in
    let small =
      kappas-AllLe log_memory (log_words - bus_bits) table_rows memory
        (omega (arith, leb→le log_words (32 + bus_bits) f_holds)) (both_right (a && b) c abc) in
    let total = (stacked kappas 0 small).1 in
    let (v, e4, e5) =
      result-bind_ok (require (leb (max min_stacked_log total) max_stacked_log) committed_size) _
        (layout, found) e3 in
    let bounded =
      leb→le (max min_stacked_log total) max_stacked_log
        (require-true (leb (max min_stacked_log total) max_stacked_log) committed_size e4) in
    subst (λ (x : Layout × List Slot). (x.0.stack_log ≤ 28) × LaidOut x.0.stack_log x.1) (ok-inj e5)
      (bounded, laid_out kappas (max min_stacked_log total) small (omega arith) bounded)
