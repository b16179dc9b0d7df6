-- ===== src/Host/ProgramData/Extension.antt =====
-- `program_data` (leanvm-pow/pow/src/ledger.rs) and then `evaluate` (leanvm-pow/ledger/verifier/src/
-- bytecode.rs): the multilinear extension of the table.
use native.Mathlib.Nat.{add-div_right, add-mod_right, div-eq_of_lt, mod-eq_of_lt}
use hardware_wallet_benchmar.Prelude.{
  ℕ, zero, suc, List, [], ◌∷◌, ◌++◌, ◌≡◌, refl, sym, ap, ap₂, ◌∙◌, arith, ◌+◌, ◌-◌, ◌*◌, ◌/◌, ◌%◌,
  ◌^◌, ◌<◌, ◌≤◌, ltb, ltb→lt, leb, leb→le, ◌&&◌, length, take, drop, subst, some, take-append-drop,
  length-take,
}
use hardware_wallet_benchmar.Bits.Linear.{both_left, both_right}
use hardware_wallet_benchmar.Bits.Pow.{pow_add}
use hardware_wallet_benchmar.Error.{ok, ok-inj, require, not_power_of_two, result-bind_ok}
use hardware_wallet_benchmar.Field.E.{E, ◌⊞◌, ◌⊠◌}
use hardware_wallet_benchmar.Transcript.Multilinear.{eq_bits}
use hardware_wallet_benchmar.Transcript.Rounds.{AllElements}
use hardware_wallet_benchmar.Transcript.Split.{drop-AllElements, eq_bits-append}
use hardware_wallet_benchmar.Transcript.Placement.{
  nat_at, log2_strict, trailing_zeros, is_power_of_two,
}
use hardware_wallet_benchmar.Whir.Sampled.{log2_strict-power}
use hardware_wallet_benchmar.Bytecode.{Program, evaluate}
use hardware_wallet_benchmar.Bytecode.Entries.{entry_sum, column_sums, RowsBelow}
use hardware_wallet_benchmar.Bytecode.Entries
use hardware_wallet_benchmar.Bytecode.Evaluate.{evaluate-column_sums}
use hardware_wallet_benchmar.Host.ProgramData.{
  column_entries, columns_loop, dictionary, program_data, program_iv,
}
use hardware_wallet_benchmar.Host.ProgramData.RoundTrip.{loop_columns, if-some}
use hardware_wallet_benchmar.Host.ProgramData.Evaluate.{
  table_sum, table_sum-add, entry_sum-rows, column_entries-RowsBelow, dictionary-word,
}

row_div : (column r p : ℕ) → r < p → (column * p + r) / p ≡ column
row_div zero r p h = let e : 0 * p + r ≡ r = omega arith in ap (λ (t : ℕ). t / p) e ∙ div-eq_of_lt h
row_div (suc column) r p h =
    let e : suc column * p + r ≡ column * p + r + p = omega arith in
    let some_rows : 0 < p = omega (arith, h) in
    let grown = add-div_right (column * p + r) some_rows in
    omega (arith, ap (λ (t : ℕ). t / p) e, grown, row_div column r p h)

row_mod : (column r p : ℕ) → r < p → (column * p + r) % p ≡ r
row_mod zero r p h = let e : 0 * p + r ≡ r = omega arith in ap (λ (t : ℕ). t % p) e ∙ mod-eq_of_lt h
row_mod (suc column) r p h =
    let e : suc column * p + r ≡ column * p + r + p = omega arith in
    ap (λ (t : ℕ). t % p) e ∙ add-mod_right (column * p + r) p ∙ row_mod column r p h

strict_zeros : (k : ℕ) → k ≤ 32 → trailing_zeros (2 ^ k) ≡ k
unfolding log2_strict
strict_zeros k h =
    let (u, e, e') =
      result-bind_ok (require (is_power_of_two (2 ^ k)) not_power_of_two) _ k
        (log2_strict-power k h) in
    ok-inj e'

append-RowsBelow :
    (bound : ℕ) (xs ys : List ℕ)
    → RowsBelow bound xs
    → RowsBelow bound ys
    → RowsBelow bound (xs ++ ys)
unfolding RowsBelow
append-RowsBelow bound [] ys h h' = h'
append-RowsBelow bound (x ∷ xs) ys (low, rest) h' = (low, append-RowsBelow bound xs ys rest h')

module _ (table : List ℕ) (rows : ℕ) (few : length (dictionary table) < 2 ^ 16) where
  abbrev built : List ℕ × List ℕ
  built = columns_loop table (dictionary table) rows 0 16 [] (0 ∷ [])

  loop-RowsBelow :
      (n column : ℕ) (entries starts : List ℕ)
      → rows ≤ 2 ^ 16
      → RowsBelow rows entries
      → RowsBelow rows (columns_loop table (dictionary table) rows column n entries starts).0
  unfolding columns_loop
  loop-RowsBelow zero column entries starts small h = h
  loop-RowsBelow (suc n) column entries starts small h =
      let entries' = entries ++ column_entries table (dictionary table) rows column 0 rows in
      loop-RowsBelow n (column + 1) entries' (starts ++ (length entries' ∷ [])) small (
        append-RowsBelow rows entries (column_entries table (dictionary table) rows column 0 rows) h
          (column_entries-RowsBelow table rows few column 0 rows (omega arith) small))

  column_sums-table_sum :
      (program : Program) (point row_point column_point : List E) (n column : ℕ)
      → program.dict ≡ dictionary table
      → program.entries ≡ built.0
      → program.column_start ≡ built.1
      → ((c r : ℕ)
          → r < rows
          → eq_bits r row_point ⊠ eq_bits c column_point ≡ eq_bits (c * rows + r) point)
      → ((j : ℕ) → nat_at table j < 2 ^ 64)
      → rows ≤ 2 ^ 16
      → column + n ≤ 16
      → column_sums n column program row_point column_point
        ≡ table_sum table point (column * rows) (n * rows)
  unfolding column_sums table_sum
  column_sums-table_sum program point row_point column_point zero column same all starts split words
        small fits =
      let e : 0 ≡ 0 * rows = omega arith in ap (table_sum table point (column * rows)) e
  column_sums-table_sum program point row_point column_point (suc n) column same all starts split
        words small fits =
      let weight = eq_bits column column_point in
      let own = column_entries table (dictionary table) rows column 0 rows in
      let first : column * rows + 0 ≡ column * rows = omega arith in
      let next : (column + 1) * rows ≡ column * rows + rows = omega arith in
      let count : rows + n * rows ≡ suc n * rows = omega arith in
      let stored : Entries.column_entries program column ≡ own =
        (λ i.
          take (nat_at (starts i) (column + 1) - nat_at (starts i) column)
            (drop (nat_at (starts i) column) (all i)))
        ∙ loop_columns table rows few 16 0 [] (0 ∷ []) column refl refl (omega arith)
            (omega (arith, fits)) in
      ap₂ (λ s t. s ⊞ t)
        (ap (λ es. weight ⊠ entry_sum program row_point es) stored
          ∙ entry_sum-rows table rows few program point row_point column_point column 0 rows same
              (split column) words (omega arith) small
          ∙ ap (λ (i : ℕ). table_sum table point i rows) first)
        (column_sums-table_sum program point row_point column_point n (column + 1) same all starts
            split words small (omega (arith, fits))
          ∙ ap (λ (i : ℕ). table_sum table point i (n * rows)) next)
      ∙ sym (table_sum-add table point rows (n * rows) (column * rows))
      ∙ ap (table_sum table point (column * rows)) count

-- For any hash, of the program that program_data gives for a table of 2^k 64-bit words, k from 9
-- to 15, evaluate returns at a point of k elements of three words the multilinear extension of the
-- table: the sum over all indices of the table's word times the equality polynomial at the index.
pub program_data-evaluate :
    (keccak256 : List ℕ → List ℕ) (table : List ℕ) (program : Program) (k : ℕ) (point : List E)
    → program_data keccak256 table ≡ some program
    → length table ≡ 2 ^ k
    → 9 ≤ k
    → k ≤ 15
    → ((j : ℕ) → nat_at table j < 2 ^ 64)
    → length point ≡ k
    → AllElements point
    → evaluate program point ≡ ok (table_sum table point 0 (2 ^ k))
unfolding program_data RowsBelow
program_data-evaluate keccak256 table program k point e size least most words long h =
    let rows = length table / 16 in
    let dict = dictionary table in
    let n = k - 4 in
    let row_point = take n point in
    let column_point = drop n point in
    let (entries, starts) = columns_loop table dict rows 0 16 [] (0 ∷ []) in
    let made : Program = record {
      log_len = trailing_zeros (length table);
      fiat_shamir_iv = program_iv keccak256 table;
      column_start = starts;
      dict = dict;
      entries = entries;
    } in
    let power = is_power_of_two (length table) in
    let fits = leb rows (2 ^ 16) in
    let (passed, same) = if-some (power && fits && ltb (length dict) (2 ^ 16)) made program e in
    let few =
      ltb→lt (length dict) (2 ^ 16)
        (both_right (power && fits) (ltb (length dict) (2 ^ 16)) passed) in
    let room =
      leb→le rows (2 ^ 16)
        (both_right power fits (both_left (power && fits) (ltb (length dict) (2 ^ 16)) passed)) in
    let its_dict : program.dict ≡ dict = ap (λ (p : Program). p.dict) (sym same) in
    let its_entries : program.entries ≡ entries = ap (λ (p : Program). p.entries) (sym same) in
    let its_starts : program.column_start ≡ starts =
      ap (λ (p : Program). p.column_start) (sym same) in
    let log : program.log_len ≡ k =
      ap (λ (p : Program). p.log_len) (sym same)
      ∙ ap trailing_zeros size
      ∙ strict_zeros k (omega arith) in
    let whole : 2 ^ k ≡ 16 * 2 ^ n =
      let e' : k ≡ 4 + n = omega arith in ap (λ (t : ℕ). 2 ^ t) e' ∙ pow_add 4 n in
    let rows_power : rows ≡ 2 ^ n = omega (arith, size, whole) in
    let log_rows : program.log_len - 4 ≡ n = omega (arith, log) in
    let point_rows : 2 ^ length row_point ≡ rows =
      let e' : length row_point ≡ n = omega (arith, length-take n point, long) in
      ap (λ (t : ℕ). 2 ^ t) e' ∙ sym rows_power in
    let split : (c r : ℕ)
        → r < rows
        → eq_bits r row_point ⊠ eq_bits c column_point ≡ eq_bits (c * rows + r) point =
      λ c r l.
        let i = c * rows + r in
        ap₂ (λ (a b : ℕ). eq_bits a row_point ⊠ eq_bits b column_point)
          (sym (ap (λ (t : ℕ). i % t) point_rows ∙ row_mod c r rows l))
          (sym (ap (λ (t : ℕ). i / t) point_rows ∙ row_div c r rows l))
        ∙ eq_bits-append row_point column_point i (drop-AllElements n point h)
        ∙ ap (eq_bits i) (take-append-drop n point) in
    let below : RowsBelow (2 ^ (program.log_len - 4)) program.entries =
      subst (λ (b : ℕ). RowsBelow b program.entries)
        (rows_power ∙ ap (λ (t : ℕ). 2 ^ t) (sym log_rows))
        (subst (RowsBelow rows) (sym its_entries)
          (loop-RowsBelow table rows few 16 0 [] (0 ∷ []) room tt)) in
    let start : 0 * rows ≡ 0 = omega arith in
    let all : 16 * rows ≡ 2 ^ k = omega (arith, whole, rows_power) in
    evaluate-column_sums program point (long ∙ sym log) (omega (arith, log)) (omega (arith, log)) h
      (λ i. omega (arith, ap (λ d. nat_at d i) its_dict, dictionary-word table i words)) below
    ∙ ap (λ m. ok (column_sums 16 0 program (take m point) (drop m point))) log_rows
    ∙ ap ok (
        column_sums-table_sum table rows few program point row_point column_point 16 0 its_dict
          its_entries its_starts split words room (omega arith)
        ∙ ap₂ (table_sum table point) start all)
