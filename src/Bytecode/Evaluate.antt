-- ===== src/Bytecode/Evaluate.antt =====
-- `evaluate` of leanvm-pow/ledger/verifier/src/bytecode.rs: the kernels that it weighs rows by, and its
-- value.
use hardware_wallet_benchmar.Prelude.{
  ℕ, true, List, ◌≡◌, sym, ap, ap₂, ◌∙◌, arith, ◌+◌, ◌-◌, ◌*◌, ◌/◌, ◌%◌, ◌^◌, ◌<◌, ◌≤◌, ◌==◌,
  ==_iff, leb, ◌&&◌, length, take, drop, get_or, bit_and, ◌>>>◌, replicate, length-take,
  length-drop, length-replicate, take-append-drop, subst, le→leb,
}
use hardware_wallet_benchmar.Bits.And.{and-low_mask}
use hardware_wallet_benchmar.Bits.Pow.{pow_add}
use hardware_wallet_benchmar.Error.{ok, require, multilinear_size, ◌>>◌}
use hardware_wallet_benchmar.Field.E.{E, zero_e, ◌⊠◌}
use hardware_wallet_benchmar.Field.E.Laws.{IsElement, zero-add}
use hardware_wallet_benchmar.Transcript.Multilinear.{at, eq_bits, eq_kernel}
use hardware_wallet_benchmar.Transcript.Kernel.{eq_kernel-eq_bits}
use hardware_wallet_benchmar.Transcript.Rounds.{AllElements}
use hardware_wallet_benchmar.Transcript.Split.{
  take-AllElements, drop-AllElements, eq_bits-IsElement, eq_bits-append,
}
use hardware_wallet_benchmar.Tables.Columns.{bus_bits}
use hardware_wallet_benchmar.Bytecode.{Program, lo, evaluate, columns}
use hardware_wallet_benchmar.Bytecode.Entries.{Weighs, RowsBelow, column_sums, columns-column_sums}

-- the two kernels, of the lowest five coordinates and of the rest
kernels-Weighs :
    (n : ℕ) (row_point : List E)
    → length row_point ≡ n
    → 5 ≤ n
    → AllElements row_point
    → Weighs
        (2 ^ n)
        (eq_kernel (take lo row_point) (replicate (2 ^ lo) zero_e))
        (eq_kernel (drop lo row_point) (replicate (2 ^ (n - lo)) zero_e))
        row_point
kernels-Weighs n row_point long five h =
    let p = take lo row_point in
    let q = drop lo row_point in
    let eq_lo = eq_kernel p (replicate (2 ^ lo) zero_e) in
    let eq_hi = eq_kernel q (replicate (2 ^ (n - lo)) zero_e) in
    let lp : length p ≡ 5 = omega (arith, length-take lo row_point, long) in
    let lq : length q ≡ n - 5 = omega (arith, length-drop lo row_point, long) in
    let parts : 2 ^ n ≡ 32 * 2 ^ (n - 5) =
      let e : n ≡ 5 + (n - 5) = omega arith in ap (λ (t : ℕ). 2 ^ t) e ∙ pow_add 5 (n - 5) in
    let low_at : (row : ℕ) → at eq_lo (bit_and row (2 ^ lo - 1)) ≡ eq_bits (row % 2 ^ length p) p =
      λ row.
        ap (at eq_lo) (and-low_mask 5 row ∙ ap (λ (t : ℕ). row % 2 ^ t) (sym lp))
        ∙ eq_kernel-eq_bits p (replicate 32 zero_e) (row % 2 ^ length p)
            (subst (λ k. 2 ^ k ≤ 32) (sym lp) (omega arith))
            (subst (λ k. row % 2 ^ k < 2 ^ k) (sym lp) (omega arith)) in
    let high_at : (row : ℕ) → row < 2 ^ n → at eq_hi (row >>> lo) ≡ eq_bits (row / 2 ^ length p) q =
      λ row l.
        eq_kernel-eq_bits q (replicate (2 ^ (n - lo)) zero_e) (row / 32)
          (subst (λ k. 2 ^ k ≤ length (replicate (2 ^ (n - lo)) zero_e)) (sym lq)
            (omega (arith, length-replicate (2 ^ (n - lo)) zero_e)))
          (subst (λ k. row / 32 < 2 ^ k) (sym lq) (omega (arith, parts, l)))
        ∙ ap (λ (t : ℕ). eq_bits (row / 2 ^ t) q) (sym lp) in
    record {
      low = λ row l. subst IsElement (sym (low_at row)) (eq_bits-IsElement (row % 2 ^ length p) p);
      high =
          λ row l. subst IsElement (sym (high_at row l)) (eq_bits-IsElement (row / 2 ^ length p) q);
      both = λ row l.
          ap₂ (λ s t. s ⊠ t) (low_at row) (high_at row l)
          ∙ eq_bits-append p q row (drop-AllElements lo row_point h)
          ∙ ap (eq_bits row) (take-append-drop lo row_point);
    }

-- For a program of 2^9 to 2^15 words whose dictionary holds 64-bit words and whose entries are of rows
-- of its columns, at a point of that size, evaluate returns the sum, over the columns and their
-- entries, of the entry's word weighed by the equality polynomial at its row and at its column.
pub evaluate-column_sums :
    (program : Program) (point : List E)
    → length point ≡ program.log_len
    → 9 ≤ program.log_len
    → program.log_len ≤ 15
    → AllElements point
    → ((i : ℕ) → get_or program.dict i 0 < 2 ^ 64)
    → RowsBelow (2 ^ (program.log_len - bus_bits)) program.entries
    → evaluate program point
      ≡ ok (
          column_sums 16 0 program
            (take (program.log_len - bus_bits) point)
            (drop (program.log_len - bus_bits) point))
unfolding evaluate
evaluate-column_sums program point long least most h words rows =
    let n = program.log_len - bus_bits in
    let row_point = take n point in
    let column_point = drop n point in
    let eq_lo = eq_kernel (take lo row_point) (replicate (2 ^ lo) zero_e) in
    let eq_hi = eq_kernel (drop lo row_point) (replicate (2 ^ (n - lo)) zero_e) in
    let total = columns 16 0 program eq_lo eq_hi column_point zero_e in
    let long_rows : length row_point ≡ n = omega (arith, length-take n point, long) in
    let weighs = kernels-Weighs n row_point long_rows (omega arith) (take-AllElements n point h) in
    let first : ((length point == program.log_len) && leb (bus_bits + lo) program.log_len) ≡ true =
      ap₂ (λ a b. a && b) ((==_iff (length point) program.log_len).1 long)
        (le→leb (bus_bits + lo) program.log_len least) in
    let second : leb n (2 * lo + 1) ≡ true = le→leb n (2 * lo + 1) (omega arith) in
    ap
      (λ b.
        require b multilinear_size >> (require (leb n (2 * lo + 1)) multilinear_size >> ok total))
      first
    ∙ ap (λ b. require b multilinear_size >> ok total) second
    ∙ ap ok (
        columns-column_sums program (2 ^ n) eq_lo eq_hi row_point words weighs 16 0 column_point
          zero_e rows
        ∙ zero-add (column_sums 16 0 program row_point column_point))
