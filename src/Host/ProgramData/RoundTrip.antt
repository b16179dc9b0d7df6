-- ===== src/Host/ProgramData/RoundTrip.antt =====
-- What `program_data` writes is read back as the table.
use native.Mathlib.Decide.{ℕ_discrete}
use mathlib.Core.List.{append_assoc, append-nil}
use hardware_wallet_benchmar.Prelude.{
  ℕ, zero, suc, List, [], ◌∷◌, ◌++◌, ◌≡◌, refl, sym, ap, ◌∙◌, arith, ◌+◌, ◌-◌, ◌*◌, ◌/◌, ◌^◌, ◌≤◌,
  ◌<◌, ltb, ltb→lt, leb, leb→le, ◌&&◌, Bool, true, false, some, none, if◌then◌else◌, length,
  length-append, take, drop,
}
use hardware_wallet_benchmar.Bytecode.{Program}
use hardware_wallet_benchmar.Bits.Linear.{both_left, both_right}
use hardware_wallet_benchmar.Transcript.Placement.{nat_at, is_power_of_two, trailing_zeros}
use hardware_wallet_benchmar.Host.ProgramData.{
  dictionary, column_entries, columns_loop, program_data, program_iv,
}
use hardware_wallet_benchmar.Host.ProgramData.Entries.{
  word_in, entries_of, table_word, column_words,
}

nat_at-append_left : (xs ys : List ℕ) (a : ℕ) → a < length xs → nat_at (xs ++ ys) a ≡ nat_at xs a
nat_at-append_left [] ys a h = absurd (omega arith)
nat_at-append_left (x ∷ xs) ys zero h = refl
nat_at-append_left (x ∷ xs) ys (suc a) h = nat_at-append_left xs ys a (omega arith)

nat_at-snoc : (xs : List ℕ) (y : ℕ) → nat_at (xs ++ (y ∷ [])) (length xs) ≡ y
nat_at-snoc [] y = refl
nat_at-snoc (x ∷ xs) y = nat_at-snoc xs y

drop-append : (xs ys : List ℕ) → drop (length xs) (xs ++ ys) ≡ ys
drop-append [] ys = refl
drop-append (x ∷ xs) ys = drop-append xs ys

take-append : (xs ys : List ℕ) → take (length xs) (xs ++ ys) ≡ xs
take-append [] ys = refl
take-append (x ∷ xs) ys = ap (λ t. x ∷ t) (take-append xs ys)

pub if-some :
    {A : Type 0} (b : Bool) (a a' : A)
    → (if b then some a else none) ≡ some a'
    → (b ≡ true) × (a ≡ a')
if-some true a a' h = (refl, cc)
if-some false a a' h = cc

module _ (table : List ℕ) (rows : ℕ) (few : length (dictionary table) < 2 ^ 16) where
  abbrev pub column_of : ℕ → List ℕ
  column_of column = column_entries table (dictionary table) rows column 0 rows

  abbrev pub loop : ℕ → ℕ → List ℕ → List ℕ → List ℕ × List ℕ
  loop column n entries starts = columns_loop table (dictionary table) rows column n entries starts

  -- the starts and the entries that the loop keeps
  loop_keeps :
      (n column : ℕ) (entries starts : List ℕ)
      → ((x : List ℕ) × ((loop column n entries starts).0 ≡ entries ++ x))
        × ((a : ℕ)
            → a < length starts
            → nat_at (loop column n entries starts).1 a ≡ nat_at starts a)
  unfolding columns_loop
  loop_keeps zero column entries starts = (([], sym (append-nil entries)), λ a h. refl)
  loop_keeps (suc n) column entries starts =
      let entries' = entries ++ column_of column in
      let ((x, e), kept) = loop_keeps n (column + 1) entries' (starts ++ (length entries' ∷ [])) in
      (
        (column_of column ++ x, e ∙ append_assoc entries (column_of column) x),
        λ a h.
            kept a (omega (arith, length-append starts (length entries' ∷ [])))
            ∙ nat_at-append_left starts (length entries' ∷ []) a h,
      )

  pub loop_columns :
      (n column : ℕ) (entries starts : List ℕ) (k : ℕ)
      → length starts ≡ suc column
      → nat_at starts column ≡ length entries
      → column ≤ k
      → k < column + n
      → take
          (nat_at (loop column n entries starts).1 (k + 1)
            - nat_at (loop column n entries starts).1 k)
          (drop (nat_at (loop column n entries starts).1 k) (loop column n entries starts).0)
        ≡ column_of k
  unfolding columns_loop
  loop_columns zero column entries starts k long last low high = absurd (omega arith)
  loop_columns (suc n) column entries starts k long last low high =
      let entries' = entries ++ column_of column in
      let starts' = starts ++ (length entries' ∷ []) in
      let long' : length starts' ≡ suc (column + 1) =
        omega (arith, long, length-append starts (length entries' ∷ [])) in
      let next : column + 1 ≡ length starts = omega (arith, long) in
      let last' : nat_at starts' (column + 1) ≡ length entries' =
        ap (nat_at starts') next ∙ nat_at-snoc starts (length entries') in
      elim (ℕ_discrete k column) [
        | no ne ↦
            loop_columns n (column + 1) entries' starts' k long' last' (omega (arith, ne))
              (omega arith)
        | yes e ↦
            let col = column_of column in
            let ((x, whole), kept) = loop_keeps n (column + 1) entries' starts' in
            let starts_end = (loop (column + 1) n entries' starts').1 in
            let from : nat_at starts_end k ≡ length entries =
              ap (nat_at starts_end) e
              ∙ kept column (omega (arith, long'))
              ∙ nat_at-append_left starts (length entries' ∷ []) column (omega (arith, long))
              ∙ last in
            let e' : k + 1 ≡ column + 1 = omega (arith, e) in
            let to : nat_at starts_end (k + 1) ≡ length entries' =
              ap (nat_at starts_end) e' ∙ kept (column + 1) (omega (arith, long')) ∙ last' in
            let all = whole ∙ append_assoc entries col x in
            let size : length entries' - length entries ≡ length col =
              omega (arith, length-append entries col) in
            (λ i. take (to i - from i) (drop (from i) (all i)))
            ∙ ap (take (length entries' - length entries)) (drop-append entries (col ++ x))
            ∙ ap (λ m. take m (col ++ x)) size
            ∙ take-append col x
            ∙ sym (ap column_of e)
      ]

-- For any hash, the program that program_data gives for a table has in each of the sixteen
-- columns, at each row, the table's word: the one whose place in the dictionary is in the low half
-- of the column's first entry with that row in its high half, and 0 where no entry has the row.
pub program_data-table_word :
    (keccak256 : List ℕ → List ℕ) (table : List ℕ) (program : Program) (column row : ℕ)
    → program_data keccak256 table ≡ some program
    → column < 16
    → row < length table / 16
    → table_word program column row ≡ nat_at table (column * (length table / 16) + row)
unfolding program_data table_word entries_of
program_data-table_word keccak256 table program column row e hc hr =
    let rows = length table / 16 in
    let dict = dictionary table in
    let (entries, starts) = columns_loop table dict rows 0 16 [] (0 ∷ []) in
    let made : Program = record {
      log_len = trailing_zeros (length table);
      fiat_shamir_iv = program_iv keccak256 table;
      column_start = starts;
      dict = dict;
      entries = entries;
    } in
    let power = is_power_of_two (length table) in
    let fits = leb rows (2 ^ 16) in
    let few = ltb (length dict) (2 ^ 16) in
    let (passed, same) = if-some (power && fits && few) made program e in
    let small = ltb→lt (length dict) (2 ^ 16) (both_right (power && fits) few passed) in
    let room =
      leb→le rows (2 ^ 16) (both_right power fits (both_left (power && fits) few passed)) in
    ap (λ p. table_word p column row) (sym same)
    ∙ ap (λ es. word_in dict es row)
        (loop_columns table rows small 16 0 [] (0 ∷ []) column refl refl (omega arith)
          (omega arith))
    ∙ (column_words table rows small column 0 rows row (omega (arith, room))).1 (omega arith)
        (omega arith)
