-- ===== src/Host/ProgramData.antt =====
-- leanvm-pow/pow/src/ledger.rs: `program_data`, the compiled program as the device holds it: the stacked
-- bytecode table, sparse, and the Fiat-Shamir IV. The table (`bytecode_table`, leanVM) and Keccak-256
-- (the `sha3` crate) are parameters; the Rust text that the data are printed as is not modelled.
pub mod Entries
pub mod RoundTrip
pub mod Evaluate
pub mod Extension
use hardware_wallet_benchmar.Prelude.{
  ℕ, zero, suc, List, [], ◌∷◌, ◌++◌, ◌+◌, ◌*◌, ◌/◌, ◌^◌, ◌<<<◌, ltb, leb, ◌==◌, ◌&&◌, Option, some,
  none, if◌then◌else◌, bit_or, u32, length, to_le_bytes,
}
use hardware_wallet_benchmar.Bytecode.{Program}
use hardware_wallet_benchmar.Transcript.Placement.{nat_at, trailing_zeros, is_power_of_two}
use hardware_wallet_benchmar.Whir.Merkle.{insert_positions}

-- leanVM's Keccak-relation label, as ASCII
abbrev pub relation_label : List ℕ
relation_label =
    108 ∷ 101 ∷ 97 ∷ 110 ∷ 86 ∷ 77 ∷ 32 ∷ 107 ∷ 101 ∷ 99 ∷ 99 ∷ 97 ∷ 107 ∷ 32 ∷ 71 ∷ 75 ∷ 82 ∷ 58
    ∷ 32 ∷ 107 ∷ 101 ∷ 99 ∷ 99 ∷ 97 ∷ 107 ∷ 45 ∷ 102 ∷ 32 ∷ 105 ∷ 110 ∷ 32 ∷ 116 ∷ 119 ∷ 111 ∷ 32
    ∷ 99 ∷ 101 ∷ 108 ∷ 108 ∷ 32 ∷ 108 ∷ 97 ∷ 121 ∷ 111 ∷ 117 ∷ 116 ∷ 115 ∷ 44 ∷ 32 ∷ 100 ∷ 101 ∷ 112
    ∷ 116 ∷ 104 ∷ 32 ∷ 49 ∷ 50 ∷ 44 ∷ 32 ∷ 112 ∷ 97 ∷ 99 ∷ 107 ∷ 115 ∷ 32 ∷ 111 ∷ 102 ∷ 32 ∷ 49 ∷ 54
    ∷ 32 ∷ 105 ∷ 110 ∷ 32 ∷ 100 ∷ 101 ∷ 103 ∷ 114 ∷ 101 ∷ 101 ∷ 32 ∷ 50 ∷ 51 ∷ 44 ∷ 32 ∷ 108 ∷ 97
    ∷ 110 ∷ 101 ∷ 32 ∷ 115 ∷ 108 ∷ 111 ∷ 116 ∷ 115 ∷ 32 ∷ 116 ∷ 104 ∷ 101 ∷ 110 ∷ 32 ∷ 116 ∷ 97 ∷ 98
    ∷ 108 ∷ 101 ∷ 32 ∷ 99 ∷ 111 ∷ 108 ∷ 117 ∷ 109 ∷ 110 ∷ 115 ∷ 44 ∷ 32 ∷ 111 ∷ 117 ∷ 116 ∷ 112
    ∷ 117 ∷ 116 ∷ 32 ∷ 99 ∷ 108 ∷ 97 ∷ 105 ∷ 109 ∷ 101 ∷ 100 ∷ 32 ∷ 98 ∷ 121 ∷ 32 ∷ 116 ∷ 104 ∷ 101
    ∷ 32 ∷ 98 ∷ 117 ∷ 115 ∷ []

-- "leanvm"
abbrev pub leanvm_label : List ℕ
leanvm_label = 108 ∷ 101 ∷ 97 ∷ 110 ∷ 118 ∷ 109 ∷ []

unfoldable pub nonzero_words : List ℕ → List ℕ
nonzero_words [] = []
nonzero_words (w ∷ words) = let rest = nonzero_words words in if w == 0 then rest else w ∷ rest

-- the dictionary: a `BTreeSet` of the nonzero words, read in order, so ascending and each once
unfoldable pub dictionary : List ℕ → List ℕ
dictionary table = insert_positions [] (nonzero_words table)

-- `binary_search(&word).unwrap()` in the dictionary: where the word stands; the length where the
-- program would panic
unfoldable pub index_of : List ℕ → ℕ → ℕ
index_of [] word = 0
index_of (w ∷ dict) word = if w == word then 0 else index_of dict word + 1

unfoldable pub entry_of : List ℕ → ℕ → ℕ → ℕ
entry_of dict row word = bit_or (u32 (u32 row <<< 16)) (u32 (index_of dict word))

-- the inner loop: the entries of `n` rows of a column, from `row` on
unfoldable pub column_entries : List ℕ → List ℕ → ℕ → ℕ → ℕ → ℕ → List ℕ
column_entries table dict rows column row zero = []
column_entries table dict rows column row (suc n) =
    let word = nat_at table (column * rows + row) in
    let rest = column_entries table dict rows column (row + 1) n in
    if word == 0 then rest else entry_of dict row word ∷ rest

-- the outer loop: `n` columns from `column` on, with `entries` and `starts` so far
unfoldable pub columns_loop : List ℕ → List ℕ → ℕ → ℕ → ℕ → List ℕ → List ℕ → List ℕ × List ℕ
columns_loop table dict rows column zero entries starts = (entries, starts)
columns_loop table dict rows column (suc n) entries starts =
    let entries' = entries ++ column_entries table dict rows column 0 rows in
    columns_loop table dict rows (column + 1) n entries' (starts ++ (length entries' ∷ []))

unfoldable pub table_bytes : List ℕ → List ℕ
table_bytes [] = []
table_bytes (w ∷ words) = to_le_bytes 8 w ++ table_bytes words

module _ (keccak256 : List ℕ → List ℕ) where
  -- the transcript's IV
  unfoldable pub program_iv : List ℕ → List ℕ
  program_iv table =
      let relation = keccak256 relation_label in
      keccak256 (
        leanvm_label
        ++ (to_le_bytes 8 (length relation) ++ (relation ++ keccak256 (table_bytes table))))

  -- `none` where an assertion fails
  unfoldable pub program_data : List ℕ → Option Program
  program_data table =
      let rows = length table / 16 in
      let dict = dictionary table in
      let (entries, starts) = columns_loop table dict rows 0 16 [] (0 ∷ []) in
      if is_power_of_two (length table) && leb rows (2 ^ 16) && ltb (length dict) (2 ^ 16)
      then some (record {
        log_len = trailing_zeros (length table);
        fiat_shamir_iv = program_iv table;
        column_start = starts;
        dict = dict;
        entries = entries;
      })
      else none
