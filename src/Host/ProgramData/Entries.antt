-- ===== src/Host/ProgramData/Entries.antt =====
-- An entry read back: its row and its word, and the words of a column.
use native.Mathlib.Decide.{ℕ_discrete}
use hardware_wallet_benchmar.Prelude.{
  ℕ, zero, suc, List, [], ◌∷◌, ◌≡◌, ◌≢◌, refl, sym, ap, ap₂, ◌∙◌, arith, ◌+◌, ◌-◌, ◌*◌, ◌^◌, ◌≤◌,
  ◌<◌, ◌<<<◌, ◌>>>◌, ◌==◌, ==_iff, ==_false, ==_apart, ◌||◌, Bool, true, false, Bool-cases, inl,
  inr, if◌then◌else◌, bit_or, bit_and, u32, length, take, drop,
}
use hardware_wallet_benchmar.Bytecode.{Program}
use hardware_wallet_benchmar.Bits.And.{and-low_mask}
use hardware_wallet_benchmar.Bits.Or.{or_add, or_comm}
use hardware_wallet_benchmar.Transcript.Placement.{nat_at}
use hardware_wallet_benchmar.Whir.Positions.{contains, insert_positions-Ascending}
use hardware_wallet_benchmar.Host.ProgramData.{
  nonzero_words, dictionary, index_of, entry_of, column_entries,
}

or_true : (a b : Bool) → b ≡ true → (a || b) ≡ true
or_true a b h = ground arith

-- The verifier's reading of an entry: its high half is a row, its low half indexes the dictionary. The
-- word at a row, 0 where no entry has it.
unfoldable pub word_in : List ℕ → List ℕ → ℕ → ℕ
word_in dict [] row = 0
word_in dict (entry ∷ entries) row =
    if entry >>> 16 == row then nat_at dict (bit_and entry 0xFFFF) else word_in dict entries row

-- the entries of a column, as the verifier takes them
unfoldable pub entries_of : Program → ℕ → List ℕ
entries_of program column =
    let start = nat_at program.column_start column in
    take (nat_at program.column_start (column + 1) - start) (drop start program.entries)

unfoldable pub table_word : Program → ℕ → ℕ → ℕ
table_word program column row = word_in program.dict (entries_of program column) row

pub entry_parts :
    (dict : List ℕ) (row word : ℕ)
    → row < 2 ^ 16
    → index_of dict word < 2 ^ 16
    → (entry_of dict row word >>> 16 ≡ row)
      × (bit_and (entry_of dict row word) 0xFFFF ≡ index_of dict word)
unfolding entry_of
entry_parts dict row word hr hi =
    let index = index_of dict word in
    let high : u32 (u32 row <<< 16) ≡ row * 2 ^ 16 = omega arith in
    let low : u32 index ≡ index = omega (arith, hi) in
    let whole : entry_of dict row word ≡ index + row * 2 ^ 16 =
      ap₂ bit_or high low ∙ or_comm (row * 2 ^ 16) index ∙ or_add 16 row index hi in
    (
      omega (arith, whole, hi),
      ap (λ e. bit_and e 0xFFFF) whole ∙ and-low_mask 16 (index + row * 2 ^ 16) ∙ omega (arith, hi),
    )

-- a word in the dictionary is where `index_of` says
index_of_lem :
    (dict : List ℕ) (word : ℕ)
    → contains word dict ≡ true
    → (index_of dict word < length dict) × (nat_at dict (index_of dict word) ≡ word)
unfolding index_of contains
index_of_lem [] word h = cc
index_of_lem (w ∷ dict) word h = elim (Bool-cases (w == word)) [
  | inl here ↦
      let at : index_of (w ∷ dict) word ≡ 0 =
        ap (λ c. if c then 0 else index_of dict word + 1) here in
      (omega (arith, at), ap (nat_at (w ∷ dict)) at ∙ (==_iff w word).0 here)
  | inr apart ↦
      let other : word ≢ w = λ e. ==_false w word apart (sym e) in
      let (low, e) =
        index_of_lem dict word
          (ap (λ c. c || contains word dict) (sym (==_apart word w other)) ∙ h) in
      let at : index_of (w ∷ dict) word ≡ suc (index_of dict word) =
        ap (λ c. if c then 0 else index_of dict word + 1) apart ∙ omega arith in
      (omega (arith, at, low), ap (nat_at (w ∷ dict)) at ∙ e)
]

-- every nonzero word of the table is in the dictionary
contains-nonzero_words :
    (table : List ℕ) (i : ℕ)
    → nat_at table i ≢ 0
    → contains (nat_at table i) (nonzero_words table) ≡ true
unfolding nonzero_words contains
contains-nonzero_words [] i h = absurd (h refl)
contains-nonzero_words (w ∷ table) zero h =
    ap (λ c. contains w (if c then nonzero_words table else w ∷ nonzero_words table))
      (==_apart w 0 h)
    ∙ ap (λ c. c || contains w (nonzero_words table)) ((==_iff w w).1 refl)
contains-nonzero_words (w ∷ table) (suc i) h =
    let later = contains-nonzero_words table i h in
    let word = nat_at table i in
    elim (Bool-cases (w == 0)) [
      | inl z ↦
          ap (λ c. contains word (if c then nonzero_words table else w ∷ nonzero_words table)) z
          ∙ later
      | inr nz ↦
          ap (λ c. contains word (if c then nonzero_words table else w ∷ nonzero_words table)) nz
          ∙ or_true (word == w) (contains word (nonzero_words table)) later
    ]

contains-dictionary :
    (table : List ℕ) (i : ℕ)
    → nat_at table i ≢ 0
    → contains (nat_at table i) (dictionary table) ≡ true
unfolding dictionary
contains-dictionary table i h =
    (insert_positions-Ascending (nonzero_words table)).1 (nat_at table i)
    ∙ contains-nonzero_words table i h

module _ (table : List ℕ) (rows : ℕ) (few : length (dictionary table) < 2 ^ 16) where
  pub dict_word :
      (i : ℕ)
      → nat_at table i ≢ 0
      → (index_of (dictionary table) (nat_at table i) < 2 ^ 16)
        × (nat_at (dictionary table) (index_of (dictionary table) (nat_at table i))
            ≡ nat_at table i)
  dict_word i h =
      let (low, e) =
        index_of_lem (dictionary table) (nat_at table i) (contains-dictionary table i h) in
      (omega (arith, low, few), e)

  -- a column's entries from `row` on: nothing below, and the table's words above
  pub column_words :
      (column row n k : ℕ)
      → row + n ≤ 2 ^ 16
      → (k < row
          → word_in (dictionary table) (column_entries table (dictionary table) rows column row n) k
            ≡ 0)
        × (row ≤ k
            → k < row + n
            → word_in
                (dictionary table)
                (column_entries table (dictionary table) rows column row n)
                k
              ≡ nat_at table (column * rows + k))
  unfolding column_entries word_in
  column_words column row zero k fits = ((λ h. refl), λ low high. absurd (omega arith))
  column_words column row (suc n) k fits =
      let dict = dictionary table in
      let word = nat_at table (column * rows + row) in
      let rest = column_entries table dict rows column (row + 1) n in
      let (below, inside) = column_words column (row + 1) n k (omega arith) in
      let run = λ (c : Bool). word_in dict (if c then rest else entry_of dict row word ∷ rest) k in
      elim (Bool-cases (word == 0)) [
        | inl z ↦ (
          (λ h. ap run z ∙ below (omega arith)),
          λ low high. elim (ℕ_discrete k row) [
            | yes e ↦
                ap run z
                ∙ below (omega (arith, e))
                ∙ sym (ap (λ j. nat_at table (column * rows + j)) e ∙ (==_iff word 0).0 z)
            | no ne ↦ ap run z ∙ inside (omega (arith, ne)) (omega arith)
          ],
        )
        | inr nz ↦
            let (index_low, found) = dict_word (column * rows + row) (==_false word 0 nz) in
            let (high, low_half) = entry_parts dict row word (omega arith) index_low in
            let at = λ (a : ℕ) (b : ℕ). if a == k then nat_at dict b else word_in dict rest k in
            let first : run false ≡ (if row == k then word else word_in dict rest k) =
              ap₂ at high low_half ∙ ap (λ w. if row == k then w else word_in dict rest k) found in
            let pass : row ≢ k → run (word == 0) ≡ word_in dict rest k = λ other.
              ap run nz
              ∙ first
              ∙ ap (λ (c : Bool). if c then word else word_in dict rest k) (==_apart row k other) in
            (
              (λ h. pass (λ e. omega arith) ∙ below (omega arith)),
              λ low high'. elim (ℕ_discrete row k) [
                | yes e ↦
                    ap run nz
                    ∙ first
                    ∙ ap (λ (c : Bool). if c then word else word_in dict rest k)
                        ((==_iff row k).1 e)
                    ∙ ap (λ j. nat_at table (column * rows + j)) e
                | no ne ↦ pass ne ∙ inside (omega (arith, ne)) (omega arith)
              ],
            )
      ]
