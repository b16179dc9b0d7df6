-- ===== src/Host/ProgramData/Evaluate.antt =====
-- What the verifier's `evaluate` (bytecode.rs) computes from the data of `program_data`.
use native.Mathlib.Decide.{dec_lt}
use hardware_wallet_benchmar.Prelude.{
  ℕ, zero, suc, Bool, true, List, [], ◌∷◌, ◌≡◌, refl, sym, ap, ap₂, ◌∙◌, arith, ◌+◌, ◌*◌, ◌^◌, ◌<◌,
  ◌≤◌, inl, inr, ◌==◌, ◌||◌, ==_iff, ==_false, Bool-cases, if◌then◌else◌, length, ◌>>>◌, subst,
}
use hardware_wallet_benchmar.Field.E.{E, zero_e, ◌⊞◌, ◌⊠◌, mul_k}
use hardware_wallet_benchmar.Field.E.Laws.{add_assoc, zero-add, mul-add, mul_comm, mul-zero}
use hardware_wallet_benchmar.Field.E.Associative.{mul-mul_k}
use hardware_wallet_benchmar.Transcript.Multilinear.{eq_bits}
use hardware_wallet_benchmar.Transcript.Split.{eq_bits-IsElement}
use hardware_wallet_benchmar.Transcript.Placement.{nat_at}
use hardware_wallet_benchmar.Whir.Positions.{contains, insert_positions-Ascending}
use hardware_wallet_benchmar.Bytecode.{Program}
use hardware_wallet_benchmar.Bytecode.Words.{mul_k-zero}
use hardware_wallet_benchmar.Bytecode.Entries.{entry_sum, word_of, RowsBelow}
use hardware_wallet_benchmar.Host.ProgramData.{column_entries, dictionary, nonzero_words, entry_of}
use hardware_wallet_benchmar.Host.ProgramData.Entries.{entry_parts, dict_word}

-- the multilinear extension's terms at `n` indices of the table, from `i` on
unfoldable pub table_sum : List ℕ → List E → ℕ → ℕ → E
table_sum table point i zero = zero_e
table_sum table point i (suc n) =
    mul_k (eq_bits i point) (nat_at table i) ⊞ table_sum table point (i + 1) n

pub table_sum-add :
    (table : List ℕ) (point : List E) (a b i : ℕ)
    → table_sum table point i (a + b) ≡ table_sum table point i a ⊞ table_sum table point (i + a) b
unfolding table_sum
table_sum-add table point zero b i =
    let e : 0 + b ≡ b = omega arith in
    let e' : i ≡ i + 0 = omega arith in
    ap₂ (table_sum table point) e' e ∙ sym (zero-add (table_sum table point (i + 0) b))
table_sum-add table point (suc a) b i =
    let term = mul_k (eq_bits i point) (nat_at table i) in
    let e : suc a + b ≡ suc (a + b) = omega arith in
    let e' : i + 1 + a ≡ i + suc a = omega arith in
    ap (table_sum table point i) e
    ∙ ap (λ t. term ⊞ t) (table_sum-add table point a b (i + 1))
    ∙ sym (add_assoc term (table_sum table point (i + 1) a) (table_sum table point (i + 1 + a) b))
    ∙ ap (λ j. term ⊞ table_sum table point (i + 1) a ⊞ table_sum table point j b) e'

-- a dictionary of 64-bit words
contains-word : (words : List ℕ) (x : ℕ) → contains x words ≡ true → (i : ℕ) × (nat_at words i ≡ x)
unfolding contains
contains-word [] x h = cc
contains-word (w ∷ words) x h = elim (Bool-cases (x == w)) [
  | inl same ↦ (0, sym ((==_iff x w).0 same))
  | inr apart ↦
      let (i, e) = contains-word words x (ap (λ c. c || contains x words) (sym apart) ∙ h) in
      (suc i, e)
]

cons-word :
    (w : ℕ) (words : List ℕ) (i : ℕ)
    → w < 2 ^ 64
    → ((k : ℕ) → nat_at words k < 2 ^ 64)
    → nat_at (w ∷ words) i < 2 ^ 64
cons-word w words zero h k = h
cons-word w words (suc i) h k = k i

nonzero_words-word :
    (table : List ℕ) (i : ℕ)
    → ((j : ℕ) → nat_at table j < 2 ^ 64)
    → nat_at (nonzero_words table) i < 2 ^ 64
unfolding nonzero_words
nonzero_words-word [] i h = omega arith
nonzero_words-word (w ∷ table) i h =
    let later : (k : ℕ) → nat_at (nonzero_words table) k < 2 ^ 64 =
      λ k. nonzero_words-word table k (λ j. h (suc j)) in
    elim (Bool-cases (w == 0)) [
      | inl z ↦
          subst
            (λ (b : Bool).
              nat_at (if b then nonzero_words table else w ∷ nonzero_words table) i < 2 ^ 64)
            (sym z) (later i)
      | inr nz ↦
          subst
            (λ (b : Bool).
              nat_at (if b then nonzero_words table else w ∷ nonzero_words table) i < 2 ^ 64)
            (sym nz) (cons-word w (nonzero_words table) i (h 0) later)
    ]

contains-at : (words : List ℕ) (i : ℕ) → i < length words → contains (nat_at words i) words ≡ true
unfolding contains
contains-at [] i h = absurd (omega arith)
contains-at (w ∷ words) zero h = ap (λ c. c || contains w words) ((==_iff w w).1 refl)
contains-at (w ∷ words) (suc i) h =
    let rest = contains-at words i (omega arith) in ground (arith, rest)

at_or_zero : (words : List ℕ) (i : ℕ) → length words ≤ i → nat_at words i ≡ 0
at_or_zero [] i h = refl
at_or_zero (w ∷ words) zero h = absurd (omega arith)
at_or_zero (w ∷ words) (suc i) h = at_or_zero words i (omega arith)

pub dictionary-word :
    (table : List ℕ) (i : ℕ)
    → ((j : ℕ) → nat_at table j < 2 ^ 64)
    → nat_at (dictionary table) i < 2 ^ 64
unfolding dictionary
dictionary-word table i h = elim (dec_lt i (length (dictionary table))) [
  | yes low ↦
      let x = nat_at (dictionary table) i in
      let (j, e) = contains-word (nonzero_words table) x (
        sym ((insert_positions-Ascending (nonzero_words table)).1 x)
        ∙ contains-at (dictionary table) i low) in
      omega (arith, e, nonzero_words-word table j h)
  | no high ↦ omega (arith, at_or_zero (dictionary table) i (omega (arith, high)))
]

module _ (table : List ℕ) (rows : ℕ) (few : length (dictionary table) < 2 ^ 16) where
  -- the entries of a column, and the words of its rows
  pub entry_sum-rows :
      (program : Program) (point row_point column_point : List E) (column row n : ℕ)
      → program.dict ≡ dictionary table
      → ((r : ℕ)
          → r < rows
          → eq_bits r row_point ⊠ eq_bits column column_point ≡ eq_bits (column * rows + r) point)
      → ((j : ℕ) → nat_at table j < 2 ^ 64)
      → row + n ≤ rows
      → rows ≤ 2 ^ 16
      → eq_bits column column_point
          ⊠ entry_sum program row_point (column_entries table (dictionary table) rows column row n)
        ≡ table_sum table point (column * rows + row) n
  unfolding column_entries entry_sum table_sum
  entry_sum-rows program point row_point column_point column row zero same split words fits small =
      mul-zero (eq_bits column column_point)
  entry_sum-rows program point row_point column_point column row (suc n) same split words fits
        small =
      let dict = dictionary table in
      let weight = eq_bits column column_point in
      let i = column * rows + row in
      let word = nat_at table i in
      let rest = column_entries table dict rows column (row + 1) n in
      let e : column * rows + (row + 1) ≡ i + 1 = omega arith in
      let ih =
        entry_sum-rows program point row_point column_point column (row + 1) n same split words
          (omega (arith, fits)) small
        ∙ ap (λ (j : ℕ). table_sum table point j n) e in
      let later = table_sum table point (i + 1) n in
      let test = λ (b : Bool).
        weight ⊠ entry_sum program row_point (if b then rest else entry_of dict row word ∷ rest) in
      elim (Bool-cases (word == 0)) [
        | inl z ↦
            ap test z
            ∙ ih
            ∙ sym (zero-add later)
            ∙ ap (λ t. t ⊞ later)
                (sym (
                  ap (mul_k (eq_bits i point)) ((==_iff word 0).0 z)
                  ∙ mul_k-zero (eq_bits i point)))
        | inr nz ↦
            let (index_low, found) = dict_word table rows few i (==_false word 0 nz) in
            let (high, low_half) =
              entry_parts dict row word (omega (arith, fits, small)) index_low in
            let entry = entry_of dict row word in
            let its_word : word_of program entry ≡ word =
              ap₂ (λ (d : List ℕ) (k : ℕ). nat_at d k) same low_half ∙ found in
            ap test nz
            ∙ mul-add weight (mul_k (eq_bits (entry >>> 16) row_point) (word_of program entry))
                (entry_sum program row_point rest)
            ∙ ap₂ (λ s t. s ⊞ t)
                (ap₂ (λ (r w : ℕ). weight ⊠ mul_k (eq_bits r row_point) w) high its_word
                  ∙ mul-mul_k weight (eq_bits row row_point) word
                      (eq_bits-IsElement column column_point) (eq_bits-IsElement row row_point)
                      (words i)
                  ∙ ap (λ t. mul_k t word)
                      (mul_comm weight (eq_bits row row_point) ∙ split row (omega (arith, fits))))
                ih
      ]

  pub column_entries-RowsBelow :
      (column row n : ℕ)
      → row + n ≤ rows
      → rows ≤ 2 ^ 16
      → RowsBelow rows (column_entries table (dictionary table) rows column row n)
  unfolding column_entries RowsBelow
  column_entries-RowsBelow column row zero fits small = tt
  column_entries-RowsBelow column row (suc n) fits small =
      let dict = dictionary table in
      let word = nat_at table (column * rows + row) in
      let rest = column_entries table dict rows column (row + 1) n in
      let tail = column_entries-RowsBelow column (row + 1) n (omega (arith, fits)) small in
      let Kept : Bool → Type 0 =
        λ b. RowsBelow rows (if b then rest else entry_of dict row word ∷ rest) in
      elim (Bool-cases (word == 0)) [
        | inl z ↦ subst Kept (sym z) tail
        | inr nz ↦
            let (index_low, found) =
              dict_word table rows few (column * rows + row) (==_false word 0 nz) in
            let (high, low_half) =
              entry_parts dict row word (omega (arith, fits, small)) index_low in
            subst Kept (sym nz) (omega (arith, high, fits), tail)
      ]
