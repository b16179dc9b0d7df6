-- ===== src/Bytecode/Entries.antt =====
-- `evaluate` of leanvm-pow/ledger/verifier/src/bytecode.rs, which weighs the entries of a column in
-- groups and by bits, against the sum over the entries one by one.
use hardware_wallet_benchmar.Prelude.{
  ℕ, zero, suc, Bool, List, [], ◌∷◌, ◌≡◌, refl, sym, ap, ◌∙◌, arith, ◌+◌, ◌-◌, ◌^◌, ◌<◌, ◌≤◌, inl,
  inr, subst, ◌==◌, ==_iff, Bool-cases, if◌then◌else◌, length, take, drop, get_or, bit_and, ◌>>>◌,
  replicate, length-take,
}
use hardware_wallet_benchmar.Field.E.{E, zero_e, ◌⊞◌, ◌⊠◌, mul_k}
use hardware_wallet_benchmar.Field.E.Laws.{
  IsElement, add_assoc, add-zero, zero-add, add-mul, mul_comm, mul-zero, zero-mul,
}
use hardware_wallet_benchmar.Field.E.Associative.{mul-mul_k}
use hardware_wallet_benchmar.Transcript.Multilinear.{at, eq_bits}
use hardware_wallet_benchmar.Bytecode.{
  Program, lo, monomial_sum, add_bits, group_sums, column_groups, columns,
}
use hardware_wallet_benchmar.Bytecode.Monomial.{monomial_sum_zeros}
use hardware_wallet_benchmar.Bytecode.Words.{add_bits-mul_k, length-add_bits}

-- the word of an entry
abbrev pub word_of : Program → ℕ → ℕ
word_of program entry = get_or program.dict (bit_and entry 0xFFFF) 0

-- the sum over entries of their words, each weighed by the equality polynomial at its row
unfoldable pub entry_sum : Program → List E → List ℕ → E
entry_sum program row_point [] = zero_e
entry_sum program row_point (entry ∷ entries) =
    mul_k (eq_bits (entry >>> 16) row_point) (word_of program entry)
    ⊞ entry_sum program row_point entries

-- the entries of a column
abbrev pub column_entries : Program → ℕ → List ℕ
column_entries program column =
    let start = get_or program.column_start column 0 in
    take (get_or program.column_start (column + 1) 0 - start) (drop start program.entries)

-- the sum over `n` columns, from `column` on
unfoldable pub column_sums : ℕ → ℕ → Program → List E → List E → E
column_sums zero column program row_point column_point = zero_e
column_sums (suc n) column program row_point column_point =
    eq_bits column column_point ⊠ entry_sum program row_point (column_entries program column)
    ⊞ column_sums n (column + 1) program row_point column_point

-- every entry's row is below `bound`
unfoldable pub RowsBelow : ℕ → List ℕ → Type 0
RowsBelow bound [] = Unit {0}
RowsBelow bound (entry ∷ entries) = (entry >>> 16 < bound) × RowsBelow bound entries

take-RowsBelow : (bound n : ℕ) (es : List ℕ) → RowsBelow bound es → RowsBelow bound (take n es)
unfolding RowsBelow
take-RowsBelow bound zero es h = tt
take-RowsBelow bound (suc n) [] h = tt
take-RowsBelow bound (suc n) (e ∷ es) (low, rest) = (low, take-RowsBelow bound n es rest)

drop-RowsBelow : (bound n : ℕ) (es : List ℕ) → RowsBelow bound es → RowsBelow bound (drop n es)
unfolding RowsBelow
drop-RowsBelow bound zero es h = h
drop-RowsBelow bound (suc n) [] h = tt
drop-RowsBelow bound (suc n) (e ∷ es) (low, rest) = drop-RowsBelow bound n es rest

mul_k-mul :
    (a b : E) (k : ℕ) → IsElement a → IsElement b → k < 2 ^ 64 → mul_k a k ⊠ b ≡ mul_k (a ⊠ b) k
mul_k-mul a b k ha hb hk =
    mul_comm (mul_k a k) b ∙ mul-mul_k b a k hb ha hk ∙ ap (λ t. mul_k t k) (mul_comm b a)

-- the two kernels weigh the rows below `bound`
pub record Weighs (bound : ℕ) (eq_lo eq_hi row_point : List E) : Type 0 where
  pub low : (row : ℕ) → row < bound → IsElement (at eq_lo (bit_and row (2 ^ lo - 1)))
  pub high : (row : ℕ) → row < bound → IsElement (at eq_hi (row >>> lo))
  pub both :
      (row : ℕ)
      → row < bound
      → at eq_lo (bit_and row (2 ^ lo - 1)) ⊠ at eq_hi (row >>> lo) ≡ eq_bits row row_point

module _ (program : Program) (bound : ℕ) (eq_lo eq_hi row_point : List E)
    (words : (i : ℕ) → get_or program.dict i 0 < 2 ^ 64)
    (weighs : Weighs bound eq_lo eq_hi row_point) where
  -- an entry, added to the bits of its group
  abbrev added : List E → ℕ → List E
  added bs entry =
      add_bits 64 (word_of program entry) (at eq_lo (bit_and (entry >>> 16) (2 ^ lo - 1))) bs

  added_sum :
      (bs : List E) (entry : ℕ)
      → length bs ≡ 64
      → entry >>> 16 < bound
      → monomial_sum (added bs entry) ⊠ at eq_hi (entry >>> 16 >>> lo)
        ≡ monomial_sum bs ⊠ at eq_hi (entry >>> 16 >>> lo)
          ⊞ mul_k (eq_bits (entry >>> 16) row_point) (word_of program entry)
  added_sum bs entry long low =
      let row = entry >>> 16 in
      let weight = at eq_lo (bit_and row (2 ^ lo - 1)) in
      let group = at eq_hi (row >>> lo) in
      let word = word_of program entry in
      ap (λ t. t ⊠ group)
        (add_bits-mul_k word weight bs (weighs.low row low) long (words (bit_and entry 0xFFFF)))
      ∙ add-mul (monomial_sum bs) (mul_k weight word) group
      ∙ ap (λ t. monomial_sum bs ⊠ group ⊞ t)
          (mul_k-mul weight group word (weighs.low row low) (weighs.high row low)
              (words (bit_and entry 0xFFFF))
            ∙ ap (λ t. mul_k t word) (weighs.both row low))

  -- a group's bits weighed, and the entries after it
  group-entry_sum :
      (entries : List ℕ) (group : ℕ) (bs : List E)
      → length bs ≡ 64
      → RowsBelow bound entries
      → monomial_sum (group_sums program eq_lo group bs entries).0 ⊠ at eq_hi group
          ⊞ entry_sum program row_point (group_sums program eq_lo group bs entries).1
        ≡ monomial_sum bs ⊠ at eq_hi group ⊞ entry_sum program row_point entries
  unfolding group_sums entry_sum RowsBelow
  group-entry_sum [] group bs long h = refl
  group-entry_sum (entry ∷ entries) group bs long (low, rest) =
      let row = entry >>> 16 in
      let tail = entry_sum program row_point entries in
      let term = mul_k (eq_bits row row_point) (word_of program entry) in
      let inside = group_sums program eq_lo group (added bs entry) entries in
      let outside : List E × List ℕ = (bs, entry ∷ entries) in
      let value = λ (b : Bool).
        let r = if b then inside else outside in
        monomial_sum r.0 ⊠ at eq_hi group ⊞ entry_sum program row_point r.1 in
      elim (Bool-cases (row >>> lo == group)) [
        | inl same ↦
            let e : row >>> lo ≡ group = (==_iff (row >>> lo) group).0 same in
            ap value same
            ∙ group-entry_sum entries group (added bs entry)
                (length-add_bits 64 (word_of program entry) (at eq_lo (bit_and row (2 ^ lo - 1))) bs
                  ∙ long)
                rest
            ∙ ap (λ g. monomial_sum (added bs entry) ⊠ at eq_hi g ⊞ tail) (sym e)
            ∙ ap (λ t. t ⊞ tail) (added_sum bs entry long low)
            ∙ ap (λ g. monomial_sum bs ⊠ at eq_hi g ⊞ term ⊞ tail) e
            ∙ add_assoc (monomial_sum bs ⊠ at eq_hi group) term tail
        | inr other ↦ ap value other
      ]

  group_rest :
      (entries : List ℕ) (group : ℕ) (bs : List E)
      → RowsBelow bound entries
      → RowsBelow bound (group_sums program eq_lo group bs entries).1
        × (length (group_sums program eq_lo group bs entries).1 ≤ length entries)
  unfolding group_sums RowsBelow
  group_rest [] group bs h = (tt, omega arith)
  group_rest (entry ∷ entries) group bs (low, rest) =
      let inside = group_sums program eq_lo group (added bs entry) entries in
      let outside : List E × List ℕ = (bs, entry ∷ entries) in
      let Rest : Bool → Type 0 = λ b.
        RowsBelow bound (if b then inside else outside).1
        × (length (if b then inside else outside).1 ≤ suc (length entries)) in
      elim (Bool-cases (entry >>> 16 >>> lo == group)) [
        | inl same ↦
            let (fits, fewer) = group_rest entries group (added bs entry) rest in
            subst Rest (sym same) (fits, omega (arith, fewer))
        | inr other ↦ subst Rest (sym other) ((low, rest), omega arith)
      ]

  column_groups-entry_sum :
      (fuel : ℕ) (entries : List ℕ) (sum : E)
      → length entries ≤ fuel
      → RowsBelow bound entries
      → column_groups fuel program eq_lo eq_hi sum entries
        ≡ sum ⊞ entry_sum program row_point entries
  unfolding column_groups entry_sum RowsBelow group_sums
  column_groups-entry_sum zero [] sum enough h = sym (add-zero sum)
  column_groups-entry_sum zero (entry ∷ entries) sum enough h = absurd (omega arith)
  column_groups-entry_sum (suc fuel) [] sum enough h = sym (add-zero sum)
  column_groups-entry_sum (suc fuel) (entry ∷ entries) sum enough (low, rest) =
      let group = entry >>> 16 >>> lo in
      let none_yet = replicate 64 zero_e in
      let weight = at eq_hi group in
      let inside = group_sums program eq_lo group (added none_yet entry) entries in
      let outside : List E × List ℕ = (none_yet, entry ∷ entries) in
      let whole = entry_sum program row_point (entry ∷ entries) in
      let (fits, fewer) = group_rest entries group (added none_yet entry) rest in
      let first : (if group == group then inside else outside) ≡ inside =
        ap (λ (b : Bool). if b then inside else outside) ((==_iff group group).1 refl) in
      let both = group-entry_sum (entry ∷ entries) group none_yet refl (low, rest) in
      let here = monomial_sum inside.0 ⊠ weight in
      let after = entry_sum program row_point inside.1 in
      ap
        (λ (r : List E × List ℕ).
          column_groups fuel program eq_lo eq_hi (sum ⊞ monomial_sum r.0 ⊠ weight) r.1)
        first
      ∙ column_groups-entry_sum fuel inside.1 (sum ⊞ here) (omega (arith, fewer, enough)) fits
      ∙ add_assoc sum here after
      ∙ ap (λ t. sum ⊞ t)
          (ap (λ (r : List E × List ℕ). monomial_sum r.0 ⊠ weight ⊞ entry_sum program row_point r.1)
              (sym first)
            ∙ both
            ∙ ap (λ t. t ⊠ weight ⊞ whole) monomial_sum_zeros
            ∙ ap (λ t. t ⊞ whole) (zero-mul weight)
            ∙ zero-add whole)

  pub columns-column_sums :
      (n column : ℕ) (column_point : List E) (total : E)
      → RowsBelow bound program.entries
      → columns n column program eq_lo eq_hi column_point total
        ≡ total ⊞ column_sums n column program row_point column_point
  unfolding columns column_sums entry_sum
  columns-column_sums zero column column_point total h = sym (add-zero total)
  columns-column_sums (suc n) column column_point total h =
      let start = get_or program.column_start column 0 in
      let end = get_or program.column_start (column + 1) 0 in
      let entries = take (end - start) (drop start program.entries) in
      let weight = eq_bits column column_point in
      let sum = entry_sum program row_point entries in
      let later = column_sums n (column + 1) program row_point column_point in
      let column_sum = column_groups (end - start) program eq_lo eq_hi zero_e entries in
      let Columns = λ (t : E). columns n (column + 1) program eq_lo eq_hi column_point t in
      let test = λ (b : Bool). Columns (if b then total else total ⊞ weight ⊠ column_sum) in
      let computed : column_sum ≡ sum =
        column_groups-entry_sum (end - start) entries zero_e
          (omega (arith, length-take (end - start) (drop start program.entries)))
          (take-RowsBelow bound (end - start) (drop start program.entries)
            (drop-RowsBelow bound start program.entries h))
        ∙ zero-add sum in
      elim (Bool-cases (start == end)) [
        | inl same ↦
            let none_left : end - start ≡ 0 = omega (arith, (==_iff start end).0 same) in
            let empty : sum ≡ zero_e =
              ap (λ (k : ℕ). entry_sum program row_point (take k (drop start program.entries)))
                none_left in
            ap test same
            ∙ columns-column_sums n (column + 1) column_point total h
            ∙ ap (λ t. total ⊞ t)
                (sym (zero-add later)
                  ∙ ap (λ t. t ⊞ later) (sym (ap (λ t. weight ⊠ t) empty ∙ mul-zero weight)))
        | inr apart ↦
            ap test apart
            ∙ columns-column_sums n (column + 1) column_point (total ⊞ weight ⊠ column_sum) h
            ∙ ap (λ t. total ⊞ weight ⊠ t ⊞ later) computed
            ∙ add_assoc total (weight ⊠ sum) later
      ]
