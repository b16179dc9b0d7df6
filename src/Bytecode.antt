-- ===== src/Bytecode.antt =====
-- leanvm-pow/ledger/verifier/src/bytecode.rs: the stacked bytecode table's multilinear extension,
-- from the sparse table. The generated data (program.rs) is a parameter.
pub mod Monomial
pub mod Words
pub mod Entries
pub mod Evaluate
use hardware_wallet_benchmar.Prelude.{
  ℕ, zero, suc, List, [], ◌∷◌, ◌+◌, ◌>>>◌, get_or, ◌^◌, length, take, bit_and, ◌==◌, replicate,
  ◌&&◌, ◌-◌, u128, if◌then◌else◌, set, leb, ◌<<<◌, drop, ◌*◌,
}
use hardware_wallet_benchmar.Error.{Result, ok, require, multilinear_size, ◌>>◌}
use hardware_wallet_benchmar.Field.E.{E, new, zero_e, ◌⊞◌, ◌⊠◌}
use hardware_wallet_benchmar.Transcript.Multilinear.{eq_bits, eq_kernel, at}
use hardware_wallet_benchmar.Tables.Columns.{bus_bits}
use hardware_wallet_benchmar.Transcript.Placement.{trailing_zeros}
use hardware_wallet_benchmar.Field.Clmul.{reduce}
use hardware_wallet_benchmar.Bits.Xor.{◌⊕◌}

-- the constants of program.rs
pub record Program : Type 0 where
  pub log_len : ℕ
  pub fiat_shamir_iv : List ℕ
  pub column_start : List ℕ
  pub dict : List ℕ
  pub entries : List ℕ

-- row bits weighed by a table
abbrev pub lo : ℕ
lo = 5

unfoldable pub len : Program → ℕ
len program = 2 ^ program.log_len

-- the sums of the words, limb by limb, each shifted to its place, from `k` on
unfoldable pub shifted_sums : ℕ → ℕ × ℕ × ℕ → List E → ℕ × ℕ × ℕ
shifted_sums k (c0, c1, c2) [] = (c0, c1, c2)
shifted_sums k (c0, c1, c2) (sum ∷ sums) =
    shifted_sums (k + 1)
      (c0 ⊕ u128 (sum.c0 <<< k), c1 ⊕ u128 (sum.c1 <<< k), c2 ⊕ u128 (sum.c2 <<< k)) sums

unfoldable pub monomial_sum : List E → E
monomial_sum sums =
    let (c0, c1, c2) = shifted_sums 0 (0, 0, 0) sums in new (reduce c0) (reduce c1) (reduce c2)

-- the `while word != 0`, on fuel: the weight is added at each bit of the word
unfoldable pub add_bits : ℕ → ℕ → E → List E → List E
add_bits zero word weight bit_sums = bit_sums
add_bits (suc fuel) word weight bit_sums =
    let k = trailing_zeros word in
    let rest =
      add_bits fuel (bit_and word (word - 1)) weight (set bit_sums k (at bit_sums k ⊞ weight)) in
    if word == 0 then bit_sums else rest

-- one group's entries: the bit sums, and the entries after it
unfoldable pub group_sums : Program → List E → ℕ → List E → List ℕ → List E × List ℕ
group_sums program eq_lo group bit_sums [] = (bit_sums, [])
group_sums program eq_lo group bit_sums (entry ∷ entries) =
    let weight = at eq_lo (bit_and (entry >>> 16) (2 ^ lo - 1)) in
    let word = get_or program.dict (bit_and entry 0xFFFF) 0 in
    let rest = group_sums program eq_lo group (add_bits 64 word weight bit_sums) entries in
    if (entry >>> 16) >>> lo == group then rest else (bit_sums, entry ∷ entries)

-- a column's groups, on fuel: each takes an entry at least
unfoldable pub column_groups : ℕ → Program → List E → List E → E → List ℕ → E
column_groups zero program eq_lo eq_hi column_sum entries = column_sum
column_groups (suc fuel) program eq_lo eq_hi column_sum [] = column_sum
column_groups (suc fuel) program eq_lo eq_hi column_sum (entry ∷ entries) =
    let group = (entry >>> 16) >>> lo in
    let (bit_sums, rest) = group_sums program eq_lo group (replicate 64 zero_e) (entry ∷ entries) in
    column_groups fuel program eq_lo eq_hi (column_sum ⊞ monomial_sum bit_sums ⊠ at eq_hi group)
      rest

-- the columns from `column` on
unfoldable pub columns : ℕ → ℕ → Program → List E → List E → List E → E → E
columns zero column program eq_lo eq_hi column_point total = total
columns (suc n) column program eq_lo eq_hi column_point total =
    let start = get_or program.column_start column 0 in
    let end = get_or program.column_start (column + 1) 0 in
    let entries = take (end - start) (drop start program.entries) in
    let column_sum = column_groups (end - start) program eq_lo eq_hi zero_e entries in
    columns n (column + 1) program eq_lo eq_hi column_point
      (if start == end then total else total ⊞ eq_bits column column_point ⊠ column_sum)

unfoldable pub evaluate : Program → List E → Result E
evaluate program point = do
  require ((length point == program.log_len) && leb (bus_bits + lo) program.log_len)
      multilinear_size
  let rows_log = program.log_len - bus_bits
  let row_point = take rows_log point
  let column_point = drop rows_log point
  require (leb rows_log (2 * lo + 1)) multilinear_size
  let eq_lo = eq_kernel (take lo row_point) (replicate (2 ^ lo) zero_e)
  let eq_hi = eq_kernel (drop lo row_point) (replicate (2 ^ (rows_log - lo)) zero_e)
  ok (columns (2 ^ bus_bits) 0 program eq_lo eq_hi column_point zero_e)
