-- ===== src/Tables/Columns.antt =====
-- The widths of the tables, where their columns lie, and which columns count reads.
use hardware_wallet_benchmar.Prelude.{
  ℕ, zero, ◌+◌, ◌*◌, List, [], ◌∷◌, ◌^◌, if◌then◌else◌, get_or, ◌==◌, ◌||◌, suc,
}
use hardware_wallet_benchmar.Field.E.{E, new, one_e, gen, ◌⊞◌, ◌⊠◌}
use hardware_wallet_benchmar.Transcript.Multilinear.{at}

abbrev pub bus_bits : ℕ
bus_bits = 4

abbrev pub tuple : ℕ
tuple = 2 ^ bus_bits

abbrev pub op_xor : ℕ
op_xor = 0

abbrev pub op_mul : ℕ
op_mul = 1

abbrev pub op_set : ℕ
op_set = 2

abbrev pub op_deref : ℕ
op_deref = 3

abbrev pub op_jump : ℕ
op_jump = 4

abbrev pub op_keccak : ℕ
op_keccak = 5

abbrev pub n_tables : ℕ
n_tables = 6

abbrev pub num_global_columns : ℕ
num_global_columns = 6

abbrev pub memory_0 : ℕ
memory_0 = 0

abbrev pub memory_final_counters : ℕ
memory_final_counters = 3

abbrev pub bytecode_final_counters : ℕ
bytecode_final_counters = 4

abbrev pub qkeccak : ℕ
qkeccak = 5

abbrev pub sep_state : E
sep_state = one_e

abbrev pub sep_mem : E
sep_mem = gen

abbrev pub sep_bytecode : E
sep_bytecode = new 4 0 0

abbrev pub keccak_in : ℕ
keccak_in = 13

abbrev pub keccak_out : ℕ
keccak_out = keccak_in + 25

abbrev pub keccak_cells : ℕ
keccak_cells = 13

abbrev pub keccak_cnt : ℕ
keccak_cnt = keccak_out + 25

abbrev pub keccak_cnt_bc : ℕ
keccak_cnt_bc = keccak_cnt + 2 * keccak_cells

abbrev pub table_widths : List ℕ
table_widths = 15 ∷ 15 ∷ 8 ∷ 15 ∷ 14 ∷ (keccak_cnt_bc + 1) ∷ []

-- the loop of `GLOBAL_COLUMN_BASES`
abbrev pub bases_from : ℕ → List ℕ → List ℕ
bases_from base [] = []
bases_from base (w ∷ widths) = base ∷ bases_from (base + w) widths

abbrev pub global_column_bases : List ℕ
global_column_bases = bases_from num_global_columns table_widths

abbrev pub nat_at : List ℕ → ℕ → ℕ
nat_at xs i = get_or xs i 0

abbrev pub n_columns : ℕ
n_columns = nat_at global_column_bases 5 + nat_at table_widths 5

abbrev pub n_flushes : List ℕ
n_flushes = 5 ∷ 5 ∷ 3 ∷ 5 ∷ 5 ∷ (2 + 2 * keccak_cells) ∷ []

-- `from, from + 1, ...`, `n` numbers
abbrev pub numbers : ℕ → ℕ → List ℕ
numbers from zero = []
numbers from (suc n) = from ∷ numbers (from + 1) n

unfoldable pub count_columns : ℕ → List ℕ
count_columns table =
    if (table == op_xor) || (table == op_mul)
    then 11 ∷ 12 ∷ 13 ∷ 14 ∷ []
    else if table == op_set
    then 6 ∷ 7 ∷ []
    else if table == op_deref
    then 11 ∷ 12 ∷ 13 ∷ 14 ∷ []
    else if table == op_jump
    then 8 ∷ 9 ∷ 10 ∷ 11 ∷ []
    else numbers keccak_cnt 27

abbrev pub n_constraints : ℕ
n_constraints = 2

unfoldable pub jump_constraints : List E → List E
jump_constraints v =
    let condition = at v 5 in
    let inverse = at v 12 in
    let flag = at v 13 in (flag ⊞ condition ⊠ inverse) ∷ (condition ⊠ (flag ⊞ one_e)) ∷ []
