-- ===== src/Tables/Slots.antt =====
-- Padding rows, and the columns that ride in `q_keccak`.
use hardware_wallet_benchmar.Prelude.{
  ℕ, zero, suc, List, Option, none, some, Bool, ◌+◌, if◌then◌else◌, ◌-◌, ◌*◌, leb, ◌==◌, ltb, ◌&&◌,
  replicate, ◌++◌, map,
}
use hardware_wallet_benchmar.Field.E.{E, new, zero_e}
use hardware_wallet_benchmar.Tables.Columns.{
  op_keccak, keccak_in, keccak_out, keccak_cnt, nat_at, global_column_bases, table_widths,
}
use hardware_wallet_benchmar.Hash.Permutation.{keccak_f, zero_lanes}

-- zero, but for KECCAK's output lanes, the permutation of zeros
unfoldable pub padding_row : ℕ → List E
padding_row table =
    if table == op_keccak
    then replicate keccak_out zero_e
      ++ (map (λ l. new l 0 0) (keccak_f zero_lanes) ++ replicate (90 - keccak_cnt) zero_e)
    else replicate (nat_at table_widths table) zero_e

abbrev pub qkeccak_slots : ℕ
qkeccak_slots = 25 * 2

abbrev pub qkeccak_spare : ℕ
qkeccak_spare = 64 - qkeccak_slots

abbrev pub spare_local : ℕ → ℕ
spare_local k = if ltb k keccak_in then k else keccak_cnt + (k - keccak_in)

-- the loop of `qkeccak_slot`, `left` rounds from `k` on
unfoldable pub spare_slot : ℕ → ℕ → ℕ → Option ℕ
spare_slot zero k local = none
spare_slot (suc left) k local =
    let rest = spare_slot left (k + 1) local in
    if spare_local k == local then some (qkeccak_slots + k) else rest

unfoldable pub local_slot : ℕ → Option ℕ
unfolding spare_slot
local_slot local = elim (spare_slot qkeccak_spare 0 local) [
  | some slot ↦ some slot
  | none ↦ if leb keccak_in local && ltb local keccak_out then some (local - keccak_in) else none
]

unfoldable pub qkeccak_slot : ℕ → Option ℕ
unfolding local_slot
qkeccak_slot column =
    let base = nat_at global_column_bases op_keccak in
    if ltb column base then none else local_slot (column - base)

unfoldable pub is_keccak_output : ℕ → Bool
is_keccak_output column =
    let base = nat_at global_column_bases op_keccak in
    leb (base + keccak_out) column && ltb column (base + keccak_out + 25)
