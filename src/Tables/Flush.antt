-- ===== src/Tables/Flush.antt =====
-- `flush`: the tuple that a table pushes to the bus, or pulls, at column values `v`. The list is
-- the part of `out` that is written; the rest of it is zero.
use hardware_wallet_benchmar.Prelude.{
  ℕ, List, [], ◌∷◌, Option, none, some, Bool, true, false, ◌+◌, if◌then◌else◌, ◌-◌, ◌/◌, ◌==◌, leb,
  ◌++◌, ltb, ◌||◌, map, ◌&&◌, ◌%◌, take, ◌*◌, replicate,
}
use hardware_wallet_benchmar.Field.E.{E, zero_e, gen, monomial, ◌⊞◌, ◌⊠◌}
use hardware_wallet_benchmar.Tables.Columns.{
  tuple, op_xor, op_mul, op_set, op_deref, op_jump, op_keccak, sep_bytecode, sep_mem, keccak_cells,
  sep_state, keccak_cnt_bc, keccak_in, keccak_out, keccak_cnt,
}
use hardware_wallet_benchmar.Transcript.Multilinear.{at}

-- `g(exponent)`
abbrev pub g : ℕ → E
g exponent = monomial exponent

-- `[sep, address, count (times g on push)]`
abbrev pub counted : Bool → List E → E → E → ℕ → List E
counted push v sep address count =
    sep ∷ address ∷ (if push then gen ⊠ at v count else at v count) ∷ []

abbrev pub memory : Bool → List E → E → ℕ → List E → List E
memory push v address count limbs = counted push v sep_mem address count ++ limbs

-- flush 0: push the successor state, pull the current one; `pc` is column 0 and `fp` column 1
unfoldable pub flush_state : ℕ → Bool → List E → List E
flush_state table push v =
    let pc = at v 0 in
    let fp = at v 1 in
    let b = at v 13 in
    if table == op_jump
    then (if push
        then sep_state ∷ (b ⊠ at v 6 ⊞ gen ⊠ (b ⊠ pc) ⊞ gen ⊠ pc) ∷ (b ⊠ at v 7 ⊞ b ⊠ fp ⊞ fp) ∷ []
        else sep_state ∷ pc ∷ fp ∷ [])
    else if push
    then sep_state ∷ (gen ⊠ pc) ∷ fp ∷ []
    else sep_state ∷ pc ∷ fp ∷ []

-- the count and the operands of flush 1
unfoldable pub bytecode_columns : ℕ → ℕ × List ℕ
bytecode_columns table =
    if (table == op_xor) || (table == op_mul)
    then (14, 2 ∷ 3 ∷ 4 ∷ [])
    else if table == op_set
    then (7, 2 ∷ 3 ∷ 4 ∷ 5 ∷ [])
    else if table == op_deref
    then (14, 2 ∷ 3 ∷ 4 ∷ 5 ∷ 6 ∷ [])
    else if table == op_jump
    then (11, 2 ∷ 3 ∷ 4 ∷ [])
    else (keccak_cnt_bc, 2 ∷ 3 ∷ 4 ∷ 5 ∷ 6 ∷ 7 ∷ 8 ∷ 9 ∷ 10 ∷ 11 ∷ [])

-- flush 1: the bytecode, `[sep, pc, count, g^opcode, operands...]`, then zeros
unfoldable pub flush_bytecode : ℕ → Bool → List E → List E
unfolding bytecode_columns
flush_bytecode table push v =
    let (count, operands) = bytecode_columns table in
    let written =
      counted push v sep_bytecode (at v 0) count ++ (g table ∷ map (λ c. at v c) operands) in
    take (if table == op_keccak then 14 else 9) (written ++ replicate tuple zero_e)

-- the result of MUL, limb by limb: columns 5 to 7 times columns 8 to 10
unfoldable pub mul_result : List E → List E
mul_result v =
    let p = λ (j k : ℕ). at v (5 + j) ⊠ at v (8 + k) in
    (p 0 0 ⊞ p 1 2 ⊞ p 2 1)
    ∷ (p 0 1 ⊞ p 1 0 ⊞ p 1 2 ⊞ p 2 1 ⊞ p 2 2)
    ∷ (p 0 2 ⊞ p 1 1 ⊞ p 2 0 ⊞ p 2 2)
    ∷ []

unfoldable pub xor_result : List E → List E
xor_result v = (at v 5 ⊞ at v 8) ∷ (at v 6 ⊞ at v 9) ∷ (at v 7 ⊞ at v 10) ∷ []

unfoldable pub flush_arith : ℕ → ℕ → Bool → List E → List E
flush_arith table flush push v =
    let fp = at v 1 in
    if flush == 2
    then memory push v (fp ⊠ at v 2) 11 (at v 5 ∷ at v 6 ∷ at v 7 ∷ [])
    else if flush == 3
    then memory push v (fp ⊠ at v 3) 12 (at v 8 ∷ at v 9 ∷ at v 10 ∷ [])
    else memory push v (fp ⊠ at v 4) 13 (if table == op_mul then mul_result v else xor_result v)

unfoldable pub flush_deref : ℕ → Bool → List E → List E
flush_deref flush push v =
    let pc = at v 0 in
    let fp = at v 1 in
    let f_pc = at v 5 in
    let f_fp = at v 6 in
    let ptr = at v 7 in
    let gated = λ (lane : ℕ). at v lane ⊞ f_pc ⊠ at v lane ⊞ f_fp ⊠ at v lane in
    if flush == 2
    then memory push v (fp ⊠ at v 2) 11 (ptr ∷ zero_e ∷ zero_e ∷ [])
    else if flush == 3
    then memory push v (ptr ⊠ at v 3) 12
        ((gated 8 ⊞ g 2 ⊠ (f_pc ⊠ pc) ⊞ f_fp ⊠ fp) ∷ gated 9 ∷ gated 10 ∷ [])
    else memory push v (fp ⊠ at v 4) 13 (at v 8 ∷ at v 9 ∷ at v 10 ∷ [])

-- operand, count and value: `[(2, 8, 5), (3, 9, 6), (4, 10, 7)][flush - 2]`
unfoldable pub flush_jump : ℕ → Bool → List E → List E
flush_jump flush push v =
    memory push v (at v 1 ⊠ at v flush) (flush + 6) (at v (flush + 3) ∷ zero_e ∷ zero_e ∷ [])

-- the lanes that a cell of a sponge state holds, in the even or the odd layout
unfoldable pub cell_lanes : Bool → ℕ → Option ℕ × Option ℕ
cell_lanes odd cell =
    if leb 9 cell || (odd && leb 1 cell)
    then (some (2 * cell - 1), some (2 * cell))
    else if odd
    then (none, some 0)
    else if cell == 8
    then (some 16, none)
    else (some (2 * cell), some (2 * cell + 1))

-- `lane(l).or(missing)`, `lanes` the first lane's column
abbrev pub lane_or : ℕ → Option ℕ → Option ℕ → Option ℕ
lane_or lanes missing (some l) = some (lanes + l)
lane_or lanes missing none = missing

-- a limb of a cell: lane `a` in the even layout and `b` in the odd one, the flag in column `flag`
unfoldable pub limb : List E → ℕ → Option ℕ → Option ℕ → E
limb v flag (some a) (some b) =
    if a == b then at v a else (zero_e ⊞ (at v a ⊞ at v flag ⊠ at v a)) ⊞ at v flag ⊠ at v b
limb v flag (some a) none = zero_e ⊞ (at v a ⊞ at v flag ⊠ at v a)
limb v flag none (some b) = zero_e ⊞ at v flag ⊠ at v b
limb v flag none none = zero_e

-- thirteen cells read (`side` 0), then thirteen written
unfoldable pub cell_address : ℕ → ℕ → List E → E
cell_address side cell v =
    let fp = at v 1 in
    if side == 0
    then (if ltb cell 4
        then fp ⊠ at v (2 + cell)
        else if ltb cell 8
        then g (cell - 4) ⊠ (fp ⊠ at v 6)
        else if cell == 8
        then fp ⊠ at v 7
        else g (cell - 9) ⊠ (fp ⊠ at v 8))
    else g cell ⊠ (fp ⊠ at v 9)

unfoldable pub flush_keccak : ℕ → Bool → List E → List E
unfolding cell_lanes limb cell_address
flush_keccak flush push v =
    let side = (flush - 2) / keccak_cells in
    let cell = (flush - 2) % keccak_cells in
    let lanes = if side == 0 then keccak_in else keccak_out in
    let flag = if side == 0 then 10 else 11 in
    let missing = if side == 0 then some 12 else none in
    let (even0, even1) = cell_lanes false cell in
    let (odd0, odd1) = cell_lanes true cell in
    memory push v (cell_address side cell v) (keccak_cnt + keccak_cells * side + cell) (
      limb v flag (lane_or lanes missing even0) (lane_or lanes missing odd0)
      ∷ limb v flag (lane_or lanes missing even1) (lane_or lanes missing odd1)
      ∷ zero_e
      ∷ [])

unfoldable pub flush : ℕ → ℕ → Bool → List E → List E
unfolding flush_state flush_bytecode flush_arith flush_deref flush_jump flush_keccak
flush table which push v =
    if which == 0
    then flush_state table push v
    else if which == 1
    then flush_bytecode table push v
    else if (table == op_xor) || (table == op_mul)
    then flush_arith table which push v
    else if table == op_set
    then memory push v (at v 1 ⊠ at v 2) 6 (at v 3 ∷ at v 4 ∷ at v 5 ∷ [])
    else if table == op_deref
    then flush_deref which push v
    else if table == op_jump
    then flush_jump which push v
    else flush_keccak which push v
