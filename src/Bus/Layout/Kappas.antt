-- ===== src/Bus/Layout/Kappas.antt =====
-- The log sizes of the columns are at most 38, and the columns with a block of their own.
use native.Mathlib.Decide.{ℕ_discrete}
use hardware_wallet_benchmar.Prelude.{
  ℕ, zero, suc, List, [], ◌∷◌, ◌++◌, ◌≡◌, refl, sym, ap, ◌∙◌, arith, ◌+◌, ◌^◌, ◌<◌, ◌≤◌, leb,
  leb→le, Bool, true, Bool-cases, inl, inr, if◌then◌else◌, length, replicate, max, subst,
}
use hardware_wallet_benchmar.Bits.Linear.{both_left, both_right}
use hardware_wallet_benchmar.Transcript.Placement.{log2_ceil, bit_length_loop}
use hardware_wallet_benchmar.Transcript.Placement.Log.{log2_ceil_iff}
use hardware_wallet_benchmar.Tables.Columns.{nat_at, table_widths, op_keccak}
use hardware_wallet_benchmar.Keccak.Shape.{slot_bits, segments}
use hardware_wallet_benchmar.Bus.Layout.{
  all_rows_fit, heights_of, table_kappas, kappas_of, table_log_floors, keccak_depth, has_block,
  block_columns,
}

pub AllLe : ℕ → List ℕ → Type 0
AllLe bound xs = (i : ℕ) → nat_at xs i ≤ bound

cons-AllLe : (bound x : ℕ) (xs : List ℕ) → x ≤ bound → AllLe bound xs → AllLe bound (x ∷ xs)
unfolding AllLe
cons-AllLe bound x xs h k zero = h
cons-AllLe bound x xs h k (suc i) = k i

nil-AllLe : (bound : ℕ) → AllLe bound []
unfolding AllLe
nil-AllLe bound i = omega arith

replicate-AllLe :
    (bound n x : ℕ) (ys : List ℕ) → x ≤ bound → AllLe bound ys → AllLe bound (replicate n x ++ ys)
replicate-AllLe bound zero x ys h k = k
replicate-AllLe bound (suc n) x ys h k =
    cons-AllLe bound x (replicate n x ++ ys) h (replicate-AllLe bound n x ys h k)

pub AllLe-at : (bound : ℕ) (xs : List ℕ) → AllLe bound xs → (i : ℕ) → nat_at xs i ≤ bound
unfolding AllLe
AllLe-at bound xs h i = h i

AllLe-mono : (xs : List ℕ) → AllLe 32 xs → AllLe 38 xs
unfolding AllLe
AllLe-mono xs h i = omega (arith, h i)

log2_ceil-le : (rows : ℕ) → rows ≤ 2 ^ 32 → log2_ceil rows ≤ 32
unfolding log2_ceil bit_length_loop
log2_ceil-le zero h = omega arith
log2_ceil-le (suc rows) h = (log2_ceil_iff (suc rows) 32 (omega arith) (omega arith)).0 h

floors-AllLe : AllLe 32 table_log_floors
floors-AllLe = cons-AllLe 32 0 _ (omega arith) (
    cons-AllLe 32 0 _ (omega arith) (
      cons-AllLe 32 0 _ (omega arith) (
        cons-AllLe 32 0 _ (omega arith)
          (cons-AllLe 32 0 _ (omega arith) (cons-AllLe 32 9 _ (omega arith) (nil-AllLe 32))))))

heights-AllLe :
    (table_rows floors : List ℕ)
    → all_rows_fit table_rows ≡ true
    → AllLe 32 floors
    → AllLe 32 (heights_of table_rows floors)
unfolding heights_of all_rows_fit AllLe
heights-AllLe [] floors h k i = omega arith
heights-AllLe (rows ∷ table_rows) [] h k i = omega arith
heights-AllLe (rows ∷ table_rows) (floor ∷ floors) h k i =
    let fits = leb rows (2 ^ 32) in
    let low =
      log2_ceil-le rows (leb→le rows (2 ^ 32) (both_left fits (all_rows_fit table_rows) h)) in
    cons-AllLe 32 (max (log2_ceil rows) floor) (heights_of table_rows floors)
      (omega (arith, low, k 0))
      (heights-AllLe table_rows floors (both_right fits (all_rows_fit table_rows) h)
        (λ j. k (suc j)))
      i

table_kappas-AllLe :
    (bound : ℕ) (widths heights : List ℕ)
    → AllLe bound heights
    → AllLe bound (table_kappas widths heights)
unfolding table_kappas AllLe
table_kappas-AllLe bound [] heights h = nil-AllLe bound
table_kappas-AllLe bound (width ∷ widths) [] h = nil-AllLe bound
table_kappas-AllLe bound (width ∷ widths) (height ∷ heights) h =
    replicate-AllLe bound width height (table_kappas widths heights) (h 0)
      (table_kappas-AllLe bound widths heights (λ i. h (suc i)))

slot_bits_six :
    (log_steps : ℕ) → slot_bits (record { log_steps = log_steps; depth = keccak_depth }) ≡ 6
unfolding slot_bits segments log2_ceil bit_length_loop
slot_bits_six log_steps = refl

pub kappas-AllLe :
    (log_memory log_bytecode : ℕ) (table_rows : List ℕ)
    → log_memory ≤ 32
    → log_bytecode ≤ 32
    → all_rows_fit table_rows ≡ true
    → AllLe 38 (
        kappas_of log_memory log_bytecode
          (record {
            log_steps = nat_at (heights_of table_rows table_log_floors) op_keccak;
            depth = keccak_depth;
          })
          (heights_of table_rows table_log_floors))
unfolding kappas_of
kappas-AllLe log_memory log_bytecode table_rows hm hb fit =
    let heights = heights_of table_rows table_log_floors in
    let small = heights-AllLe table_rows table_log_floors fit floors-AllLe in
    let steps = nat_at heights op_keccak in
    cons-AllLe 38 log_memory _ (omega arith) (
      cons-AllLe 38 log_memory _ (omega arith) (
        cons-AllLe 38 log_memory _ (omega arith) (
          cons-AllLe 38 log_memory _ (omega arith) (
            cons-AllLe 38 log_bytecode _ (omega arith) (
              cons-AllLe 38 (steps + slot_bits (record { log_steps = steps; depth = keccak_depth }))
                _ (omega (arith, AllLe-at 32 heights small op_keccak, slot_bits_six steps))
                (table_kappas-AllLe 38 table_widths heights (AllLe-mono heights small)))))))

-- a column with a block of its own has a place among them
pub block_spot :
    (n column c : ℕ)
    → column ≤ c
    → c < column + n
    → has_block c ≡ true
    → (a : ℕ) × (a < length (block_columns column n)) × (nat_at (block_columns column n) a ≡ c)
unfolding block_columns
block_spot zero column c low high h = absurd (omega arith)
block_spot (suc n) column c low high h =
    let rest = block_columns (column + 1) n in
    let run = λ (b : Bool). if b then column ∷ rest else rest in
    let Spot : List ℕ → Type 0 = λ xs. (a : ℕ) × (a < length xs) × (nat_at xs a ≡ c) in
    elim (ℕ_discrete c column) [
      | yes e ↦ subst Spot (sym (ap run (sym (ap has_block e) ∙ h))) (0, omega arith, sym e)
      | no ne ↦
          let (a, within, at) = block_spot n (column + 1) c (omega (arith, ne)) (omega arith) h in
          elim (Bool-cases (has_block column)) [
            | inl kept ↦ subst Spot (sym (ap run kept)) (suc a, omega (arith, within), at)
            | inr skipped ↦ subst Spot (sym (ap run skipped)) (a, within, at)
          ]
    ]

-- the columns with a block ascend from `column` on, and are below `column + n`
unfoldable pub Rising : ℕ → ℕ → List ℕ → Type 0
Rising from to xs =
    ((a : ℕ) → a < length xs → (from ≤ nat_at xs a) × (nat_at xs a < to))
    × ((a b : ℕ) → a < b → b < length xs → nat_at xs a < nat_at xs b)

cons-Rising :
    (from to x : ℕ) (xs : List ℕ)
    → from ≤ x
    → x < to
    → Rising (x + 1) to xs
    → Rising from to (x ∷ xs)
unfolding Rising
cons-Rising from to x xs low high (within, ascends) = (bounds, rises)
  where
    bounds : (a : ℕ) → a < suc (length xs) → (from ≤ nat_at (x ∷ xs) a) × (nat_at (x ∷ xs) a < to)
    bounds zero h = (low, high)
    bounds (suc a) h = let (l, u) = within a (omega arith) in (omega (arith, l), u)

    rises : (a b : ℕ) → a < b → b < suc (length xs) → nat_at (x ∷ xs) a < nat_at (x ∷ xs) b
    rises a zero before h = absurd (omega arith)
    rises zero (suc b) before h = let (l, u) = within b (omega arith) in omega (arith, l)
    rises (suc a) (suc b) before h = ascends a b (omega arith) (omega arith)

nil-Rising : (from to : ℕ) → Rising from to []
unfolding Rising
nil-Rising from to = ((λ a h. absurd (omega arith)), λ a b before h. absurd (omega arith))

later-Rising : (from to : ℕ) (xs : List ℕ) → Rising (from + 1) to xs → Rising from to xs
unfolding Rising
later-Rising from to xs (within, ascends) =
    ((λ a h. let (l, u) = within a h in (omega (arith, l), u)), ascends)

pub block_columns-Rising : (n column : ℕ) → Rising column (column + n) (block_columns column n)
unfolding block_columns
block_columns-Rising zero column = nil-Rising column (column + 0)
block_columns-Rising (suc n) column =
    let rest = block_columns (column + 1) n in
    let run = λ (b : Bool). if b then column ∷ rest else rest in
    let e : column + 1 + n ≡ column + suc n = omega arith in
    let later = subst (λ to. Rising (column + 1) to rest) e (block_columns-Rising n (column + 1)) in
    elim (Bool-cases (has_block column)) [
      | inl kept ↦
          subst (Rising column (column + suc n)) (sym (ap run kept))
            (cons-Rising column (column + suc n) column rest (omega arith) (omega arith) later)
      | inr skipped ↦
          subst (Rising column (column + suc n)) (sym (ap run skipped))
            (later-Rising column (column + suc n) rest later)
    ]

pub length-block_columns : (n column : ℕ) → length (block_columns column n) ≤ n
unfolding block_columns
length-block_columns zero column = omega arith
length-block_columns (suc n) column =
    let rest = block_columns (column + 1) n in
    let fewer = length-block_columns n (column + 1) in
    let long = λ (b : Bool). length (if b then column ∷ rest else rest) in
    elim (Bool-cases (has_block column)) [
      | inl kept ↦ omega (arith, ap long kept, fewer)
      | inr skipped ↦ omega (arith, ap long skipped, fewer)
    ]
