-- ===== src/Transcript/Placement.antt =====
-- `log2_ceil`, `log2_strict`, `Placement` and `stack_offsets`: where the runs of a stacked cube lie.
pub mod Log
mod Swap
mod Sort
pub mod Disjoint
use hardware_wallet_benchmar.Prelude.{
  ℕ, zero, suc, List, [], ◌∷◌, Bool, ◌>>>◌, set, ◌-◌, for_range, ◌/◌, get_or, not, if◌then◌else◌,
  ◌+◌, length, drop, ◌%◌, ltb, replicate, take, ◌==◌, ◌^◌, ◌&&◌, bit_and,
}
use hardware_wallet_benchmar.Error.{Error, Result, ok, err, require, not_power_of_two, ◌>>=◌, ◌>>◌}
use hardware_wallet_benchmar.Field.E.{E}
use hardware_wallet_benchmar.Transcript.Multilinear.{eq_bits}

-- The bits of a word below its leading zeros, `64 - leading_zeros`: halvings, on fuel.
unfoldable pub bit_length_loop : ℕ → ℕ → ℕ
bit_length_loop zero value = 0
bit_length_loop (suc fuel) value =
    let rest = bit_length_loop fuel (value / 2) + 1 in if value == 0 then 0 else rest

unfoldable pub log2_ceil : ℕ → ℕ
log2_ceil value = bit_length_loop 64 (value - 1)

-- `trailing_zeros`, on fuel; 64 of 0
unfoldable pub trailing_zeros_loop : ℕ → ℕ → ℕ
trailing_zeros_loop zero value = 0
trailing_zeros_loop (suc fuel) value =
    let rest = trailing_zeros_loop fuel (value / 2) + 1 in if value % 2 == 1 then 0 else rest

unfoldable pub trailing_zeros : ℕ → ℕ
trailing_zeros value = trailing_zeros_loop 64 value

-- `is_power_of_two`: one bit set
abbrev pub is_power_of_two : ℕ → Bool
is_power_of_two value = not (value == 0) && (bit_and value (value - 1) == 0)

unfoldable pub log2_strict : ℕ → Result ℕ
log2_strict value = do require (is_power_of_two value) not_power_of_two; ok (trailing_zeros value)

pub record Placement : Type 0 where
  pub variables : ℕ
  pub index : ℕ

unfoldable pub eq_above : Placement → List E → E
eq_above p point = eq_bits (p.index >>> p.variables) (drop p.variables point)

abbrev pub nat_at : List ℕ → ℕ → ℕ
nat_at xs i = get_or xs i 0

-- the inner `while` of the insertion sort, from position `j` down
unfoldable pub sift : List ℕ → ℕ → List ℕ → List ℕ
sift sizes zero order = order
sift sizes (suc j) order =
    let swapped =
      sift sizes j (set (set order j (nat_at order (suc j))) (suc j) (nat_at order j)) in
    if ltb (nat_at sizes (nat_at order j)) (nat_at sizes (nat_at order (suc j)))
    then swapped
    else order

-- the places of the array `order`
abbrev pub order_places : ℕ
order_places = 256

-- the order of the runs: by size, largest first, and by index, in `order[..n]`; of more runs than the
-- array has places it keeps as many as fit, where the program panics
unfoldable pub sorted_order : List ℕ → List ℕ
unfolding for_range
sorted_order sizes =
    let n = length sizes in
    for_range (n - 1) 1 (λ i order. sift sizes i order)
      (for_range n 0 (λ i order. set order i i) (take n (replicate order_places 0)))

-- the last loop: each run in turn, after the total so far
unfoldable pub place : List ℕ → List ℕ → List ℕ → ℕ → List ℕ × ℕ
place sizes [] offsets total = (offsets, total)
place sizes (index ∷ order) offsets total =
    place sizes order (set offsets index total) (total + 2 ^ nat_at sizes index)

-- the offsets, and the log of the total
unfoldable pub stack_offsets : List ℕ → List ℕ → List ℕ × ℕ
stack_offsets sizes offsets =
    let (offsets', total) = place sizes (sorted_order sizes) offsets 0 in
    (offsets', log2_ceil total)
