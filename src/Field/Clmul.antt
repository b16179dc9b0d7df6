-- ===== src/Field/Clmul.antt =====
-- Carry-less products of machine words (field.rs): by integer multiplication of the four classes
-- of bit positions, then by Karatsuba; the carry-less square; the reduction modulo
-- `x^64 + x^4 + x^3 + x + 1`.
mod Sparse
pub mod Product
pub mod Correct
pub mod Words
pub mod Reduce
pub mod Associative
use hardware_wallet_benchmar.Prelude.{
  ℕ, ◌+◌, ◌-◌, ◌*◌, ◌/◌, ◌%◌, ◌^◌, bit_and, bit_or, for_range, u32, u64, u128, ◌<<<◌, ◌>>>◌, ◌≡◌,
  refl,
}
use hardware_wallet_benchmar.Bits.Xor.{◌⊕◌}

-- `M << i` and `N << k`
abbrev pub mask32 : ℕ → ℕ
mask32 i = u32 (0x1111_1111 <<< i)

abbrev pub mask64 : ℕ → ℕ
mask64 k = u64 (0x1111_1111_1111_1111 <<< k)

-- the inner loop: the sum `z` of one output class
unfoldable pub class_sum : ℕ → ℕ → ℕ → ℕ
unfolding for_range
class_sum a b k =
    for_range 4 0 (λ i z. z ⊕ u64 (bit_and a (mask32 i) * bit_and b (mask32 ((k + 4 - i) % 4)))) 0

unfoldable pub clmul32 : ℕ → ℕ → ℕ
unfolding for_range
clmul32 a b = for_range 4 0 (λ k out. bit_or out (bit_and (class_sum a b k) (mask64 k))) 0

-- the low and the high word
unfoldable pub clmul64 : ℕ → ℕ → ℕ × ℕ
clmul64 a b =
    let a0 = u32 a in
    let a1 = u32 (a >>> 32) in
    let b0 = u32 b in
    let b1 = u32 (b >>> 32) in
    let low = clmul32 a0 b0 in
    let high = clmul32 a1 b1 in
    let middle = clmul32 (a0 ⊕ a1) (b0 ⊕ b1) ⊕ low ⊕ high in
    (low ⊕ u64 (middle <<< 32), high ⊕ middle >>> 32)

unfoldable pub clmul : ℕ → ℕ → ℕ
clmul a b = let (low, high) = clmul64 a b in bit_or (u128 (high <<< 64)) low

-- one line of `spread`
abbrev pub spread_step : ℕ → ℕ → ℕ → ℕ
spread_step shift mask x = bit_and (bit_or x (u128 (x <<< shift))) mask

unfoldable pub spread : ℕ → ℕ
spread a =
    let x = spread_step 32 0x0000_0000_FFFF_FFFF_0000_0000_FFFF_FFFF a in
    let x' = spread_step 16 0x0000_FFFF_0000_FFFF_0000_FFFF_0000_FFFF x in
    let x'' = spread_step 8 0x00FF_00FF_00FF_00FF_00FF_00FF_00FF_00FF x' in
    let x''' = spread_step 4 0x0F0F_0F0F_0F0F_0F0F_0F0F_0F0F_0F0F_0F0F x'' in
    let x'''' = spread_step 2 0x3333_3333_3333_3333_3333_3333_3333_3333 x''' in
    spread_step 1 0x5555_5555_5555_5555_5555_5555_5555_5555 x''''

unfoldable pub reduce : ℕ → ℕ
reduce p =
    let lo = u64 p in
    let hi = u64 (p >>> 64) in
    let spill = hi >>> 63 ⊕ hi >>> 61 ⊕ hi >>> 60 in
    let v = hi ⊕ spill in lo ⊕ v ⊕ u64 (v <<< 1) ⊕ u64 (v <<< 3) ⊕ u64 (v <<< 4)

unfoldable pub base_mul : ℕ → ℕ → ℕ
base_mul left right = reduce (clmul left right)
