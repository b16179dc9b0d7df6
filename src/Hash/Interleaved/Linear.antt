-- ===== src/Hash/Interleaved/Linear.antt =====
-- Splitting a lane in its even and its odd bits, and joining them, are linear.
use hardware_wallet_benchmar.Prelude.{
  ℕ, ◌≡◌, refl, sym, ◌∙◌, ap, ◌<◌, ◌^◌, ◌%◌, ◌*◌, arith, bit_and, bit_or, u32, ◌>>>◌, ◌<<<◌,
}
use hardware_wallet_benchmar.Bits.Linear.{
  IsLinear, sum-IsLinear, compose-IsLinear, shr-IsLinear, shl-IsLinear, linear_ext,
  agree_below_sound, agree_below,
}
use hardware_wallet_benchmar.Hash.Interleaved.{unzip, zip, swap_bits}
use hardware_wallet_benchmar.Bits.And.{and_comm, xor-and, or-eq-xor, and_assoc, and-le, and-zero}
use hardware_wallet_benchmar.Bits.Xor.{◌⊕◌, xor-mod, xor-lt}
use hardware_wallet_benchmar.Field.Clmul.Words.{and-disjoint_shl}

pub u32-IsLinear : IsLinear (λ x. u32 x)
u32-IsLinear = xor-mod 32

pub and-IsLinear : (m : ℕ) → IsLinear (λ x. bit_and x m)
and-IsLinear m = xor-and m

id-IsLinear : IsLinear (λ x. x)
id-IsLinear a b = refl

swap_bits-IsLinear : (shift mask : ℕ) → IsLinear (λ x. swap_bits shift mask x)
swap_bits-IsLinear shift mask =
    let group : IsLinear (λ x. bit_and (x ⊕ x >>> shift) mask) =
      compose-IsLinear (λ x. bit_and x mask) (λ x. x ⊕ x >>> shift) (and-IsLinear mask)
        (sum-IsLinear (λ x. x) (λ x. x >>> shift) id-IsLinear (shr-IsLinear shift)) in
    sum-IsLinear (λ x. x) _ id-IsLinear
      (sum-IsLinear (λ x. bit_and (x ⊕ x >>> shift) mask)
        (λ x. u32 (bit_and (x ⊕ x >>> shift) mask <<< shift)) group
        (compose-IsLinear (λ x. u32 x) (λ x. bit_and (x ⊕ x >>> shift) mask <<< shift) u32-IsLinear
          (compose-IsLinear (λ x. x <<< shift) (λ x. bit_and (x ⊕ x >>> shift) mask)
            (shl-IsLinear shift) group)))

pub unzip-IsLinear : IsLinear unzip
unfolding unzip
unzip-IsLinear =
    let s = λ (k m : ℕ). λ (x : ℕ). swap_bits k m x in
    let l = swap_bits-IsLinear in
    compose-IsLinear (s 8 0x0000FF00) (λ x. s 4 0x00F000F0 (s 2 0x0C0C0C0C (s 1 0x22222222 x)))
      (l 8 0x0000FF00)
      (compose-IsLinear (s 4 0x00F000F0) (λ x. s 2 0x0C0C0C0C (s 1 0x22222222 x)) (l 4 0x00F000F0)
        (compose-IsLinear (s 2 0x0C0C0C0C) (s 1 0x22222222) (l 2 0x0C0C0C0C) (l 1 0x22222222)))

pub zip-IsLinear : IsLinear zip
unfolding zip
zip-IsLinear =
    let s = λ (k m : ℕ). λ (x : ℕ). swap_bits k m x in
    let l = swap_bits-IsLinear in
    compose-IsLinear (s 1 0x22222222) (λ x. s 2 0x0C0C0C0C (s 4 0x00F000F0 (s 8 0x0000FF00 x)))
      (l 1 0x22222222)
      (compose-IsLinear (s 2 0x0C0C0C0C) (λ x. s 4 0x00F000F0 (s 8 0x0000FF00 x)) (l 2 0x0C0C0C0C)
        (compose-IsLinear (s 4 0x00F000F0) (s 8 0x0000FF00) (l 4 0x00F000F0) (l 8 0x0000FF00)))

-- The two halves of a word, side by side: `|` of disjoint parts is `^`.
disjoint : (a m x : ℕ) → bit_and x m ≡ 0 → bit_and x (bit_and a m) ≡ 0
disjoint a m x h =
    ap (λ t. bit_and x t) (and_comm a m)
    ∙ sym (and_assoc x m a)
    ∙ ap (λ t. bit_and t a) h
    ∙ and_comm 0 a
    ∙ and-zero a

low-high : (x : ℕ) → x < 2 ^ 16 → bit_and x 0xFFFF_0000 ≡ 0
unfolding agree_below
low-high x h =
    linear_ext 16 (λ x. bit_and x 0xFFFF_0000) (λ x. 0) (and-IsLinear 0xFFFF_0000) (λ a b. refl)
      (agree_below_sound 16 (λ i. bit_and (2 ^ i) 0xFFFF_0000) (λ i. 0) refl) x h

pub or-low :
    (a b : ℕ) → bit_or (bit_and a 0xFFFF) (u32 (b <<< 16)) ≡ bit_and a 0xFFFF ⊕ u32 (b <<< 16)
or-low a b =
    let low : bit_and a 0xFFFF < 2 ^ 16 = omega (arith, and-le a 0xFFFF) in
    let high : u32 (b <<< 16) ≡ b % 2 ^ 16 * 2 ^ 16 = omega arith in
    or-eq-xor _ _ (
      ap (λ t. bit_and (bit_and a 0xFFFF) t) high
      ∙ and_comm (bit_and a 0xFFFF) (b % 2 ^ 16 * 2 ^ 16)
      ∙ and-disjoint_shl 16 (b % 2 ^ 16) (bit_and a 0xFFFF) low)

pub or-high :
    (a b : ℕ)
    → a < 2 ^ 32
    → bit_or (a >>> 16) (bit_and b 0xFFFF_0000) ≡ a >>> 16 ⊕ bit_and b 0xFFFF_0000
or-high a b h =
    or-eq-xor _ _ (disjoint b 0xFFFF_0000 (a >>> 16) (low-high (a >>> 16) (omega arith)))

swap_bits-lt : (shift mask x : ℕ) → mask < 2 ^ 32 → x < 2 ^ 32 → swap_bits shift mask x < 2 ^ 32
swap_bits-lt shift mask x hm hx =
    let t = bit_and (x ⊕ x >>> shift) mask in
    xor-lt 32 x (t ⊕ u32 (t <<< shift)) hx
      (xor-lt 32 t (u32 (t <<< shift)) (omega (arith, and-le (x ⊕ x >>> shift) mask)) (omega arith))

pub unzip-lt : (x : ℕ) → x < 2 ^ 32 → unzip x < 2 ^ 32
unfolding unzip
unzip-lt x h = swap_bits-lt 8 0x0000FF00 _ (omega arith) (
    swap_bits-lt 4 0x00F000F0 _ (omega arith)
      (swap_bits-lt 2 0x0C0C0C0C _ (omega arith) (swap_bits-lt 1 0x22222222 x (omega arith) h)))

pub zip-lt : (x : ℕ) → x < 2 ^ 32 → zip x < 2 ^ 32
unfolding zip
zip-lt x h = swap_bits-lt 1 0x22222222 _ (omega arith) (
    swap_bits-lt 2 0x0C0C0C0C _ (omega arith)
      (swap_bits-lt 4 0x00F000F0 _ (omega arith) (swap_bits-lt 8 0x0000FF00 x (omega arith) h)))
