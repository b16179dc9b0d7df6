-- ===== src/Hash/Interleaved.antt =====
-- `struct State` on the device: each lane as a word of its even bits, then one of its odd bits.
pub mod Linear
pub mod Refine
use hardware_wallet_benchmar.Prelude.{
  ℕ, List, ◌*◌, u32, set, bit_and, get_or, ◌+◌, ◌>>>◌, ◌<<<◌, bit_or,
}
use hardware_wallet_benchmar.Bits.Xor.{◌⊕◌}

-- one line of `unzip` and `zip`: swap two groups of bits that lie `shift` apart
abbrev pub swap_bits : ℕ → ℕ → ℕ → ℕ
swap_bits shift mask x = let t = bit_and (x ⊕ x >>> shift) mask in x ⊕ (t ⊕ u32 (t <<< shift))

-- even bits of `x` to the low half, odd bits to the high half
unfoldable pub unzip : ℕ → ℕ
unzip x =
    swap_bits 8 0x0000FF00
      (swap_bits 4 0x00F000F0 (swap_bits 2 0x0C0C0C0C (swap_bits 1 0x22222222 x)))

unfoldable pub zip : ℕ → ℕ
zip x =
    swap_bits 1 0x22222222
      (swap_bits 2 0x0C0C0C0C (swap_bits 4 0x00F000F0 (swap_bits 8 0x0000FF00 x)))

-- the words of the state
abbrev pub Words : Type 0
Words = List ℕ

abbrev pub word : Words → ℕ → ℕ
word s i = get_or s i 0

unfoldable pub lane : Words → ℕ → ℕ
lane s i =
    let even = word s (2 * i) in
    let odd = word s (2 * i + 1) in
    let lo = zip (bit_or (bit_and even 0xFFFF) (u32 (odd <<< 16))) in
    let hi = zip (bit_or (even >>> 16) (bit_and odd 0xFFFF_0000)) in bit_or lo (hi <<< 32)

-- the two words of a lane's value
unfoldable pub even_word : ℕ → ℕ
even_word value =
    let lo = unzip (u32 value) in
    let hi = unzip (u32 (value >>> 32)) in bit_or (bit_and lo 0xFFFF) (u32 (hi <<< 16))

unfoldable pub odd_word : ℕ → ℕ
odd_word value =
    let lo = unzip (u32 value) in
    let hi = unzip (u32 (value >>> 32)) in bit_or (lo >>> 16) (bit_and hi 0xFFFF_0000)

unfoldable pub xor_lane : Words → ℕ → ℕ → Words
xor_lane s i value =
    let s' = set s (2 * i) (word s (2 * i) ⊕ even_word value) in
    set s' (2 * i + 1) (word s' (2 * i + 1) ⊕ odd_word value)

unfoldable pub set_lane : Words → ℕ → ℕ → Words
set_lane s i value = set (set s (2 * i) (even_word value)) (2 * i + 1) (odd_word value)
