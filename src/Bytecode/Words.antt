-- ===== src/Bytecode/Words.antt =====
-- `add_bits`, the loop over the bits of a word of leanvm-pow/ledger/verifier/src/bytecode.rs.
use native.Mathlib.Nat.{pow-suc, pow-le-pow_right, mod-eq_of_lt}
use hardware_wallet_benchmar.Prelude.{
  ℕ, zero, suc, Bool, List, ◌≡◌, refl, sym, ap, ap₂, ◌∙◌, arith, ◌+◌, ◌-◌, ◌*◌, ◌/◌, ◌%◌, ◌^◌, ◌<◌,
  ◌≤◌, inl, inr, ◌==◌, ==_iff, ==_apart, ==_false, u64, Bool-cases, if◌then◌else◌, length, set,
  length-set, ◌<<<◌, bit_and,
}
use hardware_wallet_benchmar.Bits.And.{and-le}
use hardware_wallet_benchmar.Bits.Pow.{pow_pos}
use hardware_wallet_benchmar.Bits.Step.{bit_xor_step}
use hardware_wallet_benchmar.Bits.Xor.{◌⊕◌, zero-xor, xor-shl}
use hardware_wallet_benchmar.Field.Clmul.Reduce.{base_mul-xor, base_mul-zero}
use hardware_wallet_benchmar.Field.E.{E, zero_e, ◌⊞◌, times_monomial, mul_k, monomial}
use hardware_wallet_benchmar.Field.E.Laws.{IsElement, E_path, add_assoc, add-zero}
use hardware_wallet_benchmar.Field.E.Embed.{times_monomial-mul, mul-of_k}
use hardware_wallet_benchmar.Transcript.Multilinear.{at}
use hardware_wallet_benchmar.Transcript.Placement.{trailing_zeros, trailing_zeros_loop}
use hardware_wallet_benchmar.Keccak.Weights.{lane0_loop}
use hardware_wallet_benchmar.Keccak.Iota.{bit_sum, loop-bit_sum, parity_cases}
use hardware_wallet_benchmar.Bytecode.{monomial_sum, add_bits}
use hardware_wallet_benchmar.Bytecode.Monomial.{monomial_sum-set}

-- a position of a word
zeros-lt : (fuel v : ℕ) → 0 < v → v < 2 ^ fuel → trailing_zeros_loop fuel v < fuel
unfolding trailing_zeros_loop
zeros-lt zero v pos low = absurd (omega arith)
zeros-lt (suc fuel) v pos low =
    let rest : ℕ = trailing_zeros_loop fuel (v / 2) + 1 in
    elim (parity_cases v) [
      | inl odd ↦
          let e = ap (λ b. if b then 0 else rest) ((==_iff (v % 2) 1).1 odd) in omega (arith, e)
      | inr even ↦
          let e =
            ap (λ b. if b then 0 else rest) (==_apart (v % 2) 1 (λ e. omega (arith, e, even))) in
          omega (
            arith,
            e,
            zeros-lt fuel (v / 2) (omega (arith, even, pos)) (omega (arith, low, pow-suc 2 fuel)),
          )
    ]

add_bits-lane0_loop :
    (fuel word : ℕ) (w : E) (bs : List E)
    → length bs ≡ 64
    → word < 2 ^ 64
    → monomial_sum (add_bits fuel word w bs)
      ≡ lane0_loop fuel (times_monomial w) word (monomial_sum bs)
unfolding add_bits lane0_loop trailing_zeros
add_bits-lane0_loop zero word w bs long low = refl
add_bits-lane0_loop (suc fuel) word w bs long low =
    let k = trailing_zeros word in
    let less = bit_and word (word - 1) in
    let bs' = set bs k (at bs k ⊞ w) in
    let turned = add_bits fuel less w bs' in
    let summed = lane0_loop fuel (times_monomial w) less (monomial_sum bs ⊞ times_monomial w k) in
    let left = λ (b : Bool). monomial_sum (if b then bs else turned) in
    let right = λ (b : Bool). if b then monomial_sum bs else summed in
    elim (Bool-cases (word == 0)) [
      | inl none_left ↦ ap left none_left ∙ sym (ap right none_left)
      | inr some_left ↦
          let pos : 0 < word = omega (arith, ==_false word 0 some_left) in
          ap left some_left
          ∙ add_bits-lane0_loop fuel less w bs' (length-set bs k (at bs k ⊞ w) ∙ long)
              (omega (arith, and-le word (word - 1)))
          ∙ ap (lane0_loop fuel (times_monomial w) less)
              (monomial_sum-set bs k w (omega (arith, zeros-lt 64 word pos low, long)))
          ∙ sym (ap right some_left)
    ]

mul_k-xor : (a : E) (j k : ℕ) → mul_k a (j ⊕ k) ≡ mul_k a j ⊞ mul_k a k
unfolding mul_k ◌⊞◌
mul_k-xor a j k = E_path _ _ (base_mul-xor a.c0 j k) (base_mul-xor a.c1 j k) (base_mul-xor a.c2 j k)

pub mul_k-zero : (a : E) → mul_k a 0 ≡ zero_e
unfolding mul_k
mul_k-zero a = E_path _ _ (base_mul-zero a.c0) (base_mul-zero a.c1) (base_mul-zero a.c2)

times_monomial-mul_k : (w : E) (z : ℕ) → IsElement w → z < 64 → times_monomial w z ≡ mul_k w (2 ^ z)
unfolding monomial
times_monomial-mul_k w z hw hz =
    let two : 0 < 2 = omega arith in
    let small : 2 ^ z < 2 ^ 64 =
      omega
        (arith, pow-suc 2 z, pow-le-pow_right two {i = suc z} {j = 64} (omega arith), pow_pos z) in
    let one : 1 <<< z ≡ 2 ^ z = omega arith in
    times_monomial-mul w z hw hz
    ∙ mul-of_k w (u64 (1 <<< z))
    ∙ ap (mul_k w) (ap (λ (t : ℕ). u64 t) one ∙ mod-eq_of_lt small)

bit_sum-mul_k :
    (n z bits : ℕ) (w sum : E)
    → IsElement w
    → z + n ≤ 64
    → bits < 2 ^ n
    → bit_sum n z (times_monomial w) bits sum ≡ sum ⊞ mul_k w (bits * 2 ^ z)
unfolding bit_sum
bit_sum-mul_k zero z bits w sum hw room low =
    let e : 0 ≡ bits * 2 ^ z =
      let none_left : bits ≡ 0 = omega (arith, low) in
      omega (arith, ap (λ (t : ℕ). t * 2 ^ z) none_left) in
    sym (add-zero sum) ∙ ap (λ t. sum ⊞ t) (sym (mul_k-zero w)) ∙ ap (λ k. sum ⊞ mul_k w k) e
bit_sum-mul_k (suc n) z bits w sum hw room low =
    let h = bits / 2 in
    let above : ℕ = h * 2 ^ (z + 1) in
    let test = λ (b : Bool).
      bit_sum n (z + 1) (times_monomial w) h (if b then sum ⊞ times_monomial w z else sum) in
    let power : 2 ^ (z + 1) ≡ 2 * 2 ^ z =
      let e : z + 1 ≡ suc z = omega arith in ap (λ (t : ℕ). 2 ^ t) e ∙ omega (arith, pow-suc 2 z) in
    let later =
      λ (s : E). bit_sum-mul_k n (z + 1) h w s hw (omega arith) (omega (arith, low, pow-suc 2 n)) in
    elim (parity_cases bits) [
      | inl odd ↦
          let whole : bits ≡ 1 ⊕ 2 * h =
            let half : 2 * h / 2 ≡ h = omega arith in
            let low_half : 1 / 2 ≡ 0 = refl in
            omega (
              arith,
              odd,
              bit_xor_step 1 (2 * h),
              ap₂ (λ (a b : ℕ). a ⊕ b) low_half half ∙ zero-xor h,
            ) in
          let shifted : above ≡ 2 * h * 2 ^ z = omega (arith, ap (λ (t : ℕ). h * t) power) in
          let one : 1 * 2 ^ z ≡ 2 ^ z = omega arith in
          ap test ((==_iff (bits % 2) 1).1 odd)
          ∙ later (sum ⊞ times_monomial w z)
          ∙ ap (λ t. sum ⊞ t ⊞ mul_k w above) (times_monomial-mul_k w z hw (omega arith))
          ∙ add_assoc sum (mul_k w (2 ^ z)) (mul_k w above)
          ∙ ap (λ t. sum ⊞ t) (sym (mul_k-xor w (2 ^ z) above))
          ∙ ap (λ k. sum ⊞ mul_k w k)
              (ap₂ (λ (a b : ℕ). a ⊕ b) (sym one) shifted
                ∙ sym (xor-shl z 1 (2 * h))
                ∙ ap (λ (t : ℕ). t * 2 ^ z) (sym whole))
      | inr even ↦
          let e : above ≡ bits * 2 ^ z =
            let whole : bits ≡ 2 * h = omega (arith, even) in
            omega (arith, ap (λ (t : ℕ). h * t) power, ap (λ (t : ℕ). t * 2 ^ z) whole) in
          ap test (==_apart (bits % 2) 1 (λ e. omega (arith, e, even)))
          ∙ later sum
          ∙ ap (λ k. sum ⊞ mul_k w k) e
    ]

-- the bits of a word, each with its weight
pub add_bits-mul_k :
    (word : ℕ) (w : E) (bs : List E)
    → IsElement w
    → length bs ≡ 64
    → word < 2 ^ 64
    → monomial_sum (add_bits 64 word w bs) ≡ monomial_sum bs ⊞ mul_k w word
add_bits-mul_k word w bs hw long low =
    let e : word * 2 ^ 0 ≡ word = omega arith in
    add_bits-lane0_loop 64 word w bs long low
    ∙ loop-bit_sum 64 64 (times_monomial w) word (monomial_sum bs) (omega arith) low low
    ∙ bit_sum-mul_k 64 0 word w (monomial_sum bs) hw (omega arith) low
    ∙ ap (λ k. monomial_sum bs ⊞ mul_k w k) e

pub length-add_bits :
    (fuel word : ℕ) (w : E) (bs : List E) → length (add_bits fuel word w bs) ≡ length bs
unfolding add_bits
length-add_bits zero word w bs = refl
length-add_bits (suc fuel) word w bs =
    let k = trailing_zeros word in
    let bs' = set bs k (at bs k ⊞ w) in
    let less = bit_and word (word - 1) in
    let long = length-add_bits fuel less w bs' ∙ length-set bs k (at bs k ⊞ w) in
    let run = λ (b : Bool). length (if b then bs else add_bits fuel less w bs') in
    elim (Bool-cases (word == 0)) [
      | inl none_left ↦ ap run none_left
      | inr some_left ↦ ap run some_left ∙ long
    ]
