-- ===== src/Keccak/Iota.antt =====
-- The `while` of `Weights::lane0_sum`: it visits the set bits of the round constant, and ends.
use hardware_wallet_benchmar.Prelude.{
  ℕ, zero, suc, ◌≡◌, refl, sym, ap, ap₂, ◌∙◌, arith, ◌≤◌, ◌<◌, ◌+◌, ◌-◌, ◌*◌, ◌/◌, ◌%◌, ◌^◌, Bool,
  if◌then◌else◌, ◌==◌, Bool-cases, inl, inr, ==_iff, ==_apart, ==_false, bit_and, ◌⊎◌, List,
}
use hardware_wallet_benchmar.Field.E.{E, ◌⊞◌, zero_e}
use hardware_wallet_benchmar.Keccak.Weights.{lane0_loop, lane0_sum, layer, lane0_weight, z_kernel}
use hardware_wallet_benchmar.Transcript.Placement.{trailing_zeros, trailing_zeros_loop}
use hardware_wallet_benchmar.Bits.And.{and_self, and-le}
use hardware_wallet_benchmar.Bits.Step.{bit_and_step}
use native.Mathlib.Nat.{pow-suc}
use native.Mathlib.Decide.{dec_lt}

-- the sum of `weight z` over the set bits of the lowest `n`, the lowest bit of `bits` being bit `z`
unfoldable pub bit_sum : ℕ → ℕ → (ℕ → E) → ℕ → E → E
bit_sum zero z weight bits sum = sum
bit_sum (suc n) z weight bits sum =
    bit_sum n (z + 1) weight (bits / 2) (if bits % 2 == 1 then sum ⊞ weight z else sum)

bit_sum_shift :
    (n z : ℕ) (weight : ℕ → E) (bits : ℕ) (sum : E)
    → bit_sum n (z + 1) weight bits sum ≡ bit_sum n z (λ k. weight (k + 1)) bits sum
unfolding bit_sum
bit_sum_shift zero z weight bits sum = refl
bit_sum_shift (suc n) z weight bits sum = bit_sum_shift n (z + 1) weight (bits / 2) _

zeros_step :
    (fuel v : ℕ)
    → trailing_zeros_loop (suc fuel) v
      ≡ (if v % 2 == 1 then 0 else trailing_zeros_loop fuel (v / 2) + 1)
unfolding trailing_zeros_loop
zeros_step fuel v = refl

zeros_odd : (fuel v : ℕ) → v % 2 ≡ 1 → trailing_zeros_loop (suc fuel) v ≡ 0
zeros_odd fuel v odd =
    zeros_step fuel v
    ∙ ap (λ b. if b then 0 else trailing_zeros_loop fuel (v / 2) + 1) ((==_iff (v % 2) 1).1 odd)

zeros_even :
    (fuel v : ℕ)
    → v % 2 ≡ 0
    → trailing_zeros_loop (suc fuel) v ≡ trailing_zeros_loop fuel (v / 2) + 1
zeros_even fuel v even =
    zeros_step fuel v
    ∙ ap (λ b. if b then 0 else trailing_zeros_loop fuel (v / 2) + 1)
        (==_apart (v % 2) 1 (λ e. omega (arith, e, even)))

pub parity_cases : (v : ℕ) → (v % 2 ≡ 1) ⊎ (v % 2 ≡ 0)
parity_cases v = elim (Bool-cases (v % 2 == 1)) [
  | inl odd ↦ inl ((==_iff (v % 2) 1).0 odd)
  | inr even ↦ inr (omega (arith, ==_false (v % 2) 1 even))
]

zeros_fuel :
    (fuel h : ℕ)
    → 0 < h
    → h < 2 ^ fuel
    → trailing_zeros_loop fuel h ≡ trailing_zeros_loop (suc fuel) h
zeros_fuel zero h pos low = absurd (omega arith)
zeros_fuel (suc fuel) h pos low = elim (parity_cases h) [
  | inl odd ↦ zeros_odd fuel h odd ∙ sym (zeros_odd (suc fuel) h odd)
  | inr even ↦
      zeros_even fuel h even
      ∙ ap (λ r. r + 1)
          (zeros_fuel fuel (h / 2) (omega (arith, even)) (omega (arith, low, pow-suc 2 fuel)))
      ∙ sym (zeros_even (suc fuel) h even)
]

double_zeros : (h : ℕ) → 0 < h → h < 2 ^ 63 → trailing_zeros (2 * h) ≡ trailing_zeros h + 1
unfolding trailing_zeros
double_zeros h pos low =
    let half : 2 * h / 2 ≡ h = omega arith in
    zeros_even 63 (2 * h) (omega arith)
    ∙ ap (λ k. trailing_zeros_loop 63 k + 1) half
    ∙ ap (λ r. r + 1) (zeros_fuel 63 h pos low)

odd_zeros : (h : ℕ) → trailing_zeros (2 * h + 1) ≡ 0
unfolding trailing_zeros
odd_zeros h = zeros_odd 63 (2 * h + 1) (omega arith)

and_double : (h : ℕ) → 0 < h → bit_and (2 * h) (2 * h - 1) ≡ 2 * bit_and h (h - 1)
and_double h pos =
    let left : 2 * h / 2 ≡ h = omega arith in
    let right : (2 * h - 1) / 2 ≡ h - 1 = omega arith in
    omega (arith, bit_and_step (2 * h) (2 * h - 1), ap₂ bit_and left right)

and_odd : (h : ℕ) → bit_and (2 * h + 1) (2 * h + 1 - 1) ≡ 2 * h
and_odd h =
    let left : (2 * h + 1) / 2 ≡ h = omega arith in
    let right : (2 * h + 1 - 1) / 2 ≡ h = omega arith in
    omega (arith, bit_and_step (2 * h + 1) (2 * h + 1 - 1), ap₂ bit_and left right ∙ and_self h)

-- A turn at a constant that is not zero, and at zero.
loop_turn :
    (fuel : ℕ) (weight : ℕ → E) (bits : ℕ) (sum : E)
    → 0 < bits
    → lane0_loop (suc fuel) weight bits sum
      ≡ lane0_loop fuel weight (bit_and bits (bits - 1)) (sum ⊞ weight (trailing_zeros bits))
unfolding lane0_loop
loop_turn fuel weight bits sum pos =
    ap
      (λ b.
        if b
        then sum
        else lane0_loop fuel weight (bit_and bits (bits - 1)) (sum ⊞ weight (trailing_zeros bits)))
      (==_apart bits 0 (λ e. omega (arith, e)))

loop_end : (fuel : ℕ) (weight : ℕ → E) (sum : E) → lane0_loop fuel weight 0 sum ≡ sum
unfolding lane0_loop
loop_end zero weight sum = refl
loop_end (suc fuel) weight sum = refl

loop_double :
    (fuel : ℕ) (weight : ℕ → E) (h : ℕ) (sum : E)
    → h < 2 ^ 63
    → lane0_loop fuel weight (2 * h) sum ≡ lane0_loop fuel (λ k. weight (k + 1)) h sum
unfolding lane0_loop
loop_double zero weight h sum low = refl
loop_double (suc fuel) weight h sum low = elim (dec_lt 0 h) [
  | yes pos ↦
      loop_turn fuel weight (2 * h) sum (omega arith)
      ∙ ap₂ (λ (b : ℕ) (z : ℕ). lane0_loop fuel weight b (sum ⊞ weight z)) (and_double h pos)
          (double_zeros h pos low)
      ∙ loop_double fuel weight (bit_and h (h - 1)) (sum ⊞ weight (trailing_zeros h + 1))
          (omega (arith, low, and-le h (h - 1)))
      ∙ sym (loop_turn fuel (λ k. weight (k + 1)) h sum pos)
  | no none_left ↦
      let empty : h ≡ 0 = omega (arith, none_left) in
      let twice : 2 * h ≡ 0 = omega (arith, empty) in
      ap (λ b. lane0_loop (suc fuel) weight b sum) twice
      ∙ loop_end (suc fuel) weight sum
      ∙ sym (loop_end (suc fuel) (λ k. weight (k + 1)) sum)
      ∙ ap (λ b. lane0_loop (suc fuel) (λ k. weight (k + 1)) b sum) (sym empty)
]

pub loop-bit_sum :
    (n fuel : ℕ) (weight : ℕ → E) (bits : ℕ) (sum : E)
    → n ≤ fuel
    → bits < 2 ^ 64
    → bits < 2 ^ n
    → lane0_loop fuel weight bits sum ≡ bit_sum n 0 weight bits sum
unfolding bit_sum
loop-bit_sum zero fuel weight bits sum enough small low =
    let empty : bits ≡ 0 = omega (arith, low) in
    ap (λ b. lane0_loop fuel weight b sum) empty ∙ loop_end fuel weight sum
loop-bit_sum (suc n) zero weight bits sum enough small low = absurd (omega arith)
loop-bit_sum (suc n) (suc fuel) weight bits sum enough small low =
    let h = bits / 2 in
    let low' : h < 2 ^ n = omega (arith, low, pow-suc 2 n) in
    let word : h < 2 ^ 63 = omega (arith, small) in
    let later = λ (f : ℕ) (s : E) (p : n ≤ f).
      loop_double f weight h s word
      ∙ loop-bit_sum n f (λ k. weight (k + 1)) h s p (omega (arith, small)) low'
      ∙ sym (bit_sum_shift n 0 weight h s) in
    let test = λ (b : Bool). bit_sum n 1 weight h (if b then sum ⊞ weight 0 else sum) in
    elim (parity_cases bits) [
      | inl odd ↦
          let whole : bits ≡ 2 * h + 1 = omega (arith, odd) in
          loop_turn fuel weight bits sum (omega (arith, whole))
          ∙ ap₂ (λ (b : ℕ) (z : ℕ). lane0_loop fuel weight b (sum ⊞ weight z))
              (ap (λ b. bit_and b (b - 1)) whole ∙ and_odd h)
              (ap trailing_zeros whole ∙ odd_zeros h)
          ∙ later fuel (sum ⊞ weight 0) (omega (arith, enough))
          ∙ ap test (sym ((==_iff (bits % 2) 1).1 odd))
      | inr even ↦
          let whole : bits ≡ 2 * h = omega (arith, even) in
          ap (λ b. lane0_loop (suc fuel) weight b sum) whole
          ∙ later (suc fuel) sum (omega (arith, enough))
          ∙ ap test (sym (==_apart (bits % 2) 1 (λ e. omega (arith, e, even))))
    ]

-- For a round constant below 2^64, lane0_sum of the factored weights is the sum of the weights of
-- lane 0 over the set bits of the constant, taken from bit 0 up: its loop ends within 64 turns and
-- visits each set bit once.
pub lane0_sum-bit_sum :
    (zq lam : List E) (rc : ℕ)
    → rc < 2 ^ 64
    → lane0_sum (layer zq lam) rc ≡ bit_sum 64 0 (lane0_weight (z_kernel zq) lam) rc zero_e
unfolding lane0_sum
lane0_sum-bit_sum zq lam rc low =
    loop-bit_sum 64 64 (lane0_weight (z_kernel zq) lam) rc zero_e (omega arith) low low
