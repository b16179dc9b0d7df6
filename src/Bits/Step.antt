-- ===== src/Bits/Step.antt =====
-- The native `bit_and`, `bit_or` and `bit_xor`, read one binary digit at a time: the machine's
-- `&`, `|` and `^` on values of any width.
use Prim.Native.Nat.{digits, differ, bit_and-bitwise, bit_or-bitwise, bit_xor-bitwise}
use hardware_wallet_benchmar.Prelude.{
  ℕ, zero, suc, ◌+◌, ◌-◌, ◌*◌, ◌/◌, ◌%◌, ◌≤◌, ◌<◌, min, max, bit_and, bit_or, bit_xor, ◌≡◌, refl,
  ◌∙◌, ap, arith,
}

-- The library's recursion counts the digits to go; a larger count gives the same number.
module _ (rest : ℕ → ℕ) (op : ℕ → ℕ → ℕ) where
  one_more : (k a b : ℕ) → a ≤ k → digits rest op (suc k) a b ≡ digits rest op k a b
  one_more zero zero b h = refl
  one_more zero (suc a) b h = absurd (omega arith)
  one_more (suc k) zero b h = refl
  one_more (suc k) (suc a) b h =
      ap (λ t. t * 2 + op (suc a % 2) (b % 2)) (one_more k (suc a / 2) (b / 2) (omega arith))

  many_more : (j k a b : ℕ) → a ≤ k → digits rest op (j + k) a b ≡ digits rest op k a b
  many_more zero k a b h = let e : 0 + k ≡ k = omega arith in ap (λ t. digits rest op t a b) e
  many_more (suc j) k a b h =
      let e : suc j + k ≡ suc (j + k) = omega arith in
      ap (λ t. digits rest op t a b) e ∙ one_more (j + k) a b (omega arith) ∙ many_more j k a b h

  halved :
      (a b : ℕ)
      → digits rest op a (suc a / 2) (b / 2) ≡ digits rest op (suc a / 2) (suc a / 2) (b / 2)
  halved a b =
      let e : a ≡ a - suc a / 2 + suc a / 2 = omega arith in
      ap (λ t. digits rest op t (suc a / 2) (b / 2)) e
      ∙ many_more (a - suc a / 2) (suc a / 2) (suc a / 2) (b / 2) (omega arith)

pub bit_and_step : (x y : ℕ) → bit_and x y ≡ bit_and (x / 2) (y / 2) * 2 + min (x % 2) (y % 2)
bit_and_step zero y = omega (arith, bit_and-bitwise 0 y, bit_and-bitwise 0 (y / 2))
bit_and_step (suc x) y =
    omega (
      arith,
      bit_and-bitwise (suc x) y,
      bit_and-bitwise (suc x / 2) (y / 2),
      halved (λ t. 0) min x y,
    )

differ_parity : (x y : ℕ) → x < 2 → y < 2 → differ x y ≡ (x + y) % 2
differ_parity zero y h k = omega arith
differ_parity (suc zero) zero h k = refl
differ_parity (suc zero) (suc zero) h k = refl
differ_parity (suc zero) (suc (suc y)) h k = absurd (omega arith)
differ_parity (suc (suc x)) y h k = absurd (omega arith)

pub bit_xor_step : (x y : ℕ) → bit_xor x y ≡ bit_xor (x / 2) (y / 2) * 2 + (x % 2 + y % 2) % 2
bit_xor_step zero y = omega (arith, bit_xor-bitwise 0 y, bit_xor-bitwise 0 (y / 2))
bit_xor_step (suc x) y = omega (
  arith,
  bit_xor-bitwise (suc x) y,
  bit_xor-bitwise (suc x / 2) (y / 2),
  halved (λ t. t) differ x y,
  differ_parity (suc x % 2) (y % 2) (omega arith) (omega arith),
)

pub bit_or_step : (x y : ℕ) → bit_or x y ≡ bit_or (x / 2) (y / 2) * 2 + max (x % 2) (y % 2)
bit_or_step zero y = omega (arith, bit_or-bitwise 0 y, bit_or-bitwise 0 (y / 2))
bit_or_step (suc x) y =
    omega
      (arith, bit_or-bitwise (suc x) y, bit_or-bitwise (suc x / 2) (y / 2), halved (λ t. t) max x y)
