-- ===== src/Field/E.antt =====
-- `struct E`: elements of `K[y]/(y^3 + y + 1)` by three words, and their arithmetic.
pub mod Schoolbook
pub mod Laws
pub mod Embed
pub mod Associative
use hardware_wallet_benchmar.Prelude.{
  ℕ, zero, suc, ◌+◌, ◌/◌, ◌%◌, ◌^◌, ◌≡◌, refl, Bool, true, false, ◌&&◌, ◌==◌, if◌then◌else◌, u64,
  u128, ◌<<<◌, ◌*◌,
}
use hardware_wallet_benchmar.Bits.Xor.{◌⊕◌}
use hardware_wallet_benchmar.Field.Clmul.{clmul, spread, reduce, base_mul}
use hardware_wallet_benchmar.Field.Clmul
use hardware_wallet_benchmar.Field.K.{K}
use hardware_wallet_benchmar.Field.K

pub record E : Type 0 where
  pub c0 : ℕ
  pub c1 : ℕ
  pub c2 : ℕ

-- `E::new`
abbrev pub new : ℕ → ℕ → ℕ → E
new c0 c1 c2 = record { c0 = c0; c1 = c1; c2 = c2 }

-- `ZERO`, `ONE`, `GEN`
abbrev pub zero_e : E
zero_e = new 0 0 0

abbrev pub one_e : E
one_e = new 1 0 0

abbrev pub gen : E
gen = new 2 0 0

infixl 65 ◌⊞◌
infixl 70 ◌⊠◌
infix 50 ◌≟◌
-- `impl Add`, `impl Mul` and the derived `==`
unfoldable pub ◌⊞◌ : E → E → E
a ⊞ b = new (a.c0 ⊕ b.c0) (a.c1 ⊕ b.c1) (a.c2 ⊕ b.c2)

unfoldable pub ◌⊠◌ : E → E → E
a ⊠ b =
    let p0 = clmul a.c0 b.c0 in
    let p1 = clmul a.c1 b.c1 in
    let p2 = clmul a.c2 b.c2 in
    let e1 = clmul (a.c0 ⊕ a.c1) (b.c0 ⊕ b.c1) ⊕ p0 ⊕ p1 in
    let e2 = clmul (a.c0 ⊕ a.c2) (b.c0 ⊕ b.c2) ⊕ p0 ⊕ p2 ⊕ p1 in
    let e3 = clmul (a.c1 ⊕ a.c2) (b.c1 ⊕ b.c2) ⊕ p1 ⊕ p2 in
    new (reduce (p0 ⊕ e3)) (reduce (e1 ⊕ e3 ⊕ p2)) (reduce (e2 ⊕ p2))

abbrev pub ◌≟◌ : E → E → Bool
a ≟ b = (a.c0 == b.c0) && (a.c1 == b.c1) && (a.c2 == b.c2)

unfoldable pub is_zero : E → Bool
is_zero a = a ≟ zero_e

-- `impl Mul<K> for E`
unfoldable pub mul_k : E → K → E
mul_k a b = new (base_mul a.c0 b) (base_mul a.c1 b) (base_mul a.c2 b)

-- `From<K>`
abbrev pub of_k : K → E
of_k k = new k 0 0

-- `x^k`, for `k < 64`
unfoldable pub monomial : ℕ → E
monomial k = new (u64 (1 <<< k)) 0 0

unfoldable pub square : E → E
square a =
    let s0 = spread a.c0 in
    let s1 = spread a.c1 in let s2 = spread a.c2 in new (reduce s0) (reduce s2) (reduce (s1 ⊕ s2))

unfoldable pub frobenius : E → E
frobenius a = new a.c0 a.c2 (a.c1 ⊕ a.c2)

-- the `while` of `pow`, on fuel
unfoldable pub pow_loop : ℕ → E → E → ℕ → E
pow_loop zero base out n = out
pow_loop (suc fuel) base out n =
    let rest = pow_loop fuel (square base) (if n % 2 == 1 then out ⊠ base else out) (n / 2) in
    if n == 0 then out else rest

-- A 64-bit exponent is 0 after 64 halvings.
unfoldable pub pow : E → ℕ → E
pow a exponent = pow_loop 65 a one_e exponent

unfoldable pub inv : E → E
inv a =
    let m = frobenius a ⊠ frobenius (frobenius a) in let norm = a ⊠ m in m ⊠ of_k (K.inv norm.c0)

-- `self * x^k`, for `k < 64`
unfoldable pub times_monomial : E → ℕ → E
times_monomial a k =
    let shift = λ (limb : ℕ). reduce (u128 (limb <<< k)) in
    new (shift a.c0) (shift a.c1) (shift a.c2)
