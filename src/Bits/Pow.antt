-- ===== src/Bits/Pow.antt =====
-- Shifts and low masks by a power of two, one place at a time.
use native.Mathlib.Nat.{pow-suc, pow-succ', div-div-eq-div-mul, div-add-mod, one-le-pow}
use hardware_wallet_benchmar.Prelude.{
  ℕ, zero, suc, ◌+◌, ◌*◌, ◌/◌, ◌%◌, ◌^◌, ◌<◌, ◌≡◌, sym, ◌∙◌, ap, arith,
}

pub shl_suc : (k a : ℕ) → a * 2 ^ suc k ≡ 2 * (a * 2 ^ k)
shl_suc k a = omega (arith, ap (λ (t : ℕ). a * t) (pow-suc 2 k))

pub shr_suc : (k a : ℕ) → a / 2 ^ suc k ≡ a / 2 / 2 ^ k
shr_suc k a = ap (λ (t : ℕ). a / t) (pow-succ' 2 k) ∙ sym (div-div-eq-div-mul a 2 (2 ^ k))

pub pow_pos : (k : ℕ) → 0 < 2 ^ k
pow_pos k = one-le-pow k 2 (omega arith)

pub mod_suc : (k a : ℕ) → a % 2 ^ suc k ≡ 2 * (a / 2 % 2 ^ k) + a % 2
mod_suc k a = omega (
  arith,
  div-add-mod a (2 ^ suc k),
  div-add-mod (a / 2) (2 ^ k),
  shr_suc k a,
  ap (λ (t : ℕ). t * (a / 2 ^ suc k)) (pow-suc 2 k),
  ap (λ (t : ℕ). 2 ^ k * t) (shr_suc k a),
)

pub pow_add : (j k : ℕ) → 2 ^ (j + k) ≡ 2 ^ j * 2 ^ k
pow_add zero k = let e : 0 + k ≡ k = omega arith in ap (λ (t : ℕ). 2 ^ t) e ∙ omega arith
pow_add (suc j) k =
    let e : suc j + k ≡ suc (j + k) = omega arith in
    ap (λ (t : ℕ). 2 ^ t) e
    ∙ omega (arith, pow-suc 2 (j + k), pow_add j k, ap (λ (t : ℕ). t * 2 ^ k) (pow-suc 2 j))

-- A shift left and one right undo each other.
shr-shl : (k a : ℕ) → a * 2 ^ k / 2 ^ k ≡ a
shr-shl zero a = omega arith
shr-shl (suc k) a =
    let e : a * 2 ^ suc k / 2 ≡ a * 2 ^ k = omega (arith, shl_suc k a) in
    shr_suc k (a * 2 ^ suc k) ∙ ap (λ (t : ℕ). t / 2 ^ k) e ∙ shr-shl k a
