-- ===== src/Bits/Linear.antt =====
-- Maps that respect `^` are fixed by their values at the powers of two.
use native.Mathlib.Nat.{pow-suc}
use native.Mathlib.Decide.{dec_lt}
use hardware_wallet_benchmar.Prelude.{
  ℕ, zero, suc, ◌-◌, ◌*◌, ◌^◌, ◌<◌, bit_xor, ◌≡◌, sym, ◌∙◌, ap, ap₂, arith, Bool, true, ◌&&◌, ◌==◌,
  ==_iff, ◌⊎◌, inl, inr, ◌<<<◌, u64, ◌>>>◌,
}
use hardware_wallet_benchmar.Bits.Xor.{◌⊕◌, xor_self, xor_swap, xor-shr, xor-shl, xor-mod}
use hardware_wallet_benchmar.Bits.And.{xor-eq-add}

abbrev pub IsLinear : (ℕ → ℕ) → Type 0
IsLinear f = (a b : ℕ) → f (a ⊕ b) ≡ f a ⊕ f b

linear-zero : (f : ℕ → ℕ) → IsLinear f → f 0 ≡ 0
linear-zero f lin = lin 0 0 ∙ xor_self (f 0)

-- Do `f` and `g` agree at 0, 1, ... below `n`?
unfoldable pub agree_below : ℕ → (ℕ → ℕ) → (ℕ → ℕ) → Bool
agree_below zero f g = true
agree_below (suc n) f g = (f n == g n) && agree_below n f g

and-true_left : (a b : Bool) → (a && b) ≡ true → a ≡ true
and-true_left a b h = ground arith

and-true_right : (a b : Bool) → (a && b) ≡ true → b ≡ true
and-true_right a b h = ground arith

pub agree_below_sound :
    (n : ℕ) (f g : ℕ → ℕ) → agree_below n f g ≡ true → (i : ℕ) → i < n → f i ≡ g i
unfolding agree_below
agree_below_sound zero f g h i lt = absurd (omega arith)
agree_below_sound (suc n) f g h i lt = elim (dec_lt i n) [
  | yes p ↦ agree_below_sound n f g (and-true_right _ _ h) i p
  | no p ↦
      let e : i ≡ n = omega arith in ap f e ∙ (==_iff _ _).0 (and-true_left _ _ h) ∙ sym (ap g e)
]

unfoldable pub every_below : (test : ℕ → Bool) (n : ℕ) → Bool
every_below test zero = true
every_below test (suc n) = every_below test n && test n

pub both_left : (x y : Bool) → (x && y) ≡ true → x ≡ true
both_left x y h = ground arith

pub both_right : (x y : Bool) → (x && y) ≡ true → y ≡ true
both_right x y h = ground arith

pub every_below_sound :
    (test : ℕ → Bool) (n i : ℕ) → i < n → every_below test n ≡ true → test i ≡ true
unfolding every_below
every_below_sound test zero i lt h = absurd (omega arith)
every_below_sound test (suc n) i lt h = elim (dec_lt i n) [
  | yes q ↦ every_below_sound test n i q (both_left (every_below test n) (test n) h)
  | no q ↦ let e : i ≡ n = omega arith in ap test e ∙ both_right (every_below test n) (test n) h
]

-- Split off the top digit.
top_digit :
    (n a : ℕ) → a < 2 ^ suc n → (a < 2 ^ n) ⊎ ((a - 2 ^ n < 2 ^ n) × (a ≡ 2 ^ n ⊕ (a - 2 ^ n)))
top_digit n a h = elim (dec_lt a (2 ^ n)) [
  | yes p ↦ inl p
  | no p ↦
      let low : a - 2 ^ n < 2 ^ n = omega (arith, pow-suc 2 n) in
      let e : 1 * 2 ^ n ≡ 2 ^ n = omega arith in
      inr (low, omega (arith, xor-eq-add n 1 (a - 2 ^ n) low, ap (λ t. bit_xor t (a - 2 ^ n)) e))
]

-- Linear maps that agree at 1, 2, 4, ... agree.
pub linear_ext :
    (n : ℕ) (f g : ℕ → ℕ)
    → IsLinear f
    → IsLinear g
    → ((i : ℕ) → i < n → f (2 ^ i) ≡ g (2 ^ i))
    → (a : ℕ) → a < 2 ^ n
    → f a ≡ g a
linear_ext zero f g lf lg h a lt =
    let e : a ≡ 0 = omega arith in ap f e ∙ linear-zero f lf ∙ sym (linear-zero g lg) ∙ sym (ap g e)
linear_ext (suc n) f g lf lg h a lt =
    let below : (i : ℕ) → i < n → f (2 ^ i) ≡ g (2 ^ i) = λ i p. h i (omega arith) in
    elim (top_digit n a lt) [
      | inl low ↦ linear_ext n f g lf lg below a low
      | inr (low, e) ↦
          ap f e
          ∙ lf (2 ^ n) (a - 2 ^ n)
          ∙ ap₂ bit_xor (h n (omega arith)) (linear_ext n f g lf lg below (a - 2 ^ n) low)
          ∙ sym (lg (2 ^ n) (a - 2 ^ n))
          ∙ sym (ap g e)
    ]

-- Sums and compositions of linear maps are linear.
pub sum-IsLinear : (f g : ℕ → ℕ) → IsLinear f → IsLinear g → IsLinear (λ x. f x ⊕ g x)
sum-IsLinear f g lf lg a b = ap₂ bit_xor (lf a b) (lg a b) ∙ xor_swap (f a) (f b) (g a) (g b)

pub compose-IsLinear : (f g : ℕ → ℕ) → IsLinear f → IsLinear g → IsLinear (λ x. f (g x))
compose-IsLinear f g lf lg a b = ap f (lg a b) ∙ lf (g a) (g b)

pub u64-IsLinear : IsLinear (λ x. u64 x)
u64-IsLinear = xor-mod 64

pub shr-IsLinear : (k : ℕ) → IsLinear (λ x. x >>> k)
shr-IsLinear k = xor-shr k

pub shl-IsLinear : (k : ℕ) → IsLinear (λ x. x <<< k)
shl-IsLinear k = xor-shl k
