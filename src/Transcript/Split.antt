-- ===== src/Transcript/Split.antt =====
-- `eq_bits` at a point in two parts.
use hardware_wallet_benchmar.Prelude.{
  ℕ, zero, suc, Bool, List, [], ◌∷◌, ◌++◌, ◌≡◌, refl, sym, ap, ap₂, ◌∙◌, arith, ◌/◌, ◌%◌, ◌^◌, ◌==◌,
  true, false, if◌then◌else◌, length, take, drop,
}
use hardware_wallet_benchmar.Bits.Pow.{shr_suc, mod_suc}
use hardware_wallet_benchmar.Field.E.{E, ◌⊞◌, ◌⊠◌, one_e}
use hardware_wallet_benchmar.Field.E.Laws.{
  IsElement, mul-one, one-mul, mul-IsElement, add-IsElement,
}
use hardware_wallet_benchmar.Field.E.Associative.{mul_assoc}
use hardware_wallet_benchmar.Transcript.Multilinear.{eq_bits, eq_bits_from}
use hardware_wallet_benchmar.Transcript.Rounds.{AllElements, no_more, more}
use hardware_wallet_benchmar.Transcript.Kernel.{one-IsElement, factor}

pub take-AllElements : (n : ℕ) (xs : List E) → AllElements xs → AllElements (take n xs)
take-AllElements zero xs h = no_more
take-AllElements (suc n) [] h = no_more
take-AllElements (suc n) (x ∷ xs) (more h hs) = more h (take-AllElements n xs hs)

pub drop-AllElements : (n : ℕ) (xs : List E) → AllElements xs → AllElements (drop n xs)
drop-AllElements zero xs h = h
drop-AllElements (suc n) [] h = no_more
drop-AllElements (suc n) (x ∷ xs) (more h hs) = drop-AllElements n xs hs

factor-IsElement : (q : ℕ) (x : E) → IsElement x → IsElement (factor q x)
factor-IsElement q x h = by_bit (q % 2 == 1)
  where
    by_bit : (b : Bool) → IsElement (if b then x else one_e ⊞ x)
    by_bit true = h
    by_bit false = add-IsElement one_e x one-IsElement h

eq_bits_from_low :
    (p : List E) (s : ℕ) (r : E) → eq_bits_from r (s % 2 ^ length p) p ≡ eq_bits_from r s p
unfolding eq_bits_from
eq_bits_from_low [] s r = refl
eq_bits_from_low (x ∷ p) s r =
    let k = length p in
    let even : s % 2 ^ suc k % 2 ≡ s % 2 = omega (arith, mod_suc k s) in
    let half : s % 2 ^ suc k / 2 ≡ s / 2 % 2 ^ k = omega (arith, mod_suc k s) in
    ap₂ (λ (b h : ℕ). eq_bits_from (r ⊠ (if b == 1 then x else one_e ⊞ x)) h p) even half
    ∙ eq_bits_from_low p (s / 2) (r ⊠ factor s x)

eq_bits_from-append :
    (p q : List E) (s : ℕ) (r : E)
    → eq_bits_from r s (p ++ q) ≡ eq_bits_from (eq_bits_from r s p) (s / 2 ^ length p) q
unfolding eq_bits_from
eq_bits_from-append [] q s r = let e : s ≡ s / 2 ^ 0 = omega arith in ap (λ n. eq_bits_from r n q) e
eq_bits_from-append (x ∷ p) q s r =
    eq_bits_from-append p q (s / 2) (r ⊠ factor s x)
    ∙ ap (λ n. eq_bits_from (eq_bits_from (r ⊠ factor s x) (s / 2) p) n q)
        (sym (shr_suc (length p) s))

eq_bits_from-IsElement : (p : List E) (s : ℕ) (r : E) → IsElement r → IsElement (eq_bits_from r s p)
unfolding eq_bits_from
eq_bits_from-IsElement [] s r h = h
eq_bits_from-IsElement (x ∷ p) s r h =
    eq_bits_from-IsElement p (s / 2) (r ⊠ factor s x) (mul-IsElement r (factor s x))

pub eq_bits-IsElement : (s : ℕ) (p : List E) → IsElement (eq_bits s p)
unfolding eq_bits
eq_bits-IsElement s p = eq_bits_from-IsElement p s one_e one-IsElement

eq_bits_from-mul :
    (p : List E) (s : ℕ) (r : E)
    → AllElements p
    → IsElement r
    → eq_bits_from r s p ≡ r ⊠ eq_bits s p
unfolding eq_bits eq_bits_from
eq_bits_from-mul [] s r no_more h = sym (mul-one r h)
eq_bits_from-mul (x ∷ p) s r (more hx hp) h =
    let f = factor s x in
    let hf = factor-IsElement s x hx in
    let rest = eq_bits (s / 2) p in
    eq_bits_from-mul p (s / 2) (r ⊠ f) hp (mul-IsElement r f)
    ∙ mul_assoc r f rest h hf (eq_bits-IsElement (s / 2) p)
    ∙ ap (λ t. r ⊠ t)
        (ap (λ t. t ⊠ rest) (sym (one-mul f hf))
          ∙ sym (eq_bits_from-mul p (s / 2) (one_e ⊠ f) hp (mul-IsElement one_e f)))

-- the selector's low bits meet the first part, its high bits the second
pub eq_bits-append :
    (p q : List E) (s : ℕ)
    → AllElements q
    → eq_bits (s % 2 ^ length p) p ⊠ eq_bits (s / 2 ^ length p) q ≡ eq_bits s (p ++ q)
unfolding eq_bits
eq_bits-append p q s h =
    ap (λ t. t ⊠ eq_bits (s / 2 ^ length p) q) (eq_bits_from_low p s one_e)
    ∙ sym (eq_bits_from-mul q (s / 2 ^ length p) (eq_bits s p) h (eq_bits-IsElement s p))
    ∙ sym (eq_bits_from-append p q s one_e)
