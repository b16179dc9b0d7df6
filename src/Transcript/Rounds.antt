-- ===== src/Transcript/Rounds.antt =====
-- What `round_poly` returns: a polynomial that meets the claim of its round.
use hardware_wallet_benchmar.Prelude.{
  ℕ, ◌≡◌, refl, arith, sym, ◌∙◌, ap, ap₂, List, [], ◌∷◌, Option, none, some, ◌-◌, subst,
}
use hardware_wallet_benchmar.Field.E.Laws.{
  IsElement, add-IsElement, add-zero, add_assoc, zero-add, mul-zero, mul-one, mul-IsElement,
  add_comm, add-mul, add_self, one-mul, add_cancel, mul-add,
}
use hardware_wallet_benchmar.Field.E.{E, one_e, ◌⊞◌, zero_e, ◌⊠◌}
use hardware_wallet_benchmar.Transcript.Ops.{sum_from, round_poly, next_scalar, next_scalars}
use hardware_wallet_benchmar.Transcript.Source.{Source}
use hardware_wallet_benchmar.Transcript.Multilinear.{poly_eval}
use hardware_wallet_benchmar.Transcript.Monad.{Transcript, bind-ok}
use hardware_wallet_benchmar.Error.{ok, ok-inj}

-- every coefficient is an element: what the type of a limb, `u64`, says in the source
pub data AllElements : List E → Type 0 where
  no_more : AllElements []
  more : {x : E} {xs : List E} → IsElement x → AllElements xs → AllElements (x ∷ xs)

pub zero-IsElement : IsElement zero_e
zero-IsElement = record { word0 = omega arith; word1 = omega arith; word2 = omega arith }

sum_from-add : (a : E) (xs : List E) → sum_from a xs ≡ a ⊞ sum_from zero_e xs
unfolding sum_from
sum_from-add a [] = sym (add-zero a)
sum_from-add a (x ∷ xs) =
    sum_from-add (a ⊞ x) xs
    ∙ add_assoc a x (sum_from zero_e xs)
    ∙ ap (λ t. a ⊞ t)
        (sym (sum_from-add (zero_e ⊞ x) xs ∙ ap (λ t. t ⊞ sum_from zero_e xs) (zero-add x)))

sum_from-cons : (x : E) (xs : List E) → sum_from zero_e (x ∷ xs) ≡ x ⊞ sum_from zero_e xs
unfolding sum_from
sum_from-cons x xs = sum_from-add (zero_e ⊞ x) xs ∙ ap (λ t. t ⊞ sum_from zero_e xs) (zero-add x)

poly_eval-zero : (c : E) (cs : List E) → poly_eval (c ∷ cs) zero_e ≡ c
unfolding poly_eval
poly_eval-zero c cs = ap (λ t. t ⊞ c) (mul-zero (poly_eval cs zero_e)) ∙ zero-add c

pub poly_eval-IsElement : (p : E) (cs : List E) → AllElements cs → IsElement (poly_eval cs p)
unfolding poly_eval
poly_eval-IsElement p [] no_more = zero-IsElement
poly_eval-IsElement p (c ∷ cs) (more h hs) = add-IsElement _ c (mul-IsElement (poly_eval cs p) p) h

-- At 1 a polynomial is the sum of its coefficients.
poly_eval-one : (cs : List E) → AllElements cs → poly_eval cs one_e ≡ sum_from zero_e cs
unfolding poly_eval sum_from
poly_eval-one [] no_more = refl
poly_eval-one (c ∷ cs) (more h hs) =
    ap (λ t. t ⊞ c) (mul-one _ (poly_eval-IsElement one_e cs hs) ∙ poly_eval-one cs hs)
    ∙ add_comm _ c
    ∙ sym (sum_from-cons c cs)

-- the message, and what the code derives of it: `q(0) + q(1)`, or the same by the equality factor
pub plain_meets :
    (claim c0 : E) (tail : List E)
    → AllElements (c0 ∷ (claim ⊞ sum_from zero_e tail) ∷ tail)
    → poly_eval (c0 ∷ (claim ⊞ sum_from zero_e tail) ∷ tail) zero_e
        ⊞ poly_eval (c0 ∷ (claim ⊞ sum_from zero_e tail) ∷ tail) one_e
      ≡ claim
plain_meets claim c0 tail h =
    let s = sum_from zero_e tail in
    ap₂ ◌⊞◌ (poly_eval-zero c0 _) (
      poly_eval-one _ h
      ∙ sum_from-cons c0 _
      ∙ ap (λ t. c0 ⊞ t)
          (sum_from-cons (claim ⊞ s) tail
            ∙ add_assoc claim s s
            ∙ ap (λ t. claim ⊞ t) (add_self s)
            ∙ add-zero claim))
    ∙ add_cancel c0 claim

-- and the linear coefficient is fixed by what it meets
pub linear_only :
    (claim c0 linear : E) (tail : List E)
    → AllElements (c0 ∷ linear ∷ tail)
    → poly_eval (c0 ∷ linear ∷ tail) zero_e ⊞ poly_eval (c0 ∷ linear ∷ tail) one_e ≡ claim
    → linear ≡ claim ⊞ sum_from zero_e tail
linear_only claim c0 linear tail h e =
    let s = sum_from zero_e tail in
    let total : linear ⊞ s ≡ claim =
      sym (add_cancel c0 (linear ⊞ s))
      ∙ ap (λ t. c0 ⊞ t)
          (ap (λ t. c0 ⊞ t) (sym (sum_from-cons linear tail))
            ∙ sym (sum_from-cons c0 (linear ∷ tail)))
      ∙ sym (ap₂ ◌⊞◌ (poly_eval-zero c0 (linear ∷ tail)) (poly_eval-one (c0 ∷ linear ∷ tail) h))
      ∙ e in
    sym (add-zero linear)
    ∙ ap (λ t. linear ⊞ t) (sym (add_self s))
    ∙ sym (add_assoc linear s s)
    ∙ ap (λ t. t ⊞ s) total

factored_meets :
    (claim r : E) (tail : List E)
    → AllElements ((claim ⊞ r ⊠ sum_from zero_e tail) ∷ tail)
    → (one_e ⊞ r) ⊠ poly_eval ((claim ⊞ r ⊠ sum_from zero_e tail) ∷ tail) zero_e
        ⊞ r ⊠ poly_eval ((claim ⊞ r ⊠ sum_from zero_e tail) ∷ tail) one_e
      ≡ claim
factored_meets claim r tail (more h hs) =
    let s = sum_from zero_e tail in
    let c0 = claim ⊞ r ⊠ s in
    ap₂ ◌⊞◌
      (ap (λ t. (one_e ⊞ r) ⊠ t) (poly_eval-zero c0 tail)
        ∙ add-mul one_e r c0
        ∙ ap (λ t. t ⊞ r ⊠ c0) (one-mul c0 h))
      (ap (λ t. r ⊠ t) (poly_eval-one _ (more h hs) ∙ sum_from-cons c0 tail) ∙ mul-add r c0 s)
    ∙ add_assoc c0 (r ⊠ c0) (r ⊠ c0 ⊞ r ⊠ s)
    ∙ ap (λ t. c0 ⊞ t) (add_cancel (r ⊠ c0) (r ⊠ s))
    ∙ add_assoc claim (r ⊠ s) (r ⊠ s)
    ∙ ap (λ t. claim ⊞ t) (add_self (r ⊠ s))
    ∙ add-zero claim

-- what a round's polynomial promises of its claim, by whether a factor is split off
unfoldable pub Meets : Option E → List E → E → Type 0
Meets none q claim = poly_eval q zero_e ⊞ poly_eval q one_e ≡ claim
Meets (some r) q claim = (one_e ⊞ r) ⊠ poly_eval q zero_e ⊞ r ⊠ poly_eval q one_e ≡ claim

module _ {S : Type 0} (src : Source S) where
  -- The polynomial that round_poly returns, if its coefficients are elements of three words,
  -- meets the round's claim: q(0) + q(1) is the claim, and with an equality factor at r, (1 + r)
  -- q(0) + r q(1) is.
  pub round_poly-Meets :
      (count : ℕ) (claim : E) (factor : Option E) (q : List E) (t t' : Transcript S)
      → round_poly src count claim factor t ≡ ok (q, t')
      → AllElements q
      → Meets factor q claim
  unfolding round_poly Meets
  round_poly-Meets count claim none q t t' e h =
      let (c0, t1, _, e1) = bind-ok (next_scalar src) _ t (q, t') e in
      let (tail, t2, _, e2) = bind-ok (next_scalars src (count - 2)) _ t1 (q, t') e1 in
      let p : (c0 ∷ (claim ⊞ sum_from zero_e tail) ∷ tail) ≡ q = ap (λ r. r.0) (ok-inj e2) in
      subst (λ l. Meets none l claim) p (plain_meets claim c0 tail (subst AllElements (sym p) h))
  round_poly-Meets count claim (some r) q t t' e h =
      let (tail, t1, _, e1) = bind-ok (next_scalars src (count - 1)) _ t (q, t') e in
      let p : ((claim ⊞ r ⊠ sum_from zero_e tail) ∷ tail) ≡ q = ap (λ r. r.0) (ok-inj e1) in
      subst (λ l. Meets (some r) l claim) p
        (factored_meets claim r tail (subst AllElements (sym p) h))
