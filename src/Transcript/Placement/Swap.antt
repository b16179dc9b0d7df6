-- ===== src/Transcript/Placement/Swap.antt =====
-- Exchanging two neighbours of a list, as the sort does it, and how often a number occurs.
use hardware_wallet_benchmar.Prelude.{
  ℕ, zero, suc, List, [], ◌∷◌, ◌≡◌, ◌≢◌, refl, sym, ap, ◌∙◌, arith, ◌+◌, ◌<◌, ◌==◌, if◌then◌else◌,
  length, set, length-set, get_or-set_self, get_or-set_ne, Bool, ==_iff, ==_apart, Bool-cases, inl,
  inr,
}
use hardware_wallet_benchmar.Transcript.Placement.{nat_at}

-- 1 where the numbers are the same
abbrev pub same : ℕ → ℕ → ℕ
same a b = if a == b then 1 else 0

pub same-eq : (a b : ℕ) → a ≡ b → same a b ≡ 1
same-eq a b e = ap (λ (c : Bool). if c then 1 else 0) ((==_iff a b).1 e)

pub same-ne : (a b : ℕ) → a ≢ b → same a b ≡ 0
same-ne a b n = ap (λ (c : Bool). if c then 1 else 0) (==_apart a b n)

unfoldable pub count : ℕ → List ℕ → ℕ
count x [] = 0
count x (y ∷ ys) = same x y + count x ys

count-set :
    (x : ℕ) (xs : List ℕ) (i v : ℕ)
    → i < length xs
    → count x (set xs i v) + same x (nat_at xs i) ≡ count x xs + same x v
unfolding count
count-set x [] i v h = absurd (omega arith)
count-set x (y ∷ ys) zero v h = omega arith
count-set x (y ∷ ys) (suc i) v h = omega (arith, count-set x ys i v (omega arith))

-- the exchange of positions `j` and `j + 1`
abbrev pub swap : List ℕ → ℕ → List ℕ
swap xs j = set (set xs j (nat_at xs (suc j))) (suc j) (nat_at xs j)

pub length-swap : (xs : List ℕ) (j : ℕ) → length (swap xs j) ≡ length xs
length-swap xs j = length-set (set xs j _) (suc j) _ ∙ length-set xs j _

pub count-swap :
    (x : ℕ) (xs : List ℕ) (j : ℕ) → suc j < length xs → count x (swap xs j) ≡ count x xs
count-swap x xs j h =
    let next : nat_at (set xs j (nat_at xs (suc j))) (suc j) ≡ nat_at xs (suc j) =
      get_or-set_ne xs j (suc j) (nat_at xs (suc j)) 0 (λ e. omega arith) in
    omega (
      arith,
      count-set x xs j (nat_at xs (suc j)) (omega arith),
      count-set x (set xs j (nat_at xs (suc j))) (suc j) (nat_at xs j)
          (omega (arith, length-set xs j (nat_at xs (suc j)))),
      ap (same x) next,
    )

pub swap_left : (xs : List ℕ) (j : ℕ) → suc j < length xs → nat_at (swap xs j) j ≡ nat_at xs (suc j)
swap_left xs j h =
    get_or-set_ne (set xs j (nat_at xs (suc j))) (suc j) j (nat_at xs j) 0 (λ e. omega arith)
    ∙ get_or-set_self xs j (nat_at xs (suc j)) 0 (omega arith)

pub swap_right :
    (xs : List ℕ) (j : ℕ) → suc j < length xs → nat_at (swap xs j) (suc j) ≡ nat_at xs j
swap_right xs j h =
    get_or-set_self (set xs j (nat_at xs (suc j))) (suc j) (nat_at xs j) 0
      (omega (arith, length-set xs j (nat_at xs (suc j))))

pub swap_other : (xs : List ℕ) (j a : ℕ) → j ≢ a → suc j ≢ a → nat_at (swap xs j) a ≡ nat_at xs a
swap_other xs j a h k =
    get_or-set_ne (set xs j (nat_at xs (suc j))) (suc j) a (nat_at xs j) 0 k
    ∙ get_or-set_ne xs j a (nat_at xs (suc j)) 0 h

-- what occurs has a place
pub place_of :
    (x : ℕ) (xs : List ℕ) → 0 < count x xs → (a : ℕ) × (a < length xs) × (nat_at xs a ≡ x)
unfolding count
place_of x [] h = absurd (omega arith)
place_of x (y ∷ ys) h = elim (Bool-cases (x == y)) [
  | inl here ↦ (0, omega arith, sym ((==_iff x y).0 here))
  | inr apart ↦
      let none_here : same x y ≡ 0 = ap (λ (c : Bool). if c then 1 else 0) apart in
      let (a, low, e) = place_of x ys (omega (arith, none_here)) in (suc a, omega (arith, low), e)
]

pub occurs : (xs : List ℕ) (a : ℕ) → a < length xs → 0 < count (nat_at xs a) xs
unfolding count
occurs [] a h = absurd (omega arith)
occurs (y ∷ ys) zero h = omega (arith, same-eq y y refl)
occurs (y ∷ ys) (suc a) h = omega (arith, occurs ys a (omega arith))

-- and what occurs once has one
pub one_place :
    (xs : List ℕ) (a b : ℕ)
    → a < b
    → b < length xs
    → count (nat_at xs a) xs ≡ 1
    → nat_at xs a ≢ nat_at xs b
unfolding count
one_place [] a b h k once e = absurd (omega arith)
one_place (y ∷ ys) a zero h k once e = absurd (omega arith)
one_place (y ∷ ys) zero (suc b) h k once e =
    omega (arith, same-eq y y refl, ap (λ x. count x ys) e, occurs ys b (omega arith))
one_place (y ∷ ys) (suc a) (suc b) h k once e =
    one_place ys a b (omega arith) (omega arith) (omega (arith, occurs ys a (omega arith))) e
