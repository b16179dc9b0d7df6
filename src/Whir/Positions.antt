-- ===== src/Whir/Positions.antt =====
-- `open_rows`: the positions that a level opens are the queried ones, each once, in ascending order.
use native.Mathlib.Decide.{dec_lt}
use hardware_wallet_benchmar.Prelude.{
  ℕ, List, [], ◌∷◌, ◌≡◌, refl, sym, ap, ◌∙◌, arith, ◌≤◌, ◌+◌, Bool, false, ◌||◌, ◌==◌, inl, inr,
  ◌<◌, ◌⊎◌, subst,
}
use hardware_wallet_benchmar.Whir.Merkle.{partition_point, insert_position, insert_positions}

-- strictly ascending, from `bound` on
unfoldable pub Ascending : ℕ → List ℕ → Type 0
Ascending bound [] = Unit {0}
Ascending bound (p ∷ positions) = (bound ≤ p) × Ascending (p + 1) positions

unfoldable pub contains : ℕ → List ℕ → Bool
contains x [] = false
contains x (p ∷ positions) = (x == p) || contains x positions

pub compare_cases : (a b : ℕ) → (a < b) ⊎ (a ≡ b) ⊎ (b < a)
compare_cases a b = elim (dec_lt a b) [
  | yes p ↦ inl p
  | no p ↦ elim (dec_lt b a) [ yes q ↦ inr (inr q) | no q ↦ inr (inl (omega (arith, p, q))) ]
]

or_same : (a b : Bool) → (a || (a || b)) ≡ (a || b)
or_same a b = ground arith

or_swap : (a b c : Bool) → (a || (b || c)) ≡ (b || (a || c))
or_swap a b c = ground arith

or_assoc : (a b c : Bool) → (a || (b || c)) ≡ ((a || b) || c)
or_assoc a b c = ground arith

or_false : (a : Bool) → (a || false) ≡ a
or_false a = ground arith

-- a query below the first position
pub insert_below :
    (p : ℕ) (positions : List ℕ) (query : ℕ)
    → query < p
    → insert_position (p ∷ positions) query ≡ query ∷ p ∷ positions
unfolding insert_position partition_point
insert_below p positions query h = ground arith

-- at it
pub insert_at :
    (p : ℕ) (positions : List ℕ) (query : ℕ)
    → query ≡ p
    → insert_position (p ∷ positions) query ≡ p ∷ positions
unfolding insert_position partition_point
insert_at p positions query h = ground arith

-- and above it
pub insert_above :
    (p : ℕ) (positions : List ℕ) (query : ℕ)
    → p < query
    → insert_position (p ∷ positions) query ≡ p ∷ insert_position positions query
unfolding insert_position partition_point
insert_above p positions query h = ground arith

insert_position-Ascending :
    (bound : ℕ) (positions : List ℕ) (query : ℕ)
    → Ascending bound positions
    → bound ≤ query
    → Ascending bound (insert_position positions query)
unfolding Ascending insert_position partition_point
insert_position-Ascending bound [] query h low = (low, tt)
insert_position-Ascending bound (p ∷ positions) query (from, later) low =
    elim (compare_cases query p) [
      | inl below ↦
          subst (Ascending bound) (sym (insert_below p positions query below))
            (low, (omega (arith, below), later))
      | inr (inl same) ↦
          subst (Ascending bound) (sym (insert_at p positions query same)) (from, later)
      | inr (inr above) ↦
          subst (Ascending bound) (sym (insert_above p positions query above))
            (from, insert_position-Ascending (p + 1) positions query later (omega (arith, above)))
    ]

contains-insert_position :
    (x : ℕ) (positions : List ℕ) (query : ℕ)
    → contains x (insert_position positions query) ≡ ((x == query) || contains x positions)
unfolding contains insert_position partition_point
contains-insert_position x [] query = refl
contains-insert_position x (p ∷ positions) query = elim (compare_cases query p) [
  | inl below ↦ ap (contains x) (insert_below p positions query below)
  | inr (inl same) ↦
      ap (contains x) (insert_at p positions query same)
      ∙ sym (or_same (x == p) (contains x positions))
      ∙ ap (λ q. (x == q) || ((x == p) || contains x positions)) (sym same)
  | inr (inr above) ↦
      ap (contains x) (insert_above p positions query above)
      ∙ ap (λ c. (x == p) || c) (contains-insert_position x positions query)
      ∙ or_swap (x == p) (x == query) (contains x positions)
]

insert_all-Ascending :
    (positions queries : List ℕ)
    → Ascending 0 positions
    → Ascending 0 (insert_positions positions queries)
unfolding insert_positions
insert_all-Ascending positions [] h = h
insert_all-Ascending positions (query ∷ queries) h =
    insert_all-Ascending (insert_position positions query) queries
      (insert_position-Ascending 0 positions query h (omega arith))

contains-insert_all :
    (x : ℕ) (positions queries : List ℕ)
    → contains x (insert_positions positions queries) ≡ (contains x queries || contains x positions)
unfolding insert_positions contains
contains-insert_all x positions [] = refl
contains-insert_all x positions (query ∷ queries) =
    contains-insert_all x (insert_position positions query) queries
    ∙ ap (λ c. contains x queries || c) (contains-insert_position x positions query)
    ∙ or_swap (contains x queries) (x == query) (contains x positions)
    ∙ or_assoc (x == query) (contains x queries) (contains x positions)

-- The positions that an opening reads rows at are strictly ascending, and a number is among them
-- exactly when it is among the queries.
pub insert_positions-Ascending :
    (queries : List ℕ)
    → Ascending 0 (insert_positions [] queries)
      × ((x : ℕ) → contains x (insert_positions [] queries) ≡ contains x queries)
unfolding Ascending contains
insert_positions-Ascending queries = (
  insert_all-Ascending [] queries tt,
  λ x. contains-insert_all x [] queries ∙ or_false (contains x queries),
)
