-- ===== src/Transcript/Placement/Disjoint.antt =====
-- `stack_offsets` lays the runs out side by side, each at a multiple of its own size.
use native.Mathlib.Nat.{pow-le-pow_right}
use native.Mathlib.Decide.{dec_lt}
use hardware_wallet_benchmar.Prelude.{
  ℕ, zero, suc, List, [], ◌∷◌, ◌≡◌, ◌≢◌, refl, sym, ap, ◌∙◌, arith, ◌+◌, ◌-◌, ◌*◌, ◌^◌, ◌<◌, ◌≤◌,
  ◌⊎◌, inl, inr, subst, length, set, length-set, get_or-set_self, get_or-set_ne,
}
use hardware_wallet_benchmar.Bits.Pow.{pow_pos, pow_add}
use hardware_wallet_benchmar.Transcript.Placement.{
  nat_at, place, sorted_order, stack_offsets, log2_ceil, order_places,
}
use hardware_wallet_benchmar.Transcript.Placement.Log.{log2_ceil_iff}
use hardware_wallet_benchmar.Transcript.Placement.Swap.{place_of, one_place, occurs}
use hardware_wallet_benchmar.Transcript.Placement.Sort.{size_at, sorted_order-Descending}

abbrev Multiple : ℕ → ℕ → Type 0
Multiple m n = (q : ℕ) × (n ≡ q * m)

-- where the runs of an order lie, from `total` to `end`: each at a multiple of its size, one after
-- the other
record Rows (sizes order offsets : List ℕ) (total end : ℕ) : Type 0 where
  pub grows : total ≤ end
  pub aligned :
      (a : ℕ)
      → a < length order
      → Multiple (2 ^ size_at sizes order a) (nat_at offsets (nat_at order a))
  pub above : (a : ℕ) → a < length order → total ≤ nat_at offsets (nat_at order a)
  pub below :
      (a : ℕ) → a < length order → nat_at offsets (nat_at order a) + 2 ^ size_at sizes order a ≤ end
  in_turn :
      (a b : ℕ)
      → a < b
      → b < length order
      → nat_at offsets (nat_at order a) + 2 ^ size_at sizes order a
        ≤ nat_at offsets (nat_at order b)

-- a power of two after a larger one
next-Multiple :
    (small large total : ℕ)
    → small ≤ large
    → Multiple (2 ^ small) total
    → Multiple (2 ^ small) (total + 2 ^ large)
next-Multiple small large total h (q, e) =
    let split : small + (large - small) ≡ large = omega arith in
    let power : 2 ^ large ≡ 2 ^ small * 2 ^ (large - small) =
      ap (λ (t : ℕ). 2 ^ t) (sym split) ∙ pow_add small (large - small) in
    (q + 2 ^ (large - small), grind (arith, e, power))

place-other :
    (sizes order offsets : List ℕ) (total i : ℕ)
    → ((a : ℕ) → a < length order → nat_at order a ≢ i)
    → nat_at (place sizes order offsets total).0 i ≡ nat_at offsets i
unfolding place
place-other sizes [] offsets total i h = refl
place-other sizes (index ∷ order) offsets total i h =
    place-other sizes order (set offsets index total) (total + 2 ^ nat_at sizes index) i
      (λ a short. h (suc a) (omega arith))
    ∙ get_or-set_ne offsets index i total 0 (h 0 (omega arith))

-- a run before the others
module _ (sizes : List ℕ) (index : ℕ) (order offsets : List ℕ) (total end : ℕ)
    (later : Rows sizes order offsets (total + 2 ^ nat_at sizes index) end)
    (here : nat_at offsets index ≡ total) where
  first_aligned :
      (a : ℕ)
      → a < suc (length order)
      → Multiple (2 ^ nat_at sizes index) total
      → Multiple (2 ^ size_at sizes (index ∷ order) a) (nat_at offsets (nat_at (index ∷ order) a))
  first_aligned zero h (q, e) = (q, here ∙ e)
  first_aligned (suc a) h m = later.aligned a (omega arith)

  first_above : (a : ℕ) → a < suc (length order) → total ≤ nat_at offsets (nat_at (index ∷ order) a)
  first_above zero h = omega (arith, here)
  first_above (suc a) h = omega (arith, later.above a (omega arith))

  first_below :
      (a : ℕ)
      → a < suc (length order)
      → nat_at offsets (nat_at (index ∷ order) a) + 2 ^ size_at sizes (index ∷ order) a ≤ end
  first_below zero h = omega (arith, here, later.grows)
  first_below (suc a) h = later.below a (omega arith)

  first_in_turn :
      (a b : ℕ)
      → a < b
      → b < suc (length order)
      → nat_at offsets (nat_at (index ∷ order) a) + 2 ^ size_at sizes (index ∷ order) a
        ≤ nat_at offsets (nat_at (index ∷ order) b)
  first_in_turn a zero before h = absurd (omega arith)
  first_in_turn zero (suc b) before h = omega (arith, here, later.above b (omega arith))
  first_in_turn (suc a) (suc b) before h = later.in_turn a b (omega arith) (omega arith)

  first_row : Multiple (2 ^ nat_at sizes index) total → Rows sizes (index ∷ order) offsets total end
  first_row m = record {
    grows = omega (arith, later.grows);
    aligned = λ a h. first_aligned a h m;
    above = first_above;
    below = first_below;
    in_turn = first_in_turn;
  }

place-Rows :
    (sizes order offsets : List ℕ) (total : ℕ)
    → ((a b : ℕ) → a < b → b < length order → nat_at order a ≢ nat_at order b)
    → ((a b : ℕ) → a < b → b < length order → size_at sizes order b ≤ size_at sizes order a)
    → ((a : ℕ) → a < length order → nat_at order a < length offsets)
    → ((a : ℕ) → a < length order → Multiple (2 ^ size_at sizes order a) total)
    → Rows sizes order (place sizes order offsets total).0 total (place sizes order offsets total).1
unfolding place
place-Rows sizes [] offsets total distinct descends within divides = record {
  grows = omega arith;
  aligned = λ a h. absurd (omega arith);
  above = λ a h. absurd (omega arith);
  below = λ a h. absurd (omega arith);
  in_turn = λ a b before h. absurd (omega arith);
}
place-Rows sizes (index ∷ order) offsets total distinct descends within divides =
    let offsets' = set offsets index total in
    let size = nat_at sizes index in
    let later =
      place-Rows sizes order offsets' (total + 2 ^ size)
        (λ a b before h. distinct (suc a) (suc b) (omega arith) (omega arith))
        (λ a b before h. descends (suc a) (suc b) (omega arith) (omega arith))
        (λ a h.
          let e = within (suc a) (omega arith) in omega (arith, e, length-set offsets index total))
        (λ a h.
          next-Multiple (size_at sizes order a) size total
            (descends 0 (suc a) (omega arith) (omega arith)) (divides (suc a) (omega arith))) in
    let here : nat_at (place sizes order offsets' (total + 2 ^ size)).0 index ≡ total =
      place-other sizes order offsets' (total + 2 ^ size) index
        (λ a h e. distinct 0 (suc a) (omega arith) (omega arith) (sym e))
      ∙ get_or-set_self offsets index total 0 (within 0 (omega arith)) in
    first_row sizes index order _ total _ later here (divides 0 (omega arith))

-- the runs of `sizes` in a stack of `2^log` words
pub record Stacked (sizes offsets : List ℕ) (log : ℕ) : Type 0 where
  pub aligned : (i : ℕ) → i < length sizes → Multiple (2 ^ nat_at sizes i) (nat_at offsets i)
  pub inside : (i : ℕ) → i < length sizes → nat_at offsets i + 2 ^ nat_at sizes i ≤ 2 ^ log
  pub apart :
      (i j : ℕ)
      → i < length sizes
      → j < length sizes
      → i ≢ j
      → (nat_at offsets i + 2 ^ nat_at sizes i ≤ nat_at offsets j)
        ⊎ (nat_at offsets j + 2 ^ nat_at sizes j ≤ nat_at offsets i)

-- the words of a list of runs, each of `2^cap` at most
place-le :
    (sizes order offsets : List ℕ) (total cap : ℕ)
    → ((a : ℕ) → a < length order → size_at sizes order a ≤ cap)
    → (place sizes order offsets total).1 ≤ total + length order * 2 ^ cap
unfolding place
place-le sizes [] offsets total cap h = omega arith
place-le sizes (index ∷ order) offsets total cap h =
    let two : 0 < 2 = omega arith in
    let first = pow-le-pow_right two (h 0 (omega arith)) in
    let rest =
      place-le sizes order (set offsets index total) (total + 2 ^ nat_at sizes index) cap
        (λ a short. h (suc a) (omega arith)) in
    let count : suc (length order) * 2 ^ cap ≡ length order * 2 ^ cap + 2 ^ cap = grind arith in
    omega (arith, first, rest, count)

positions-apart :
    (sizes order offsets : List ℕ) (end a b i j : ℕ)
    → Rows sizes order offsets 0 end
    → a < length order
    → b < length order
    → nat_at order a ≡ i
    → nat_at order b ≡ j
    → i ≢ j
    → (nat_at offsets i + 2 ^ nat_at sizes i ≤ nat_at offsets j)
      ⊎ (nat_at offsets j + 2 ^ nat_at sizes j ≤ nat_at offsets i)
positions-apart sizes order offsets end a b i j rows ha hb ea eb differ =
    let off = λ (e : ℕ). nat_at offsets e in
    let reach = λ (e : ℕ). off e + 2 ^ nat_at sizes e in
    elim (dec_lt a b) [
      | yes before ↦ inl (omega (arith, rows.in_turn a b before hb, ap reach ea, ap off eb))
      | no after ↦ elim (dec_lt b a) [
        | yes before ↦ inr (omega (arith, rows.in_turn b a before ha, ap reach eb, ap off ea))
        | no after' ↦
            let same : a ≡ b = omega arith in absurd (differ (sym ea ∙ ap (nat_at order) same ∙ eb))
      ]
    ]

-- For at most 256 runs of at most 2^55 words each, stack_offsets lays each run at a multiple of its
-- size, within the 2^log words that it returns the logarithm of, and no two runs overlap.
pub stack_offsets-Stacked :
    (sizes offsets : List ℕ)
    → length offsets ≡ length sizes
    → length sizes ≤ order_places
    → ((i : ℕ) → i < length sizes → nat_at sizes i ≤ 55)
    → Stacked sizes (stack_offsets sizes offsets).0 (stack_offsets sizes offsets).1
unfolding stack_offsets
stack_offsets-Stacked sizes offsets same few small =
    let order = sorted_order sizes in
    let (long, once, never, descends) = sorted_order-Descending sizes few in
    let spot = λ (i : ℕ) (h : i < length sizes). place_of i order (omega (arith, once i h)) in
    let within : (a : ℕ) → a < length order → nat_at order a < length sizes = λ a h.
      elim (dec_lt (nat_at order a) (length sizes)) [
        | yes low ↦ low
        | no high ↦
            absurd (omega (arith, never (nat_at order a) (omega (arith, high)), occurs order a h))
      ] in
    let rows =
      place-Rows sizes order offsets 0
        (λ a b before h.
          one_place order a b before h (once (nat_at order a) (within a (omega arith))))
        (λ a b before h. descends a b before (omega (arith, long)))
        (λ a h. omega (arith, within a h, same)) (λ a h. (0, omega arith)) in
    let end = (place sizes order offsets 0).1 in
    let total = place-le sizes order offsets 0 55 (λ a h. small (nat_at order a) (within a h)) in
    let bounded : end < 2 ^ 64 = omega (arith, total, long) in
    record {
      aligned = λ i h.
          let (a, low, e) = spot i h in
          subst (λ j. Multiple (2 ^ nat_at sizes j) (nat_at (place sizes order offsets 0).0 j)) e
            (rows.aligned a low);
      inside = λ i h.
          let (a, low, e) = spot i h in
          let last =
            subst (λ j. nat_at (place sizes order offsets 0).0 j + 2 ^ nat_at sizes j ≤ end) e
              (rows.below a low) in
          let some_words : 1 ≤ end = omega (arith, last, pow_pos (nat_at sizes i)) in
          let fits : end ≤ 2 ^ log2_ceil end =
            (log2_ceil_iff end (log2_ceil end) some_words bounded).1 (omega arith) in
          omega (arith, last, fits);
      apart = λ i j hi hj differ.
          let (a, low, e) = spot i hi in
          let (b, low', e') = spot j hj in
          positions-apart sizes order _ end a b i j rows low low' e e' differ;
    }
