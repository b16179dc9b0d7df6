-- ===== src/Transcript/Placement/Sort.antt =====
-- `sorted_order` holds every run once, and no run stands before a larger one.
use native.Mathlib.Decide.{ℕ_discrete}
use hardware_wallet_benchmar.Prelude.{
  ℕ, zero, suc, List, [], ◌∷◌, ◌≡◌, ◌≢◌, refl, sym, ap, ◌∙◌, arith, ◌+◌, ◌-◌, ◌<◌, ◌≤◌, ltb, ltb→lt,
  Bool, false, Bool-cases, inl, inr, if◌then◌else◌, length, set, for_range, replicate,
  length-replicate, length-set, get_or-set_self, get_or-set_ne, subst, take, length-take,
}
use hardware_wallet_benchmar.Transcript.Placement.{nat_at, sift, sorted_order, order_places}
use hardware_wallet_benchmar.Transcript.Placement.Swap.{
  count, swap, length-swap, count-swap, swap_left, swap_right, swap_other, same-eq, same-ne,
}

ltb→ge : (a b : ℕ) → ltb a b ≡ false → b ≤ a
ltb→ge a b h = ground arith

-- the size at place `a` of the order
abbrev pub size_at : List ℕ → List ℕ → ℕ → ℕ
size_at sizes order a = nat_at sizes (nat_at order a)

-- sorted up to place `i`, but for what stands at `p` against the places before it
Sorting : List ℕ → ℕ → ℕ → List ℕ → Type 0
Sorting sizes i p order =
    (a b : ℕ) → a < b → b ≤ i → b ≢ p → size_at sizes order b ≤ size_at sizes order a

pub Descending : List ℕ → ℕ → List ℕ → Type 0
Descending sizes i order = (a b : ℕ) → a < b → b ≤ i → size_at sizes order b ≤ size_at sizes order a

-- what a sort keeps
pub record Rearranged (order order' : List ℕ) : Type 0 where
  pub long : length order' ≡ length order
  pub counts : (x : ℕ) → count x order' ≡ count x order

-- the exchange, on the sizes alone
exchange :
    (f g : ℕ → ℕ) (i j : ℕ)
    → suc j ≤ i
    → f j < f (suc j)
    → g j ≡ f (suc j)
    → g (suc j) ≡ f j
    → ((k : ℕ) → j ≢ k → suc j ≢ k → g k ≡ f k)
    → ((a b : ℕ) → a < b → b ≤ i → b ≢ suc j → f b ≤ f a)
    → (a b : ℕ) → a < b
    → b ≤ i
    → b ≢ j
    → g b ≤ g a
exchange f g i j hi larger left right rest sorted a b before within other =
    elim (ℕ_discrete b (suc j)) [
      | yes eb ↦
          let gb = ap g eb ∙ right in
          elim (ℕ_discrete a j) [
            | yes ea ↦ omega (arith, gb, ap g ea ∙ left, larger)
            | no na ↦ omega (
              arith,
              gb,
              rest a (λ e. na (sym e)) (λ e. omega (arith, e, eb)),
              sorted a j (omega (arith, eb, na)) (omega arith) (λ e. omega arith),
            )
          ]
      | no nb ↦
          let gb = rest b (λ e. other (sym e)) (λ e. nb (sym e)) in
          elim (ℕ_discrete a j) [
            | yes ea ↦
                omega
                  (arith, gb, ap g ea ∙ left, sorted (suc j) b (omega (arith, ea, nb)) within nb)
            | no na ↦ elim (ℕ_discrete a (suc j)) [
              | yes ea ↦
                  omega (arith, gb, ap g ea ∙ right, sorted j b (omega (arith, ea)) within nb)
              | no na' ↦ omega (
                arith,
                gb,
                rest a (λ e. na (sym e)) (λ e. na' (sym e)),
                sorted a b before within nb,
              )
            ]
          ]
    ]

swap-Sorting :
    (sizes : List ℕ) (i j : ℕ) (order : List ℕ)
    → suc j ≤ i
    → suc j < length order
    → size_at sizes order j < size_at sizes order (suc j)
    → Sorting sizes i (suc j) order
    → Sorting sizes i j (swap order j)
unfolding Sorting
swap-Sorting sizes i j order hi short larger sorted =
    exchange (size_at sizes order) (size_at sizes (swap order j)) i j hi larger
      (ap (nat_at sizes) (swap_left order j short)) (ap (nat_at sizes) (swap_right order j short))
      (λ k h h'. ap (nat_at sizes) (swap_other order j k h h')) sorted

-- sorting ends where the place before is no smaller
settled :
    (f : ℕ → ℕ) (i j : ℕ)
    → f (suc j) ≤ f j
    → ((a b : ℕ) → a < b → b ≤ i → b ≢ suc j → f b ≤ f a)
    → suc j ≤ i
    → (a b : ℕ) → a < b
    → b ≤ i
    → f b ≤ f a
settled f i j low sorted hi a b before within = elim (ℕ_discrete b (suc j)) [
  | no nb ↦ sorted a b before within nb
  | yes eb ↦ elim (ℕ_discrete a j) [
    | yes ea ↦ omega (arith, ap f eb, ap f ea, low)
    | no na ↦
        omega
          (arith, ap f eb, low, sorted a j (omega (arith, eb, na)) (omega arith) (λ e. omega arith))
  ]
]

Rearranged-refl : (order : List ℕ) → Rearranged order order
Rearranged-refl order = record { long = refl; counts = λ x. refl }

Rearranged-trans : (xs ys zs : List ℕ) → Rearranged xs ys → Rearranged ys zs → Rearranged xs zs
Rearranged-trans xs ys zs h k = record {
  long = k.long ∙ h.long;
  counts = λ x. k.counts x ∙ h.counts x;
}

sift-Descending :
    (sizes : List ℕ) (i p : ℕ) (order : List ℕ)
    → p ≤ i
    → i < length order
    → Sorting sizes i p order
    → Descending sizes i (sift sizes p order) × Rearranged order (sift sizes p order)
unfolding sift Sorting Descending
sift-Descending sizes i zero order hi short sorted =
    ((λ a b before within. sorted a b before within (λ e. omega arith)), Rearranged-refl order)
sift-Descending sizes i (suc j) order hi short sorted =
    let test = ltb (size_at sizes order j) (size_at sizes order (suc j)) in
    let swapped = sift sizes j (swap order j) in
    let run = λ (c : Bool). if c then swapped else order in
    let Goal : List ℕ → Type 0 = λ o. Descending sizes i o × Rearranged order o in
    elim (Bool-cases test) [
      | inl larger ↦
          let (sorted', moved) =
            sift-Descending sizes i j (swap order j) (omega arith)
              (omega (arith, length-swap order j))
              (swap-Sorting sizes i j order hi (omega arith)
                (ltb→lt (size_at sizes order j) (size_at sizes order (suc j)) larger) sorted) in
          let exchanged : Rearranged order (swap order j) = record {
            long = length-swap order j;
            counts = λ x. count-swap x order j (omega arith);
          } in
          subst Goal (sym (ap run larger))
            (sorted', Rearranged-trans order (swap order j) swapped exchanged moved)
      | inr not_larger ↦ subst Goal (sym (ap run not_larger)) (
        settled (size_at sizes order) i j
            (ltb→ge (size_at sizes order j) (size_at sizes order (suc j)) not_larger) sorted hi,
        Rearranged-refl order,
      )
    ]

sort_loop :
    (sizes : List ℕ) (m k : ℕ) (order : List ℕ)
    → suc k + m ≤ length order
    → Descending sizes k order
    → Descending sizes (k + m) (for_range m (suc k) (λ i o. sift sizes i o) order)
      × Rearranged order (for_range m (suc k) (λ i o. sift sizes i o) order)
unfolding for_range Sorting Descending
sort_loop sizes zero k order fits sorted =
    ((λ a b before within. sorted a b before (omega arith)), Rearranged-refl order)
sort_loop sizes (suc m) k order fits sorted =
    let order' = sift sizes (suc k) order in
    let (sorted', moved) =
      sift-Descending sizes (suc k) (suc k) order (omega arith) (omega arith)
        (λ a b before within other. sorted a b before (omega arith)) in
    let next : suc k + 1 ≡ suc (suc k) = omega arith in
    let (all, moved') = sort_loop sizes m (suc k) order' (omega (arith, moved.long)) sorted' in
    subst
      (λ n.
        Descending sizes (k + suc m) (for_range m n (λ i o. sift sizes i o) order')
        × Rearranged order (for_range m n (λ i o. sift sizes i o) order'))
      (sym next)
      (
        (λ a b before within. all a b before (omega arith)),
        Rearranged-trans order order' _ moved moved',
      )

-- the initial order: every place holds itself
start_loop :
    (m k : ℕ) (order : List ℕ)
    → k + m ≤ length order
    → ((a : ℕ) → a < k → nat_at order a ≡ a)
    → (length (for_range m k (λ i o. set o i i) order) ≡ length order)
      × ((a : ℕ) → a < k + m → nat_at (for_range m k (λ i o. set o i i) order) a ≡ a)
unfolding for_range
start_loop zero k order fits done = (refl, λ a h. done a (omega arith))
start_loop (suc m) k order fits done =
    let order' = set order k k in
    let long : length order' ≡ length order = length-set order k k in
    let done' : (a : ℕ) → a < k + 1 → nat_at order' a ≡ a = λ a h. elim (ℕ_discrete k a) [
      | yes e ↦ ap (nat_at order') (sym e) ∙ get_or-set_self order k k 0 (omega arith) ∙ e
      | no n ↦ get_or-set_ne order k a k 0 n ∙ done a (omega (arith, n))
    ] in
    let (long', all) = start_loop m (k + 1) order' (omega (arith, long)) done' in
    (long' ∙ long, λ a h. all a (omega arith))

-- how often a number occurs among `k`, `k + 1`, ...
run_counts :
    (xs : List ℕ) (k x : ℕ)
    → ((a : ℕ) → a < length xs → nat_at xs a ≡ k + a)
    → (k ≤ x → x < k + length xs → count x xs ≡ 1)
      × (x < k → count x xs ≡ 0)
      × (k + length xs ≤ x → count x xs ≡ 0)
unfolding count
run_counts [] k x h = ((λ low high. absurd (omega arith)), (λ below. refl), λ above. refl)
run_counts (y ∷ ys) k x h =
    let first : y ≡ k + 0 = h 0 (omega arith) in
    let (inside, below, above) =
      run_counts ys (suc k) x (λ a short. let e = h (suc a) (omega arith) in omega (arith, e)) in
    (
      λ low high. elim (ℕ_discrete x y) [
        | yes e ↦ omega (arith, same-eq x y e, below (omega (arith, e, first)))
        | no n ↦ omega (arith, same-ne x y n, inside (omega (arith, n, first)) (omega arith))
      ],
      (λ less. omega (arith, same-ne x y (λ e. omega (arith, e, first)), below (omega arith))),
      λ more. omega (arith, same-ne x y (λ e. omega (arith, e, first)), above (omega arith)),
    )

-- each run has one place in the order, and the sizes descend
pub sorted_order-Descending :
    (sizes : List ℕ)
    → length sizes ≤ order_places
    → (length (sorted_order sizes) ≡ length sizes)
      × ((x : ℕ) → x < length sizes → count x (sorted_order sizes) ≡ 1)
      × ((x : ℕ) → length sizes ≤ x → count x (sorted_order sizes) ≡ 0)
      × ((a b : ℕ)
          → a < b
          → b < length sizes
          → size_at sizes (sorted_order sizes) b ≤ size_at sizes (sorted_order sizes) a)
unfolding sorted_order Descending count
sorted_order-Descending [] few =
    (refl, (λ x h. absurd (omega arith)), (λ x h. refl), λ a b before h. absurd (omega arith))
sorted_order-Descending (s ∷ rest) few =
    let sizes : List ℕ = s ∷ rest in
    let n = length sizes in
    let blank : List ℕ = take n (replicate order_places 0) in
    let blank_length : length blank ≡ n = omega (
      arith,
      length-take n (replicate {A = ℕ} order_places 0),
      length-replicate {A = ℕ} order_places 0,
      few,
    ) in
    let fits : 0 + n ≤ length blank = omega (arith, blank_length) in
    let (long, itself) = start_loop n 0 blank fits (λ a h. absurd (omega arith)) in
    let first : List ℕ = for_range n 0 (λ i o. set o i i) blank in
    let whole : length first ≡ n = long ∙ blank_length in
    let (sorted, moved) =
      sort_loop sizes (n - 1) 0 first (omega (arith, whole))
        (λ a b before h. absurd (omega arith)) in
    let counts = λ (x : ℕ).
      run_counts first 0 x
        (λ a short. let e = itself a (omega (arith, whole)) in omega (arith, e)) in
    (
      moved.long ∙ whole,
      (λ x h. moved.counts x ∙ (counts x).0 (omega arith) (omega (arith, whole))),
      (λ x h. moved.counts x ∙ (counts x).2 (omega (arith, whole))),
      λ a b before h. sorted a b before (omega arith),
    )
