-- ===== src/Pow/Correct.antt =====
-- What the search finds, and the shape of the advice.
use hardware_wallet_benchmar.Prelude.{
  ℕ, zero, suc, ◌≡◌, ◌↔◌, refl, sym, ap, ◌∙◌, arith, ◌<◌, ◌≤◌, ◌+◌, ◌/◌, ◌%◌, ◌^◌, Bool, true,
  false, Option, some, none, if◌then◌else◌, length, min, ltb, ◌==◌, ◌&&◌, Bool-cases, inl, inr,
  List, ◌∷◌,
}
use hardware_wallet_benchmar.Pow.{
  find_from, find_smallest, is_hit, advice, advice_loop, block, slow_entry,
}
use hardware_wallet_benchmar.Hash.Digest.RoundTrip.{AllBytes}
use hardware_wallet_benchmar.Pow.Leading.{StartsWithZeros, abi_encode, is_hit-StartsWithZeros}
use native.Mathlib.Decide.{dec_lt}
use hardware_wallet_benchmar.Field.E.{E}

-- `i` is the first of `n` numbers from `j` on that `hit` holds of
abbrev FirstHit : (ℕ → Bool) → ℕ → ℕ → ℕ → Type 0
FirstHit hit n j i =
    (j ≤ i) × (i < j + n) × (hit i ≡ true) × ((k : ℕ) → j ≤ k → k < i → hit k ≡ false)

-- `i` is the smallest number, below `2^24`, whose hash starts with the zero bits
unfoldable pub IsSmallest : (List ℕ → List ℕ) → ℕ → ℕ → Type 0
IsSmallest keccak256 difficulty i =
    (i < 2 ^ 24)
    × StartsWithZeros (keccak256 (abi_encode i)) difficulty
    × ((k : ℕ) → k < i → ¬ StartsWithZeros (keccak256 (abi_encode k)) difficulty)

some_inj : {a b : ℕ} → Option.some a ≡ some b → a ≡ b
some_inj {a = a} p = ap (λ o. elim o [ some x ↦ x | none ↦ a ]) p

found : (hit : ℕ → Bool) (n j i : ℕ) → find_from hit n j ≡ some i → FirstHit hit n j i
unfolding find_from
found hit zero j i e = absurd (cc)
found hit (suc n) j i e = elim (Bool-cases (hit j)) [
  | inl yes_hit ↦
      let here =
        some_inj (ap (λ b. if b then some j else find_from hit n (j + 1)) (sym yes_hit) ∙ e) in
      (
        omega (arith, here),
        omega (arith, here),
        ap hit (sym here) ∙ yes_hit,
        λ k from below. absurd (omega (arith, here, from, below)),
      )
  | inr no_hit ↦
      let later = ap (λ b. if b then some j else find_from hit n (j + 1)) (sym no_hit) ∙ e in
      let (from, to, hits, first) = found hit n (j + 1) i later in
      (
        omega (arith, from),
        omega (arith, to),
        hits,
        λ k from' below. elim (dec_lt j k) [
          | yes p ↦ first k (omega (arith, p)) below
          | no p ↦ let same : k ≡ j = omega (arith, p, from') in ap hit same ∙ no_hit
        ],
      )
]

finds : (hit : ℕ → Bool) (n j i : ℕ) → FirstHit hit n j i → find_from hit n j ≡ some i
unfolding find_from
finds hit zero j i (from, to, hits, first) = absurd (omega (arith, from, to))
finds hit (suc n) j i (from, to, hits, first) = elim (dec_lt j i) [
  | yes p ↦
      ap (λ b. if b then some j else find_from hit n (j + 1)) (first j (omega arith) p)
      ∙ finds hit n (j + 1) i (
        omega (arith, p),
        omega (arith, to),
        hits,
        λ k from' below. first k (omega (arith, from')) below,
      )
  | no p ↦
      let same : j ≡ i = omega (arith, p, from) in
      ap (λ b. if b then some j else find_from hit n (j + 1)) (ap hit same ∙ hits) ∙ ap some same
]

count_step :
    (j full rest : ℕ)
    → (if (j % 16 == 0) && ltb (j / 16) full then rest + 1 else rest) + min ((j + 15) / 16) full
      ≡ rest + min ((j + 1 + 15) / 16) full
count_step j full rest = ground arith

length-if :
    {A : Type 0} (b : Bool) (x : A) (xs : List A)
    → length (if b then x ∷ xs else xs) ≡ (if b then length xs + 1 else length xs)
length-if true x xs = omega arith
length-if false x xs = refl

module _ (keccak256 : List ℕ → List ℕ) where
  find_smallest-FirstHit :
      (difficulty i : ℕ)
      → (find_smallest keccak256 difficulty ≡ some i)
        ↔ FirstHit (is_hit keccak256 difficulty) (2 ^ 24) 0 i
  unfolding find_smallest
  find_smallest-FirstHit difficulty i = (
    found (is_hit keccak256 difficulty) (2 ^ 24) 0 i,
    finds (is_hit keccak256 difficulty) (2 ^ 24) 0 i,
  )

  -- For a hash that gives bytes and a difficulty of at most 64, find_smallest returns i exactly where
  -- i is below 2^24, the hash of i as 32 bytes, highest first, starts with as many zero bits as the
  -- difficulty, and that of no smaller number does.
  pub find_smallest-IsSmallest :
      (difficulty i : ℕ)
      → ((message : List ℕ) → AllBytes (keccak256 message))
      → difficulty ≤ 64
      → (find_smallest keccak256 difficulty ≡ some i) ↔ IsSmallest keccak256 difficulty i
  unfolding IsSmallest
  find_smallest-IsSmallest difficulty i bytes small =
      let first = find_smallest-FirstHit difficulty i in
      let hit =
        λ (j : ℕ) (h : j < 2 ^ 64). is_hit-StartsWithZeros keccak256 difficulty j bytes small h in
      (
        λ e.
            let (from, to, hits, none_before) = first.0 e in
            (
              omega (arith, to),
              (hit i (omega (arith, to))).0 hits,
              λ k below zeros.
                  let hits' = (hit k (omega (arith, to, below))).1 zeros in
                  let misses = none_before k (omega arith) below in cc,
            ),
        λ (low, zeros, none_before). first.1 (
          omega arith,
          omega (arith, low),
          (hit i (omega (arith, low))).1 zeros,
          λ k from below. elim (Bool-cases (is_hit keccak256 difficulty k)) [
            | inl hits ↦ absurd (none_before k below ((hit k (omega (arith, low, below))).0 hits))
            | inr misses ↦ misses
          ],
        ),
      )

  module _ (g_pow : ℕ → E) where
    loop-length :
        (full n j : ℕ)
        → (length (advice_loop keccak256 g_pow full n j).0 ≡ n)
          × (length (advice_loop keccak256 g_pow full n j).1 + min ((j + 15) / 16) full
              ≡ min ((j + n + 15) / 16) full)
    unfolding advice_loop
    loop-length full zero j = (refl, omega arith)
    loop-length full (suc n) j =
        let (w, slow) = advice_loop keccak256 g_pow full n (j + 1) in
        let (ws, slows) = loop-length full n (j + 1) in
        let test = (j % block == 0) && ltb (j / block) full in
        let moved : (j + suc n + 15) / 16 ≡ (j + 1 + n + 15) / 16 =
          ap (λ k. k / 16) (omega arith) in
        (
          omega (arith, ws),
          ap (λ k. k + min ((j + 15) / 16) full)
                (length-if test (slow_entry keccak256 g_pow j) slow)
              ∙ count_step j full (length slow)
              ∙ slows
              ∙ ap (λ k. min k full) (sym moved),
        )

    -- For any hash and any table of addresses, the advice for i has i + 1 digest entries and one
    -- slow-path entry for each of the i / 16 full blocks.
    pub advice-length :
        (i : ℕ)
        → (length (advice keccak256 g_pow i).0 ≡ i + 1)
          × (length (advice keccak256 g_pow i).1 ≡ i / 16)
    unfolding advice
    advice-length i =
        let (w, slow) = loop-length (i / 16) (i + 1) 0 in
        let start : (0 + 15) / 16 ≡ 0 = refl in
        let end : i / 16 ≤ (0 + (i + 1) + 15) / 16 = omega arith in
        (w, omega (arith, slow, start, end))
