-- ===== src/Transcript/Doubled.antt =====
-- A round of `eq_kernel` of leanvm-pow/ledger/verifier/src/transcript.rs: its inner loop.
use native.Mathlib.Decide.{ℕ_discrete}
use hardware_wallet_benchmar.Prelude.{
  ℕ, zero, suc, List, ◌≡◌, ◌≢◌, refl, sym, ap, ◌∙◌, arith, ◌+◌, ◌<◌, ◌≤◌, length, set,
  get_or-set_self, get_or-set_ne, length-set, for_range, subst,
}
use hardware_wallet_benchmar.Field.E.{E, ◌⊞◌, ◌⊠◌, zero_e}
use hardware_wallet_benchmar.Transcript.Multilinear.{at, kernel_round}

-- what the inner loop has done, from `j` to `j + m`, to `out`
pub record Doubled (half j m : ℕ) (r : E) (out out' : List E) : Type 0 where
  pub long : length out' ≡ length out
  pub low : (c : ℕ) → j ≤ c → c < j + m → at out' c ≡ at out c ⊞ at out c ⊠ r
  pub high : (c : ℕ) → j ≤ c → c < j + m → at out' (c + half) ≡ at out c ⊠ r
  pub before : (c : ℕ) → c < j → at out' c ≡ at out c
  pub between : (c : ℕ) → j + m ≤ c → c < half + j → at out' c ≡ at out c
  pub after : (c : ℕ) → half + j + m ≤ c → at out' c ≡ at out c

-- one turn of it
unfoldable turn : ℕ → E → ℕ → List E → List E
turn half r i o =
    let high = at o i ⊠ r in let o' = set o (i + half) high in set o' i (at o' i ⊞ high)

turn-other :
    (half j c : ℕ) (r : E) (out : List E)
    → c ≢ j
    → c ≢ j + half
    → at (turn half r j out) c ≡ at out c
unfolding turn
turn-other half j c r out h h' =
    get_or-set_ne (set out (j + half) (at out j ⊠ r)) j c _ zero_e (λ e. h (sym e))
    ∙ get_or-set_ne out (j + half) c _ zero_e (λ e. h' (sym e))

turn-high :
    (half j : ℕ) (r : E) (out : List E)
    → 0 < half
    → j + half < length out
    → at (turn half r j out) (j + half) ≡ at out j ⊠ r
unfolding turn
turn-high half j r out some_half h =
    get_or-set_ne (set out (j + half) (at out j ⊠ r)) j (j + half) _ zero_e (λ e. omega (arith, e))
    ∙ get_or-set_self out (j + half) (at out j ⊠ r) zero_e h

turn-low :
    (half j : ℕ) (r : E) (out : List E)
    → 0 < half
    → j < length out
    → at (turn half r j out) j ≡ at out j ⊞ at out j ⊠ r
unfolding turn
turn-low half j r out some_half h =
    get_or-set_self (set out (j + half) (at out j ⊠ r)) j _ zero_e
      (omega (arith, length-set out (j + half) (at out j ⊠ r)))
    ∙ ap (λ x. x ⊞ at out j ⊠ r)
        (get_or-set_ne out (j + half) j (at out j ⊠ r) zero_e (λ e. omega (arith, e)))

length-turn : (half j : ℕ) (r : E) (out : List E) → length (turn half r j out) ≡ length out
unfolding turn
length-turn half j r out =
    length-set (set out (j + half) (at out j ⊠ r)) j _ ∙ length-set out (j + half) (at out j ⊠ r)

loop-Doubled :
    (m half j : ℕ) (r : E) (out : List E)
    → 0 < half
    → j + m ≤ half
    → half + half ≤ length out
    → Doubled half j m r out (for_range m j (turn half r) out)
unfolding for_range
loop-Doubled zero half j r out some_half h long = record {
  long = refl;
  low = λ c l u. absurd (omega arith);
  high = λ c l u. absurd (omega arith);
  before = λ c l. refl;
  between = λ c l u. refl;
  after = λ c l. refl;
}
loop-Doubled (suc m) half j r out some_half h long =
    let out1 = turn half r j out in
    let ih =
      loop-Doubled m half (j + 1) r out1 some_half (omega arith)
        (omega (arith, length-turn half j r out)) in
    let same : (c : ℕ) → c ≢ j → c ≢ j + half → at out1 c ≡ at out c =
      λ c p q. turn-other half j c r out p q in
    record {
      long = ih.long ∙ length-turn half j r out;
      low = λ c l u. elim (ℕ_discrete c j) [
        | yes e ↦
            ih.before c (omega (arith, e))
            ∙ subst (λ n. at out1 n ≡ at out n ⊞ at out n ⊠ r) (sym e)
                (turn-low half j r out some_half (omega arith))
        | no ne ↦
            ih.low c (omega (arith, ne)) (omega arith)
            ∙ ap (λ x. x ⊞ x ⊠ r) (same c ne (λ e. omega (arith, e)))
      ];
      high = λ c l u. elim (ℕ_discrete c j) [
        | yes e ↦
            ih.between (c + half) (omega (arith, e)) (omega (arith, e))
            ∙ subst (λ n. at out1 (n + half) ≡ at out n ⊠ r) (sym e)
                (turn-high half j r out some_half (omega arith))
        | no ne ↦
            ih.high c (omega (arith, ne)) (omega arith)
            ∙ ap (λ x. x ⊠ r) (same c ne (λ e. omega (arith, e)))
      ];
      before =
          λ c l. ih.before c (omega arith) ∙ same c (λ e. omega (arith, e)) (λ e. omega (arith, e));
      between = λ c l u.
          ih.between c (omega arith) (omega arith)
          ∙ same c (λ e. omega (arith, e)) (λ e. omega (arith, e));
      after =
          λ c l. ih.after c (omega arith) ∙ same c (λ e. omega (arith, e)) (λ e. omega (arith, e));
    }

pub kernel_round-Doubled :
    (half : ℕ) (r : E) (out : List E)
    → 0 < half
    → half + half ≤ length out
    → Doubled half 0 half r out (kernel_round half r out)
unfolding kernel_round turn
kernel_round-Doubled half r out some_half long =
    loop-Doubled half half 0 r out some_half (omega arith) long
