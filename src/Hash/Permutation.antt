-- ===== src/Hash/Permutation.antt =====
-- `keccak_f_const`: the permutation on 25 lanes, lane `x + 5 y` at that index.
use hardware_wallet_benchmar.Prelude.{
  ℕ, ◌+◌, ◌-◌, ◌*◌, ◌/◌, ◌%◌, ◌^◌, List, [], ◌∷◌, set, bit_or, get_or, for_range, replicate, u64,
  bit_and, ◌<<<◌, ◌>>>◌,
}
use hardware_wallet_benchmar.Bits.Xor.{◌⊕◌}

abbrev pub state_lanes : ℕ
state_lanes = 25

abbrev pub rate : ℕ
rate = 136

abbrev pub rounds : ℕ
rounds = 24

abbrev pub keccak_rc : List ℕ
keccak_rc =
    0x0000000000000001 ∷ 0x0000000000008082 ∷ 0x800000000000808A ∷ 0x8000000080008000
    ∷ 0x000000000000808B ∷ 0x0000000080000001 ∷ 0x8000000080008081 ∷ 0x8000000000008009
    ∷ 0x000000000000008A ∷ 0x0000000000000088 ∷ 0x0000000080008009 ∷ 0x000000008000000A
    ∷ 0x000000008000808B ∷ 0x800000000000008B ∷ 0x8000000000008089 ∷ 0x8000000000008003
    ∷ 0x8000000000008002 ∷ 0x8000000000000080 ∷ 0x000000000000800A ∷ 0x800000008000000A
    ∷ 0x8000000080008081 ∷ 0x8000000000008080 ∷ 0x0000000080000001 ∷ 0x8000000080008008 ∷ []

abbrev pub keccak_rho : List ℕ
keccak_rho =
    0 ∷ 1 ∷ 62 ∷ 28 ∷ 27 ∷ 36 ∷ 44 ∷ 6 ∷ 55 ∷ 20 ∷ 3 ∷ 10 ∷ 43 ∷ 25 ∷ 39 ∷ 41 ∷ 45 ∷ 15 ∷ 21 ∷ 8
    ∷ 18 ∷ 2 ∷ 61 ∷ 56 ∷ 14 ∷ []

-- where lane `i` lands
unfoldable pub keccak_pi : ℕ → ℕ
keccak_pi i = i / 5 + 5 * ((2 * (i % 5) + 3 * (i / 5)) % 5)

abbrev pub lane : List ℕ → ℕ → ℕ
lane a i = get_or a i 0

-- `u64::rotate_left`, by less than 64
unfoldable pub rotate_left : ℕ → ℕ → ℕ
rotate_left x n = bit_or (u64 (x <<< n)) (x >>> (64 - n))

-- `!x`
abbrev pub complement : ℕ → ℕ
complement x = x ⊕ (2 ^ 64 - 1)

abbrev pub zero_lanes : List ℕ
zero_lanes = replicate 25 0

unfoldable pub theta : List ℕ → List ℕ
unfolding for_range rotate_left
theta a =
    let c =
      for_range 5 0
        (λ x c.
          set c x (lane a x ⊕ lane a (x + 5) ⊕ lane a (x + 10) ⊕ lane a (x + 15) ⊕ lane a (x + 20)))
        (replicate 5 0) in
    for_range 5 0
      (λ x a'.
        let d = lane c ((x + 4) % 5) ⊕ rotate_left (lane c ((x + 1) % 5)) 1 in
        for_range 5 0 (λ y a''. set a'' (x + 5 * y) (lane a'' (x + 5 * y) ⊕ d)) a')
      a

unfoldable pub rho_pi : List ℕ → List ℕ
unfolding for_range rotate_left keccak_pi
rho_pi a =
    for_range 25 0 (λ i b. set b (keccak_pi i) (rotate_left (lane a i) (lane keccak_rho i)))
      zero_lanes

unfoldable pub chi : List ℕ → List ℕ → List ℕ
unfolding for_range
chi b a =
    for_range 5 0
      (λ y a'.
        for_range 5 0
          (λ x a''. set a'' (x + 5 * y) (
            lane b (x + 5 * y)
            ⊕ bit_and (complement (lane b ((x + 1) % 5 + 5 * y))) (lane b ((x + 2) % 5 + 5 * y))))
          a')
      a

unfoldable pub round : ℕ → List ℕ → List ℕ
unfolding theta rho_pi chi
round r a =
    let a1 = theta a in let a2 = chi (rho_pi a1) a1 in set a2 0 (lane a2 0 ⊕ lane keccak_rc r)

unfoldable pub keccak_f : List ℕ → List ℕ
unfolding for_range round
keccak_f a = for_range 24 0 round a
