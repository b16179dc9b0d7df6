-- ===== src/Keccak/Weights.antt =====
-- `enum Weights` and its methods: a claim's weight on each of the 1600 bits, factored.
use hardware_wallet_benchmar.Keccak.Shape.{z_bits}
use hardware_wallet_benchmar.Prelude.{
  List, for_range, ℕ, replicate, set, ◌∷◌, suc, [], ◌%◌, ◌+◌, take, drop, ◌*◌, bit_and, ◌/◌, ◌-◌,
  if◌then◌else◌, ◌==◌, zero,
}
use hardware_wallet_benchmar.Field.E.{E, ◌⊞◌, ◌⊠◌, times_monomial, zero_e, new}
use hardware_wallet_benchmar.Hash.Permutation.{state_lanes, keccak_rho, keccak_pi}
use hardware_wallet_benchmar.Transcript.Multilinear.{dot, at, eq_kernel}
use hardware_wallet_benchmar.Tables.Columns.{nat_at}
use hardware_wallet_benchmar.Keccak.Correlations.{correlations}
use hardware_wallet_benchmar.Transcript.Placement.{trailing_zeros}

pub data Weights : Type 0 where
  -- `lanes[lane] * x^z`
  initial : List E → Weights
  -- the linear map's transpose of `zw[z] * lam[lane]`, `zw` the eq kernel of `zq`
  layer : List E → List E → Weights

-- `zw`
abbrev pub z_kernel : List E → List E
z_kernel zq = eq_kernel zq (replicate 64 zero_e)

-- lane `lane` moved `k` columns along its row
unfoldable pub along : ℕ → ℕ → ℕ
along lane k = (lane % 5 + k) % 5 + 5 * (lane / 5)

-- `C[x][z]`
unfoldable pub column : List E → List E → ℕ → ℕ → E
unfolding for_range
column zw lam x z =
    for_range 5 0
      (λ y sum.
        let lane = x + 5 * y in
        sum ⊞ at zw ((z + nat_at keccak_rho lane) % 64) ⊠ at lam (keccak_pi lane))
      zero_e

-- the weight that lane 0 puts on bit `z`
unfoldable pub lane0_weight : List E → List E → ℕ → E
unfolding column
lane0_weight zw lam z =
    at zw z ⊠ at lam (keccak_pi 0) ⊞ column zw lam 1 z ⊞ column zw lam 4 ((z + 1) % 64)

-- the `while`, on fuel: each turn takes the lowest bit of `bits` off
unfoldable pub lane0_loop : ℕ → (ℕ → E) → ℕ → E → E
lane0_loop zero weight bits sum = sum
lane0_loop (suc fuel) weight bits sum =
    let rest =
      lane0_loop fuel weight (bit_and bits (bits - 1)) (sum ⊞ weight (trailing_zeros bits)) in
    if bits == 0 then sum else rest

-- the positions that iota flips
unfoldable pub lane0_sum : Weights → ℕ → E
unfolding lane0_loop lane0_weight
lane0_sum (initial lanes) rc = at lanes 0 ⊠ new rc 0 0
lane0_sum (layer zq lam) rc = lane0_loop 64 (lane0_weight (z_kernel zq) lam) rc zero_e

unfoldable pub monomial_total : ℕ → List E → E → E
monomial_total z [] monomials = monomials
monomial_total z (weight ∷ weights) monomials =
    monomial_total (z + 1) weights (monomials ⊞ times_monomial weight z)

unfoldable pub dot_eq_initial : List E → List E → E
unfolding monomial_total
dot_eq_initial lanes local =
    let lc = eq_kernel (drop z_bits local) (replicate 32 zero_e) in
    let zc = z_kernel (take z_bits local) in
    dot (take state_lanes lc) (take state_lanes lanes) ⊠ monomial_total 0 zc zero_e

-- the running sums of `dot_eq_layer`
pub record Columns : Type 0 where
  pub total : E
  pub cr0 : List E
  pub cr1 : List E
  pub lc_columns : List E

abbrev pub add_at : List E → ℕ → E → List E
add_at xs i value = set xs i (at xs i ⊞ value)

unfoldable pub layer_lane : List E → List E → List E → ℕ → Columns → Columns
layer_lane lam lc correlation lane s =
    let rho = nat_at keccak_rho lane in
    let g = at lam (keccak_pi lane) in
    let r0 = g ⊠ at correlation rho in
    record {
      total = s.total ⊞ at lc lane ⊠ r0;
      cr0 = add_at s.cr0 (lane % 5) r0;
      cr1 = add_at s.cr1 (lane % 5) (g ⊠ at correlation ((rho + 1) % 64));
      lc_columns = add_at s.lc_columns (lane % 5) (at lc lane);
    }

abbrev pub five_zeros : List E
five_zeros = replicate 5 zero_e

unfoldable pub dot_eq_layer : List E → List E → List E → E
unfolding layer_lane for_range
dot_eq_layer zq lam local =
    let lc = eq_kernel (drop z_bits local) (replicate 32 zero_e) in
    let correlation = correlations (take z_bits local) zq in
    let s =
      for_range state_lanes 0 (layer_lane lam lc correlation)
        (record { total = zero_e; cr0 = five_zeros; cr1 = five_zeros; lc_columns = five_zeros }) in
    for_range 5 0
      (λ x total. total ⊞ at s.lc_columns x ⊠ (at s.cr0 ((x + 1) % 5) ⊞ at s.cr1 ((x + 4) % 5)))
      s.total

unfoldable pub dot_eq : Weights → List E → E
unfolding dot_eq_initial dot_eq_layer
dot_eq (initial lanes) local = dot_eq_initial lanes local
dot_eq (layer zq lam) local = dot_eq_layer zq lam local

-- one lane's share of every entry of `out`, from entry `z` on
unfoldable pub add_lane : List E → E → E → ℕ → ℕ → List E → List E
add_lane zw a b rho z [] = []
add_lane zw a b rho z (value ∷ out) =
    (value ⊞ (a ⊠ at zw ((z + rho) % 64) ⊞ b ⊠ at zw ((z + 1 + rho) % 64)))
    ∷ add_lane zw a b rho (z + 1) out

-- the sums of `wt` by column
unfoldable pub column_sums : List E → List E
unfolding for_range
column_sums wt =
    for_range state_lanes 0 (λ lane columns. add_at columns (lane % 5) (at wt lane)) five_zeros

unfoldable pub monomials_from : E → ℕ → ℕ → List E
monomials_from sum zero z = []
monomials_from sum (suc n) z = times_monomial sum z ∷ monomials_from sum n (z + 1)

-- the combination of the lanes' weights by `wt`, at each `z`
unfoldable pub lane_combination : Weights → List E → List E
unfolding monomials_from add_lane column_sums for_range
lane_combination (initial lanes) wt = monomials_from (dot wt (take state_lanes lanes)) 64 0
lane_combination (layer zq lam) wt =
    let zw = z_kernel zq in
    let columns = column_sums wt in
    for_range state_lanes 0
      (λ lane out.
        let x = lane % 5 in
        let g = at lam (keccak_pi lane) in
        let a = g ⊠ (at wt lane ⊞ at columns ((x + 4) % 5)) in
        let b = g ⊠ at columns ((x + 1) % 5) in add_lane zw a b (nat_at keccak_rho lane) 0 out)
      (replicate 64 zero_e)
