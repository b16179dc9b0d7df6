-- ===== src/Whir/Config/Capacity.antt =====
-- Which configurations `derive_config` accepts, and that those fit the verifier's arrays.
use hardware_wallet_benchmar.Bits.Linear.{every_below, every_below_sound}
use hardware_wallet_benchmar.Prelude.{
  ℕ, ◌≡◌, refl, ◌+◌, ◌-◌, ◌≤◌, ◌<◌, arith, Bool, true, false, ◌&&◌, leb, ◌==◌, List, [], ◌∷◌,
  length, subst,
}
use hardware_wallet_benchmar.Error.{Result, ok, err}
use hardware_wallet_benchmar.Whir.Config.{
  Config, Limits, derive_config, host_limits, device_limits, ladder, take_nonzero, all_le,
  residual_max_log, max_levels, max_ood,
}

abbrev pub sum : List ℕ → ℕ
sum [] = 0
sum (n ∷ ns) = n + sum ns

-- the claims out of the domain, over the levels but the last: what is left after each one's folds
abbrev pub ood_total : ℕ → List ℕ → ℕ
ood_total left [] = 0
ood_total left (fold ∷ []) = 0
ood_total left (fold ∷ next ∷ folds) = (left - fold) + ood_total (left - fold) (next ∷ folds)

-- One level for each entry of the arrays, and six at most; the folds leave a residual that is read
-- in full; all queries and all claims out of the domain fit their arrays.
unfoldable pub fits : Limits → ℕ → Config → Bool
fits limits log_n c =
    (length c.folds == length c.log_inv_rates)
    && (length c.folds == length c.queries)
    && leb (length c.folds) max_levels
    && leb (sum c.folds) log_n
    && leb (log_n - sum c.folds) residual_max_log
    && leb (sum c.queries) limits.max_all_queries
    && leb (ood_total log_n c.folds) max_ood

accepted : Limits → ℕ → ℕ → Bool
accepted limits log_n rate = elim (derive_config limits log_n rate) [
  | ok c ↦ fits limits log_n c
  | err _ ↦ false
]

accepted-fits :
    (limits : Limits) (log_n rate : ℕ)
    → accepted limits log_n rate ≡ true
    → (c : Config) × (derive_config limits log_n rate ≡ ok c) × (fits limits log_n c ≡ true)
unfolding accepted
accepted-fits limits log_n rate h = of (derive_config limits log_n rate) refl h
  where
    of :
        (r : Result Config)
        → derive_config limits log_n rate ≡ r
        → elim r [ ok c ↦ fits limits log_n c | err _ ↦ false ] ≡ true
        → (c : Config) × (derive_config limits log_n rate ≡ ok c) × (fits limits log_n c ≡ true)
    of (ok c) e h = (c, e, h)
    of (err _) e h = absurd (cc)

-- every size and rate, from `rate` on
accepted_range :
    (limits : Limits) (from n : ℕ)
    → every_below (λ j. every_below (λ i. accepted limits (15 + i) (from + j)) 14) n ≡ true
    → (log_n rate : ℕ) → 15 ≤ log_n
    → log_n ≤ 28
    → from ≤ rate
    → rate < from + n
    → accepted limits log_n rate ≡ true
accepted_range limits from n h log_n rate h1 h2 h3 h4 =
    let i = log_n - 15 in
    let j = rate - from in
    let ei : 15 + i ≡ log_n = omega arith in
    let ej : from + j ≡ rate = omega arith in
    let at_j = every_below_sound _ n j (omega arith) h in
    subst (λ t. accepted limits t rate ≡ true) ei
      (subst (λ t. accepted limits (15 + i) t ≡ true) ej
        (every_below_sound _ 14 i (omega arith) at_j))

-- Off the device every stacked log size from 15 to 28, at every inverse rate from 1/2 to 1/16,
-- has a configuration: at most six levels, a residual of at most 2^5, and queries and
-- out-of-domain points that fit their arrays.
pub derive_config-host :
    (log_n rate : ℕ)
    → 15 ≤ log_n
    → log_n ≤ 28
    → 1 ≤ rate
    → rate ≤ 4
    → (c : Config) × (derive_config host_limits log_n rate ≡ ok c)
      × (fits host_limits log_n c ≡ true)
unfolding every_below accepted derive_config ladder take_nonzero all_le fits
derive_config-host log_n rate h1 h2 h3 h4 =
    accepted-fits host_limits log_n rate
      (accepted_range host_limits 1 4 refl log_n rate h1 h2 h3 (omega arith))

-- On the device every stacked log size from 15 to 28, at every inverse rate from 1/4 to 1/16, has
-- a configuration that fits the device's arrays.
pub derive_config-device :
    (log_n rate : ℕ)
    → 15 ≤ log_n
    → log_n ≤ 28
    → 2 ≤ rate
    → rate ≤ 4
    → (c : Config) × (derive_config device_limits log_n rate ≡ ok c)
      × (fits device_limits log_n c ≡ true)
unfolding every_below accepted derive_config ladder take_nonzero all_le fits
derive_config-device log_n rate h1 h2 h3 h4 =
    accepted-fits device_limits log_n rate
      (accepted_range device_limits 2 3 refl log_n rate h1 h2 h3 (omega arith))
