-- ===== src/Bus/Schedule.antt =====
-- The layers of `verify_gkr`: which turns its loop takes, and that it ends.
use hardware_wallet_benchmar.Prelude.{
  ℕ, zero, suc, List, [], ◌∷◌, ◌≡◌, refl, sym, ap, ◌∙◌, arith, ◌≤◌, ◌<◌, ◌-◌, ◌*◌, ◌/◌, ◌%◌, ◌==◌,
  if◌then◌else◌, fun_ext, replicate, ==_apart, ==_iff, ==_false, Bool, Bool-cases, inl, inr,
}
use hardware_wallet_benchmar.Transcript.Monad.{Transcript, M, ◌>>=◌, pure}
use hardware_wallet_benchmar.Transcript.Source.{Source}
use hardware_wallet_benchmar.Field.E.{E}
use hardware_wallet_benchmar.Bus.Gkr.{gkr_layers, gkr_layer_step, step_of}

-- the turns for a depth: one that takes a single layer where the depth is odd, and then one for each two
-- layers
unfoldable pub turns : ℕ → List ℕ
turns depth = if depth % 2 == 1 then 1 ∷ replicate (depth / 2) 2 else replicate (depth / 2) 2

module _ {S : Type 0} (src : Source S) where
  -- the given turns, one after the other
  unfoldable pub each_turn : List ℕ → List E → List E → M S (List E × List E)
  each_turn [] point values = pure (point, values)
  each_turn (step ∷ steps) point values = do
    (point', values') ← gkr_layer_step src step point values
    each_turn steps point' values'

  -- a turn at a layer that is not zero
  layers_turn :
      (fuel layer step rest : ℕ) (point values : List E) (t : Transcript S)
      → 0 < layer
      → step_of layer ≡ step
      → layer - step ≡ rest
      → gkr_layers src (suc fuel) layer point values t
        ≡ (gkr_layer_step src step point values >>= λ (p, v). gkr_layers src fuel rest p v) t
  unfolding gkr_layers
  layers_turn fuel layer step rest point values t pos same left =
      let more = λ (s r : ℕ).
        (gkr_layer_step src s point values >>= λ (p, v). gkr_layers src fuel r p v) t in
      ap
        (λ b.
          (if b
              then pure (point, values)
              else gkr_layer_step src (step_of layer) point values >>= λ (p, v).
                  gkr_layers src fuel (layer - step_of layer) p v)
            t)
        (==_apart layer 0 (λ e. omega (arith, e)))
      ∙ ap (λ s. more s (layer - s)) same
      ∙ ap (more step) left

  no_layers :
      (fuel : ℕ) (point values : List E) (t : Transcript S)
      → gkr_layers src fuel 0 point values t ≡ pure (point, values) t
  unfolding gkr_layers
  no_layers zero point values t = refl
  no_layers (suc fuel) point values t = refl

  -- an even number of layers
  even_layers :
      (n fuel layer : ℕ) (point values : List E) (t : Transcript S)
      → layer ≡ 2 * n
      → layer ≤ fuel
      → gkr_layers src fuel layer point values t ≡ each_turn (replicate n 2) point values t
  unfolding each_turn
  even_layers zero fuel layer point values t e h =
      let none_left : layer ≡ 0 = omega (arith, e) in
      ap (λ l. gkr_layers src fuel l point values t) none_left ∙ no_layers fuel point values t
  even_layers (suc n) zero layer point values t e h = absurd (omega (arith, e))
  even_layers (suc n) (suc fuel) layer point values t e h =
      layers_turn fuel layer 2 (2 * n) point values t (omega (arith, e)) (ground (arith, e))
        (omega (arith, e))
      ∙ ap
          (λ (k : List E × List E → M S (List E × List E)).
            (gkr_layer_step src 2 point values >>= k) t)
          (fun_ext
            λ (p, v). fun_ext λ t'. even_layers n fuel (2 * n) p v t' refl (omega (arith, e)))

  -- With the depth as fuel or more, the loop of verify_gkr is, from the depth down, one turn of a single
  -- layer where the depth is odd and then depth / 2 turns of two layers, and no turn after them.
  pub gkr_layers-each_turn :
      (fuel depth : ℕ) (point values : List E) (t : Transcript S)
      → depth ≤ fuel
      → gkr_layers src fuel depth point values t ≡ each_turn (turns depth) point values t
  unfolding turns each_turn
  gkr_layers-each_turn fuel depth point values t h =
      let half = depth / 2 in
      let run = λ (b : Bool).
        each_turn (if b then 1 ∷ replicate half 2 else replicate half 2) point values t in
      elim (Bool-cases (depth % 2 == 1)) [
        | inl odd ↦
            let parity = (==_iff (depth % 2) 1).0 odd in
            let one_more : fuel ≡ suc (fuel - 1) = omega (arith, parity) in
            ap (λ f. gkr_layers src f depth point values t) one_more
            ∙ layers_turn (fuel - 1) depth 1 (2 * half) point values t (omega (arith, parity))
                (ap (λ (b : Bool). if b then 1 else 2) odd) (omega (arith, parity))
            ∙ ap
                (λ (k : List E × List E → M S (List E × List E)).
                  (gkr_layer_step src 1 point values >>= k) t)
                (fun_ext λ (p, v).
                  fun_ext λ t'.
                    even_layers half (fuel - 1) (2 * half) p v t' refl (omega (arith, parity)))
            ∙ sym (ap run odd)
        | inr even ↦
            even_layers half fuel depth point values t (omega (arith, ==_false (depth % 2) 1 even))
              h
            ∙ sym (ap run even)
      ]
