-- ===== src/Bus/Depth.antt =====
-- The layers of `verify_gkr`: its point has a coordinate for each layer.
use hardware_wallet_benchmar.Prelude.{
  length-append, leb, ◌^◌, ℕ, zero, suc, List, [], ◌∷◌, ◌≡◌, refl, ap, ◌∙◌, sym, arith, length, ◌≤◌,
  ◌+◌, ◌-◌, if◌then◌else◌, some, leb→le, ==_apart,
}
use hardware_wallet_benchmar.Error.{ok, ok-inj, require, gkr_layer, announced_table_sizes}
use hardware_wallet_benchmar.Transcript.Monad.{
  Transcript, M, ◌>>=◌, pure, lift, bind-ok, lift-require,
}
use hardware_wallet_benchmar.Bus.Gkr.{
  gkr_layers, gkr_layer_step, layer_rounds, verify_gkr, step_of, fold_all, next_children, max_point,
  products,
}
use hardware_wallet_benchmar.Transcript.Ops.{sample, samples, round_poly, next_scalar, next_scalars}
use hardware_wallet_benchmar.Transcript.Source.{Source}
use hardware_wallet_benchmar.Field.E.{E, ◌≟◌}
use hardware_wallet_benchmar.Transcript.Multilinear.{poly_eval, fold_eval}

-- a turn takes one layer at least
step_pos : (layer : ℕ) → 1 ≤ step_of layer
step_pos layer = ground arith

-- and no more than are left
step_fits : (layer : ℕ) → 1 ≤ layer → step_of layer ≤ layer
step_fits layer h = ground arith

module _ {S : Type 0} (src : Source S) where
  layer_rounds-length :
      (n : ℕ) (claim : E) (coords : List E) (t u : Transcript S) (x : List E) (final : E)
      → layer_rounds src n claim coords t ≡ ok ((x, final), u)
      → length x ≡ length coords
  unfolding layer_rounds
  layer_rounds-length n claim [] t u x final e = ap (λ r. length r.0.0) (sym (ok-inj e))
  layer_rounds-length n claim (r ∷ coords) t u x final e =
      let (message, t1, _, e1) = bind-ok (round_poly src n claim (some r)) _ t _ e in
      let (challenge, t2, _, e2) = bind-ok sample _ t1 _ e1 in
      let ((x', final'), t3, e3, e4) =
        bind-ok (layer_rounds src n (poly_eval message challenge) coords) _ t2 _ e2 in
      let later = layer_rounds-length n (poly_eval message challenge) coords t2 t3 x' final' e3 in
      omega (arith, later, ap (λ y. length y.0.0) (sym (ok-inj e4)))

  samples-length :
      (n : ℕ) (t u : Transcript S) (xs : List E) → samples n t ≡ ok (xs, u) → length xs ≡ n
  unfolding samples
  samples-length zero t u xs e = ap (λ r. length r.0) (sym (ok-inj e))
  samples-length (suc n) t u xs e =
      let (value, t1, _, e1) = bind-ok sample _ t _ e in
      let (values, t2, e2, e3) = bind-ok (samples n) _ t1 _ e1 in
      omega (arith, samples-length n t1 t2 values e2, ap (λ r. length r.0) (sym (ok-inj e3)))

  fold_all-length :
      (children : List (List E)) (y : List E) (t u : Transcript S) (values : List E)
      → fold_all src children y t ≡ ok (values, u)
      → length values ≡ length children
  unfolding fold_all
  fold_all-length [] y t u values e = ap (λ r. length r.0) (sym (ok-inj e))
  fold_all-length (child ∷ children) y t u values e =
      let (value, t1, _, e1) = bind-ok (lift (fold_eval child y)) _ t _ e in
      let (later, t2, e2, e3) = bind-ok (fold_all src children y) _ t1 _ e1 in
      omega
        (arith, fold_all-length children y t1 t2 later e2, ap (λ r. length r.0) (sym (ok-inj e3)))

  next_children-length :
      (n size : ℕ) (t u : Transcript S) (children : List (List E))
      → next_children src n size t ≡ ok (children, u)
      → length children ≡ n
  unfolding next_children
  next_children-length zero size t u children e = ap (λ r. length r.0) (sym (ok-inj e))
  next_children-length (suc n) size t u children e =
      let (child, t1, _, e1) = bind-ok (next_scalars src size) _ t _ e in
      let (later, t2, e2, e3) = bind-ok (next_children src n size) _ t1 _ e1 in
      omega
        (arith, next_children-length n size t1 t2 later e2, ap (λ r. length r.0) (sym (ok-inj e3)))

  gkr_layer_step-length :
      (step : ℕ) (point values : List E) (t u : Transcript S) (point' values' : List E)
      → gkr_layer_step src step point values t ≡ ok ((point', values'), u)
      → (length point' ≡ length point + step)
        × (length values' ≡ 3)
        × (length point + step ≤ max_point)
  unfolding gkr_layer_step
  gkr_layer_step-length step point values t u point' values' e =
      let (combiner, t1, _, e1) = bind-ok sample _ t _ e in
      let ((x, claim), t2, rounds, e2) =
        bind-ok (layer_rounds src (2 ^ step + 1) (poly_eval values combiner) point) _ t1 _ e1 in
      let (children, t3, three, e3) = bind-ok (next_children src 3 (2 ^ step)) _ t2 _ e2 in
      let (_, t4, _, e4) =
        bind-ok (lift (require (claim ≟ poly_eval (products children) combiner) gkr_layer)) _ t3 _
          e3 in
      let (y, t5, drawn, e5) = bind-ok (samples step) _ t4 _ e4 in
      let (folded, t6, all, e6) = bind-ok (fold_all src children y) _ t5 _ e5 in
      let fits = require (leb (length point + step) max_point) announced_table_sizes in
      let (_, t7, inside, e7) = bind-ok (lift fits) _ t6 _ e6 in
      let last = ok-inj e7 in
      let xs =
        layer_rounds-length (2 ^ step + 1) (poly_eval values combiner) point t1 t2 x claim rounds in
      let ys = samples-length step t4 t5 y drawn in
      let zs = fold_all-length children y t5 t6 folded all in
      let three' = next_children-length 3 (2 ^ step) t2 t3 children three in
      (
        omega (arith, xs, ys, length-append y x, ap (λ r. length r.0.0) (sym last)),
        omega (arith, zs, three', ap (λ r. length r.0.1) (sym last)),
        leb→le _ _ (
            lift-require (leb (length point + step) max_point) announced_table_sizes t6 (_, t7)
              inside),
      )

  gkr_layers-length :
      (fuel layer : ℕ) (point values : List E) (t u : Transcript S) (point' values' : List E)
      → layer ≤ fuel
      → length values ≡ 3
      → length point ≤ max_point
      → gkr_layers src fuel layer point values t ≡ ok ((point', values'), u)
      → (length point' ≡ length point + layer) × (length values' ≡ 3) × (length point' ≤ max_point)
  unfolding gkr_layers
  gkr_layers-length zero layer point values t u point' values' h three fits e =
      let p = ap (λ r. length r.0.0) (sym (ok-inj e)) in
      (
        omega (arith, p, h),
        omega (arith, three, ap (λ r. length r.0.1) (sym (ok-inj e))),
        omega (arith, p, fits),
      )
  gkr_layers-length (suc fuel) zero point values t u point' values' h three fits e =
      let p = ap (λ r. length r.0.0) (sym (ok-inj e)) in
      (
        omega (arith, p),
        omega (arith, three, ap (λ r. length r.0.1) (sym (ok-inj e))),
        omega (arith, p, fits),
      )
  gkr_layers-length (suc fuel) (suc layer) point values t u point' values' h three fits e =
      let step = step_of (suc layer) in
      let more : M S (List E × List E) = gkr_layer_step src step point values >>= λ (p, v).
      gkr_layers src fuel (suc layer - step) p v in
      let e' : more t ≡ ok ((point', values'), u) =
        ap (λ b. (if b then pure (point, values) else more) t)
          (sym (==_apart (suc layer) 0 (λ q. omega arith)))
        ∙ e in
      let ((p, v), t1, e1, e2) = bind-ok (gkr_layer_step src step point values) _ t _ e' in
      let (grown, three', inside) = gkr_layer_step-length step point values t t1 p v e1 in
      let (whole, three'', fits') =
        gkr_layers-length fuel (suc layer - step) p v t1 u point' values'
          (omega (arith, h, step_pos (suc layer))) three' (omega (arith, grown, inside)) e2 in
      (omega (arith, whole, grown, step_fits (suc layer) (omega arith)), three'', fits')

  -- Where verify_gkr returns, its point has as many coordinates as the depth, the depth is at most
  -- MAX_POINT, and there are three claims.
  pub verify_gkr-length :
      (depth : ℕ) (t u : Transcript S) (root : E) (point values : List E)
      → verify_gkr src depth t ≡ ok ((root, point, values), u)
      → (length point ≡ depth) × (length values ≡ 3) × (depth ≤ max_point)
  unfolding verify_gkr
  verify_gkr-length depth t u root point values e =
      let (shared, t1, _, e1) = bind-ok (next_scalar src) _ t _ e in
      let (count, t2, _, e2) = bind-ok (next_scalar src) _ t1 _ e1 in
      let roots = shared ∷ shared ∷ count ∷ [] in
      let ((p, v), t3, run, e3) = bind-ok (gkr_layers src depth depth [] roots) _ t2 _ e2 in
      let (whole, three, fits) =
        gkr_layers-length depth depth [] roots t2 t3 p v (omega arith) refl (omega arith) run in
      let last = ok-inj e3 in
      let same = ap (λ r. length r.0.1) (sym last) in
      (
        omega (arith, whole, same),
        omega (arith, three, ap (λ r. length r.0.2) (sym last)),
        omega (arith, whole, fits),
      )
