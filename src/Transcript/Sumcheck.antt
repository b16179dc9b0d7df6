-- ===== src/Transcript/Sumcheck.antt =====
-- Exactly when a sumcheck returns, and with what.
use hardware_wallet_benchmar.Prelude.{ℕ, ◌≡◌, ◌-◌, List, [], ◌∷◌}
use hardware_wallet_benchmar.Transcript.Ops.{next_scalars, next, sample}
use hardware_wallet_benchmar.Transcript.Source.{Source}
use hardware_wallet_benchmar.Field.E.{E, ◌⊞◌, zero_e, one_e}
use hardware_wallet_benchmar.Transcript.Multilinear.{poly_eval}
use hardware_wallet_benchmar.Field.E.Laws.{IsElement}
use hardware_wallet_benchmar.Error.{ok}
use hardware_wallet_benchmar.Transcript.Monad.{Transcript}

-- one round, from the transcript `t` to `t'`: the `count - 1` scalars that are read are all coefficients
-- of a polynomial but the linear one, it sums to the claim at 0 and 1, the challenge is drawn once they
-- are absorbed, and the next claim is the polynomial's value there
pub record Round {S : Type 0} (src : Source S) (count : ℕ) (t : Transcript S)
    (claim challenge next : E) (t' : Transcript S) : Type 0 where
  pub constant : E
  pub linear : E
  pub higher : List E
  pub absorbed : Transcript S
  pub reads : next_scalars src (count - 1) t ≡ ok (constant ∷ higher, absorbed)
  pub linear_fits : IsElement linear
  pub sums :
      poly_eval (constant ∷ linear ∷ higher) zero_e ⊞ poly_eval (constant ∷ linear ∷ higher) one_e
      ≡ claim
  pub draws : sample absorbed ≡ ok (challenge, t')
  pub value : next ≡ poly_eval (constant ∷ linear ∷ higher) challenge

-- a round for each challenge, one after the other
unfoldable pub Reduces :
    {S : Type 0} → Source S → ℕ → Transcript S → E → List E → E → Transcript S → Type 0
Reduces src count t claim [] final t' = (final ≡ claim) × (t' ≡ t)
Reduces {S = S} src count t claim (challenge ∷ challenges) final t' =
    (next : E) × (u : Transcript S) × Round src count t claim challenge next u
    × Reduces src count u next challenges final t'
