-- ===== src/Transcript/Monad.antt =====
-- `struct Transcript`, and the steps on it: each returns a value with the new transcript, or an
-- error (`?`), after which nothing more is done.
use hardware_wallet_benchmar.Prelude.{◌≡◌, refl, Bool, true, false}
use hardware_wallet_benchmar.Error.{err_ne-ok, Result, ok, err, Error, require}
use hardware_wallet_benchmar.Transcript.Sponge.{Sponge}

pub record Transcript (S : Type 0) : Type 0 where
  pub source : S
  pub sponge : Sponge

abbrev pub M : Type 0 → Type 0 → Type 0
M S A = Transcript S → Result (A × Transcript S)

module _ {S : Type 0} where
  infixl 5 ◌>>=◌ ◌>>◌
  abbrev pub ◌>>=◌ : {A B : Type 0} → M S A → (A → M S B) → M S B
  ◌>>=◌ m f t = elim (m t) [ ok (a, t') ↦ f a t' | err e ↦ err e ]

  abbrev pub ◌>>◌ : {A B : Type 0} → M S A → M S B → M S B
  ◌>>◌ m k = m >>= λ _. k

  abbrev pub pure : {A : Type 0} → A → M S A
  pure a t = ok (a, t)

  -- a fallible computation that does not touch the transcript
  abbrev pub lift : {A : Type 0} → Result A → M S A
  lift (ok a) t = ok (a, t)
  lift (err e) t = err e

module _ {S : Type 0} where
  -- A chain that returns has a first step that returns, and the rest returns from there.
  pub bind-ok :
      {A B : Type 0} (m : M S A) (f : A → M S B) (t : Transcript S) (r : B × Transcript S)
      → (m >>= f) t ≡ ok r
      → (a : A) × (t' : Transcript S) × (m t ≡ ok (a, t')) × (f a t' ≡ ok r)
  bind-ok {A = A} {B = B} m f t r e = after (m t) refl e
    where
      after :
          (x : Result (A × Transcript S))
          → m t ≡ x
          → elim x [ ok (a, t') ↦ f a t' | err e' ↦ err e' ] ≡ ok r
          → (a : A) × (t' : Transcript S) × (m t ≡ ok (a, t')) × (f a t' ≡ ok r)
      after (ok (a, t')) p e = (a, t', p, e)
      after (err e') p e = absurd (err_ne-ok e)

  -- A check that is passed holds.
  pub lift-require :
      (b : Bool) (error : Error) (t : Transcript S) (r : Unit {0} × Transcript S)
      → lift (require b error) t ≡ ok r
      → b ≡ true
  lift-require true error t r e = refl
  lift-require false error t r e = absurd (err_ne-ok e)
