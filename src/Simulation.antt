-- ===== src/Simulation.antt =====
-- Two sources of a proof (`trait Source` of leanvm-pow/ledger/verifier/src/transcript.rs), and the steps of
-- the verifier on them: what one source lets a step do, the other does.
pub mod Ops
pub mod Whir
pub mod Bus
pub mod Keccak
pub mod Walk
use hardware_wallet_benchmar.Prelude.{
  ℕ, List, ◌≡◌, refl, ◌*◌, ap, ◌∙◌, sym, subst, Bool, true, false, if◌then◌else◌,
}
use hardware_wallet_benchmar.Transcript.Sponge
use hardware_wallet_benchmar.Transcript.Sponge.{Sponge}
use hardware_wallet_benchmar.Field.E.{E}
use hardware_wallet_benchmar.Error.{Result, ok, err, err_ne-ok, ok-inj}
use hardware_wallet_benchmar.Transcript.Source.{Source, Piece}
use hardware_wallet_benchmar.Transcript.Monad.{Transcript, M, ◌>>=◌, ◌>>◌, pure, lift, bind-ok}
use hardware_wallet_benchmar.Transcript.Ops.{sample, absorb, read}

-- the reads that the verifier makes
pub data Request : Piece → ℕ → Type 0 where
  scalar_request : Request Piece.scalar 24
  row_request : (words : ℕ) → Request Piece.row (8 * words)
  batch_request : Request Piece.batch 0
  sibling_request : Request Piece.sibling 32

-- Where a read of `src` leads to a valid state, the state before was valid, and a source in relation to
-- it reads the same.
pub record Simulation {S S' : Type 0} (src : Source S) (src' : Source S') : Type 1 where
  pub Valid : S → Type 0
  pub Rel : S → S' → Type 0
  pub valid_before :
      {piece : Piece} {n : ℕ}
      → Request piece n
      → (s s1 : S) (out : List ℕ) → src.read piece n s ≡ ok (out, s1)
      → Valid s1
      → Valid s
  pub reads :
      {piece : Piece} {n : ℕ}
      → Request piece n
      → (s s1 : S) (out : List ℕ) (s' : S') → src.read piece n s ≡ ok (out, s1)
      → Valid s1
      → Rel s s'
      → (s1' : S') × (src'.read piece n s' ≡ ok (out, s1')) × Rel s1 s1'

-- what a read of the transcript reads of its source
read-source :
    {S : Type 0} (src : Source S) (piece : Piece) (n : ℕ) (t u : Transcript S) (out : List ℕ)
    → read src piece n t ≡ ok (out, u)
    → (src.read piece n t.source ≡ ok (out, u.source)) × (t.sponge ≡ u.sponge)
unfolding read
read-source {S = S} src piece n t u out e = after (src.read piece n t.source) refl e
  where
    after :
        (x : Result (List ℕ × S))
        → src.read piece n t.source ≡ x
        → ◌≡◌ {A = Result (List ℕ × Transcript S)}
            (elim x [
              | ok (bytes, source) ↦ ok (bytes, record t { source = source })
              | err e' ↦ err e'
            ])
            (ok (out, u))
        → (src.read piece n t.source ≡ ok (out, u.source)) × (t.sponge ≡ u.sponge)
    after (ok (bytes, source)) p e' = (
      p ∙ ap (λ (x : List ℕ × Transcript S). ok (x.0, x.1.source)) (ok-inj e'),
      ap (λ (x : List ℕ × Transcript S). x.1.sponge) (ok-inj e'),
    )
    after (err error) p e' = absurd (err_ne-ok e')

module _ {S S' : Type 0} {src : Source S} {src' : Source S'} (sim : Simulation src src') where
  -- a step on the one source, and the same step on the other
  pub record Sim {A : Type 0} (m : M S A) (m' : M S' A) : Type 0 where
    pub valid_start :
        (t u : Transcript S) (a : A) → m t ≡ ok (a, u) → sim.Valid u.source → sim.Valid t.source
    pub runs :
        (t u : Transcript S) (a : A) (s' : S')
        → m t ≡ ok (a, u)
        → sim.Valid u.source
        → sim.Rel t.source s'
        → (s1' : S') × (m' (record { source = s'; sponge = t.sponge })
            ≡ ok (a, record { source = s1'; sponge = u.sponge }))
          × sim.Rel u.source s1'

  -- a step on the sponge alone
  sponge-Sim :
      {A : Type 0} (f : Sponge → A × Sponge)
      → Sim
          (λ t. ok ((f t.sponge).0, record t { sponge = (f t.sponge).1 }))
          (λ t. ok ((f t.sponge).0, record t { sponge = (f t.sponge).1 }))
  sponge-Sim {A = A} f = record {
    valid_start = λ t u a e valid.
        subst sim.Valid (ap (λ (x : A × Transcript S). x.1.source) (sym (ok-inj e))) valid;
    runs = λ t u a s' e valid r. (
      s',
      ap (λ (x : A × Transcript S). ok (x.0, record { source = s'; sponge = x.1.sponge }))
          (ok-inj e),
      subst (λ x. sim.Rel x s') (ap (λ (x : A × Transcript S). x.1.source) (ok-inj e)) r,
    );
  }

  pub pure-Sim : {A : Type 0} (a : A) → Sim (pure a) (pure a)
  pure-Sim a = sponge-Sim (λ s. (a, s))

  pub sample-Sim : Sim sample sample
  unfolding sample
  sample-Sim = sponge-Sim Sponge.sample

  pub absorb-Sim : (value : E) (tag : ℕ) → Sim (absorb value tag) (absorb value tag)
  unfolding absorb
  absorb-Sim value tag = sponge-Sim (λ s. (tt, Sponge.absorb s value tag))

  pub lift-Sim : {A : Type 0} (r : Result A) → Sim (lift r) (lift r)
  lift-Sim (ok a) = pure-Sim a
  lift-Sim (err error) = record {
    valid_start = λ t u a e valid. absurd (err_ne-ok e);
    runs = λ t u a s' e valid r. absurd (err_ne-ok e);
  }

  pub bind-Sim :
      {A B : Type 0} {m : M S A} {m' : M S' A} {f : A → M S B} {f' : A → M S' B}
      → Sim m m'
      → ((a : A) → Sim (f a) (f' a))
      → Sim (m >>= f) (m' >>= f')
  bind-Sim {m = m} {m' = m'} {f = f} {f' = f'} first next = record {
    valid_start = λ t u b e valid.
        let (a, t1, p, q) = bind-ok m f t (b, u) e in
        first.valid_start t t1 a p ((next a).valid_start t1 u b q valid);
    runs = λ t u b s' e valid r.
        let (a, t1, p, q) = bind-ok m f t (b, u) e in
        let valid1 = (next a).valid_start t1 u b q valid in
        let (s1', p', r1) = first.runs t t1 a s' p valid1 r in
        let (s2', q', r2) = (next a).runs t1 u b s1' q valid r1 in
        (s2', ap (λ x. elim x [ ok (a', t') ↦ f' a' t' | err e' ↦ err e' ]) p' ∙ q', r2);
  }

  pub then-Sim :
      {A B : Type 0} {m : M S A} {m' : M S' A} {k : M S B} {k' : M S' B}
      → Sim m m'
      → Sim k k'
      → Sim (m >> k) (m' >> k')
  then-Sim first next = bind-Sim first (λ _. next)

  -- a check, which leaves both sources alone
  pub check-Sim :
      {B : Type 0} (r : Result (Unit {0})) {k : M S B} {k' : M S' B}
      → Sim k k'
      → Sim (lift r >> k) (lift r >> k')
  check-Sim r next = then-Sim (lift-Sim r) next

  -- a step chosen by a test
  pub if-Sim :
      {A : Type 0} (b : Bool) {m k : M S A} {m' k' : M S' A}
      → Sim m m'
      → Sim k k'
      → Sim (if b then m else k) (if b then m' else k')
  if-Sim true taken other = taken
  if-Sim false taken other = other

  pub read-Sim :
      {piece : Piece} {n : ℕ} → Request piece n → Sim (read src piece n) (read src' piece n)
  unfolding read
  read-Sim {piece = piece} {n = n} request = record {
    valid_start = λ t u out e valid.
        sim.valid_before request t.source u.source out (read-source src piece n t u out e).0 valid;
    runs = λ t u out s' e valid r.
        let (p, q) = read-source src piece n t u out e in
        let (s1', p', r1) = sim.reads request t.source u.source out s' p valid r in
        (
          s1',
          ap
                (λ x. elim x [
                  | ok (bytes, source) ↦ ok (bytes, record { source = source; sponge = t.sponge })
                  | err e ↦ err e
                ])
                p'
              ∙ ap (λ sponge. ok (out, record { source = s1'; sponge = sponge })) q,
          r1,
        );
  }
