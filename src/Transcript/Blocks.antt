-- ===== src/Transcript/Blocks.antt =====
-- The sponge by blocks: what absorbing scalar after scalar, each waiting until the rate is full,
-- comes to.
use hardware_wallet_benchmar.Transcript.Sponge.{
  Sponge, absorb, sample, duplex, duplex_state, n_pending, rate_scalars,
}
use hardware_wallet_benchmar.Prelude.{
  ℕ, ◌≡◌, refl, List, [], ◌∷◌, ◌≤◌, length, arith, Bool, if◌then◌else◌, ◌++◌, Bool-cases, ◌==◌, inl,
  subst, sym, inr, length-append, ==_false,
}
use hardware_wallet_benchmar.Hash.State.{State}
use hardware_wallet_benchmar.Transcript.Sponge.{Sponge, duplex, duplex_state, n_pending}
use hardware_wallet_benchmar.Field.E.{E}

unfoldable pub absorb_all : Sponge → List (E × ℕ) → Sponge
absorb_all s [] = s
absorb_all s (p ∷ inputs) = absorb_all (absorb s p.0 p.1) inputs

-- four inputs a block; the last one holds what is left, one to four, or none of none
unfoldable pub absorb_blocks : State → List (E × ℕ) → State
absorb_blocks s [] = duplex_state s []
absorb_blocks s (a ∷ []) = duplex_state s (a ∷ [])
absorb_blocks s (a ∷ b ∷ []) = duplex_state s (a ∷ b ∷ [])
absorb_blocks s (a ∷ b ∷ c ∷ []) = duplex_state s (a ∷ b ∷ c ∷ [])
absorb_blocks s (a ∷ b ∷ c ∷ d ∷ []) = duplex_state s (a ∷ b ∷ c ∷ d ∷ [])
absorb_blocks s (a ∷ b ∷ c ∷ d ∷ e ∷ inputs) =
    absorb_blocks (duplex_state s (a ∷ b ∷ c ∷ d ∷ [])) (e ∷ inputs)

-- Absorbing inputs one by one from an empty buffer and drawing a challenge leaves an empty buffer
-- and the state that permuting once for each block of four inputs, and once for the rest, gives.
pub sample-absorb_all :
    (s : State) (inputs : List (E × ℕ))
    → (sample (absorb_all (record { state = s; pending = [] }) inputs)).1
      ≡ record { state = absorb_blocks s inputs; pending = [] }
unfolding absorb_all absorb_blocks absorb sample duplex
sample-absorb_all s [] = refl
sample-absorb_all s (a ∷ []) = refl
sample-absorb_all s (a ∷ b ∷ []) = refl
sample-absorb_all s (a ∷ b ∷ c ∷ []) = refl
sample-absorb_all s (a ∷ b ∷ c ∷ d ∷ []) = refl
sample-absorb_all s (a ∷ b ∷ c ∷ d ∷ e ∷ inputs) =
    sample-absorb_all (duplex_state s (a ∷ b ∷ c ∷ d ∷ [])) (e ∷ inputs)

-- When at most four scalars wait in the sponge, at most four do after absorbing one more.
absorb-n_pending :
    (s : Sponge) (value : E) (tag : ℕ) → n_pending s ≤ 4 → n_pending (absorb s value tag) ≤ 4
unfolding absorb duplex
absorb-n_pending s value tag h =
    let after = λ (b : Bool). length ((if b then duplex s else s).pending ++ (value, tag) ∷ []) in
    elim (Bool-cases (n_pending s == rate_scalars)) [
      | inl p ↦ subst (λ b. after b ≤ 4) (sym p) (omega arith)
      | inr p ↦
          subst (λ b. after b ≤ 4) (sym p)
            (omega (
              arith,
              length-append s.pending ((value, tag) ∷ []),
              ==_false (n_pending s) rate_scalars p,
            ))
    ]
