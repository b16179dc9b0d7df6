-- ===== src/Transcript/Sponge.antt =====
-- `struct Sponge`: scalars wait until the rate is full or a challenge is drawn.
use hardware_wallet_benchmar.Prelude.{
  ℕ, List, [], ◌∷◌, for_range, if◌then◌else◌, ◌+◌, get_or, length, ◌++◌, ◌==◌, ◌*◌,
}
use hardware_wallet_benchmar.Hash.State.{State, permute, set_lane, lane, zero_state}
use hardware_wallet_benchmar.Hash.Digest.{Digest, words}
use hardware_wallet_benchmar.Field.E.{E, new, zero_e}

abbrev pub ds_observe : ℕ
ds_observe = 1

abbrev pub ds_pow_nonce : ℕ
ds_pow_nonce = 4

abbrev pub rate_scalars : ℕ
rate_scalars = 4

-- `pending[..n_pending]`, the only part of the array that is read
pub record Sponge : Type 0 where
  pub state : State
  pub pending : List (E × ℕ)

abbrev pub n_pending : Sponge → ℕ
n_pending s = length s.pending

-- `state.set_lane(i, word)` for each word in turn
unfoldable pub set_lanes : ℕ → List ℕ → State → State
set_lanes i [] s = s
set_lanes i (w ∷ ws) s = set_lanes (i + 1) ws (set_lane s i w)

unfoldable pub start : Digest → Digest → Sponge
start fiat_shamir_iv public_input = record {
  state = permute (set_lanes 0 (words fiat_shamir_iv ++ words public_input) zero_state);
  pending = [];
}

-- the four lanes of a waiting scalar with its tag; zeros where none waits
abbrev pub scalar_lanes : E × ℕ → List ℕ
scalar_lanes p = p.0.c0 ∷ p.0.c1 ∷ p.0.c2 ∷ p.1 ∷ []

abbrev pub waiting : List (E × ℕ) → ℕ → E × ℕ
waiting pending i = get_or pending i (zero_e, 0)

unfoldable pub duplex_state : State → List (E × ℕ) → State
unfolding for_range set_lanes
duplex_state s pending =
    permute (for_range 4 0 (λ i t. set_lanes (4 * i) (scalar_lanes (waiting pending i)) t) s)

unfoldable pub duplex : Sponge → Sponge
duplex s = record { state = duplex_state s.state s.pending; pending = [] }

unfoldable pub absorb : Sponge → E → ℕ → Sponge
absorb s value tag =
    let s' = if n_pending s == rate_scalars then duplex s else s in
    record s' { pending = s'.pending ++ (value, tag) ∷ [] }

unfoldable pub sample : Sponge → E × Sponge
sample s = let s' = duplex s in (new (lane s'.state 0) (lane s'.state 1) (lane s'.state 2), s')
