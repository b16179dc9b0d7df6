-- ===== src/Hash/State.antt =====
-- `struct State` in its portable form: the lanes, as they are.
use hardware_wallet_benchmar.Prelude.{ℕ, List, set}
use hardware_wallet_benchmar.Hash.Permutation
use hardware_wallet_benchmar.Hash.Permutation.{zero_lanes, keccak_f}
use hardware_wallet_benchmar.Bits.Xor.{◌⊕◌}

abbrev pub State : Type 0
State = List ℕ

-- `State::ZERO`
abbrev pub zero_state : State
zero_state = zero_lanes

unfoldable pub permute : State → State
permute s = keccak_f s

abbrev pub lane : State → ℕ → ℕ
lane s i = Permutation.lane s i

abbrev pub xor_lane : State → ℕ → ℕ → State
xor_lane s i value = set s i (lane s i ⊕ value)

abbrev pub set_lane : State → ℕ → ℕ → State
set_lane s i value = set s i value
