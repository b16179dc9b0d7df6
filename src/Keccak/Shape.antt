-- ===== src/Keccak/Shape.antt =====
-- leanvm-pow/ledger/verifier/src/keccak.rs: the constants of the reduction, and `KeccakShape`.
use hardware_wallet_benchmar.Prelude.{ℕ, List, [], ◌∷◌, ◌-◌, ◌/◌, ◌*◌, ◌^◌}
use hardware_wallet_benchmar.Hash.Permutation.{rounds, state_lanes}
use hardware_wallet_benchmar.Transcript.Placement.{log2_ceil}

abbrev pub pack_bits_const : ℕ
pack_bits_const = 4

abbrev pub pack : ℕ
pack = 2 ^ pack_bits_const

abbrev pub embed_bits : ℕ
embed_bits = 24

abbrev pub product_bits : ℕ
product_bits = 2 * embed_bits - 1

-- a bit position is z + 64 * lane
abbrev pub local_bits : ℕ
local_bits = 11

abbrev pub z_bits : ℕ
z_bits = 6

abbrev pub lane_bits : ℕ
lane_bits = 5

-- the binary polynomial of each of sixteen bits, and the functional that reads each bit back
abbrev pub rmfe_embed : List ℕ
rmfe_embed =
    0x40c50b ∷ 0x7f79f2 ∷ 0x4b4e0a ∷ 0x72740c ∷ 0x5357da ∷ 0x1d1c9e ∷ 0x04be6e ∷ 0x785246 ∷ 0x097cdc
    ∷ 0x109e7e ∷ 0x1f1454 ∷ 0x213cfc ∷ 0x4cfcc8 ∷ 0x775770 ∷ 0x187386 ∷ 0x818a16 ∷ []

abbrev pub rmfe_project : List ℕ
rmfe_project =
    0x1 ∷ 0x7fffffffffff ∷ 0x274e9d3a74e9 ∷ 0x1d3a74e9d3a7 ∷ 0x65cb972e5cb9 ∷ 0x5cb972e5cb97
    ∷ 0x6690aec7cd21 ∷ 0x5d8f9a42bb1f ∷ 0x73485763e690 ∷ 0x3750967c6ea1 ∷ 0x12cf8dd4259f
    ∷ 0x1ba84b3e3750 ∷ 0x0ad0c9f715a1 ∷ 0x064fb8ad0c9f ∷ 0x456864fb8ad0 ∷ 0x400000000000 ∷ []

pub record KeccakShape : Type 0 where
  pub log_steps : ℕ
  pub depth : ℕ

unfoldable pub segments : KeccakShape → ℕ
segments shape = rounds / shape.depth

unfoldable pub pack_bits : KeccakShape → ℕ
pack_bits shape = shape.log_steps - pack_bits_const

unfoldable pub slot_bits : KeccakShape → ℕ
unfolding segments
slot_bits shape = log2_ceil (state_lanes * segments shape)
