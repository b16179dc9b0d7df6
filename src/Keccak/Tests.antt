-- ===== src/Keccak/Tests.antt =====
-- The embedding at concrete words.
use hardware_wallet_benchmar.Keccak.Shape.{rmfe_embed, rmfe_project}
use hardware_wallet_benchmar.Keccak.Rmfe.{project-embed, project_by, embed_by}
use hardware_wallet_benchmar.Bits.Poly.{◌⊗◌}
use hardware_wallet_benchmar.Prelude.{◌≡◌, bit_and, arith, List, replicate}
use hardware_wallet_benchmar.Keccak.Weights.{lane0_sum, layer, lane0_weight, z_kernel}
use hardware_wallet_benchmar.Field.E.{E, gen, zero_e}
use hardware_wallet_benchmar.Keccak.Iota.{bit_sum, lane0_sum-bit_sum}

project-embed_example :
    project_by rmfe_project (embed_by rmfe_embed 0xBEEF ⊗ embed_by rmfe_embed 0x1234)
    ≡ bit_and 0xBEEF 0x1234
project-embed_example = project-embed 0xBEEF 0x1234 (omega arith) (omega arith)

abbrev row : List E
row = replicate 25 gen

lane0_sum-bit_sum_example :
    lane0_sum (layer (replicate 6 gen) row) 0x8000000080008008
    ≡ bit_sum 64 0 (lane0_weight (z_kernel (replicate 6 gen)) row) 0x8000000080008008 zero_e
lane0_sum-bit_sum_example = lane0_sum-bit_sum (replicate 6 gen) row 0x8000000080008008 (omega arith)
