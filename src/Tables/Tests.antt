-- ===== src/Tables/Tests.antt =====
-- The tables' theorems at concrete columns.
use hardware_wallet_benchmar.Field.E.{new, zero_e, ◌⊠◌}
use hardware_wallet_benchmar.Tables.Flush.{mul_result}
use hardware_wallet_benchmar.Tables.Product.{mul_row, limbs, mul_result-mul}
use hardware_wallet_benchmar.Prelude.{◌≡◌}

mul_result-mul_example :
    mul_result (mul_row zero_e zero_e zero_e zero_e zero_e (new 2 3 4) (new 5 6 7))
    ≡ limbs (new 2 3 4 ⊠ new 5 6 7)
mul_result-mul_example = mul_result-mul zero_e zero_e zero_e zero_e zero_e (new 2 3 4) (new 5 6 7)
