-- ===== src/Field/Tests.antt =====
-- The reference vectors of field.rs.
use hardware_wallet_benchmar.Prelude.{refl, ◌≡◌, u64, arith, ℕ, ◌^◌, ◌<◌}
use hardware_wallet_benchmar.Field.Clmul
use hardware_wallet_benchmar.Field.Clmul.{
  clmul, reduce, spread, base_mul, clmul64, clmul32, class_sum,
}
use hardware_wallet_benchmar.Field.K
use hardware_wallet_benchmar.Field.E.{
  E, new, ◌⊠◌, square, inv, frobenius, one_e, gen, times_monomial, monomial,
}
use hardware_wallet_benchmar.Field.E.Embed.{times_monomial-mul}
use hardware_wallet_benchmar.Field.E.Laws.{IsElement}
use hardware_wallet_benchmar.Field.E.Associative.{mul_assoc}
use hardware_wallet_benchmar.Bits.Poly.{◌⊗◌}
use hardware_wallet_benchmar.Field.Clmul.Correct.{clmul32-eq-times}
use hardware_wallet_benchmar.Field.E.Schoolbook.{product_c0, product_c1, product_c2, mul_schoolbook}
use hardware_wallet_benchmar.Field.Clmul.Words.{clmul-eq-times}
use hardware_wallet_benchmar.Field.Clmul.Reduce.{modulus, reduce_remainder}
use hardware_wallet_benchmar.Bits.Xor.{◌⊕◌}

base_mul_vector : base_mul 0x01090913877ed8ed 0x66ab35ac2768468f ≡ 0x50c4519dc383744a
unfolding base_mul reduce clmul clmul64 clmul32 class_sum
base_mul_vector = refl

abbrev a_vector : E
a_vector = new 0x950e87d7f5606615 0x2c61275c9e6b6cf8 0x1f00bca0042db923

mul_vector :
    a_vector ⊠ new 0x6dbca290a9eab706 0x4c10a4fe30cffdda 0xf26fff4cc4fd394d
    ≡ new 0x888a0fc35abaf5f6 0x68a84cbc132b0649 0x9fdeaf613003cabe
unfolding ◌⊠◌ reduce clmul Clmul.clmul64 Clmul.clmul32 Clmul.class_sum
mul_vector = refl

square_vector : square a_vector ≡ new 0x8fba131ad5d46b8c 0x1c170457f537a805 0x3632cc098ca15135
unfolding square reduce spread
square_vector = refl

inv_vector : a_vector ⊠ inv a_vector ≡ one_e
unfolding ◌⊠◌ inv frobenius reduce clmul Clmul.clmul64 Clmul.clmul32 Clmul.class_sum spread base_mul
    K.inv K.sq K.mul K.square
inv_vector = refl

clmul32-eq-times_example : clmul32 0xDEADBEEF 0x12345678 ≡ 0xDEADBEEF ⊗ 0x12345678
clmul32-eq-times_example = clmul32-eq-times 0xDEADBEEF 0x12345678 (omega arith) (omega arith)

clmul-eq-times_example : clmul 0xDEADBEEF01234567 3 ≡ u64 0xDEADBEEF01234567 ⊗ u64 3
clmul-eq-times_example = clmul-eq-times 0xDEADBEEF01234567 3

a_vector-IsElement : IsElement a_vector
a_vector-IsElement = record { word0 = omega arith; word1 = omega arith; word2 = omega arith }

mul_schoolbook_example :
    a_vector ⊠ gen
    ≡ new (product_c0 a_vector gen) (product_c1 a_vector gen) (product_c2 a_vector gen)
mul_schoolbook_example = mul_schoolbook a_vector gen

times_monomial-mul_example : times_monomial a_vector 63 ≡ a_vector ⊠ monomial 63
times_monomial-mul_example = times_monomial-mul a_vector 63 a_vector-IsElement (omega arith)

reduce_remainder_example :
    (q : ℕ) × (q ⊗ modulus ⊕ reduce (2 ^ 127) ≡ 2 ^ 127) × (reduce (2 ^ 127) < 2 ^ 64)
reduce_remainder_example = reduce_remainder (2 ^ 127) (omega arith)

gen-IsElement : IsElement gen
gen-IsElement = record { word0 = omega arith; word1 = omega arith; word2 = omega arith }

mul_assoc_example : (a_vector ⊠ gen) ⊠ a_vector ≡ a_vector ⊠ (gen ⊠ a_vector)
mul_assoc_example =
    mul_assoc a_vector gen a_vector a_vector-IsElement gen-IsElement a_vector-IsElement
