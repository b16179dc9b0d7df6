-- ===== src/Field/K.antt =====
-- `struct K(pub u64)`, the field with 2^64 elements, as its word.
use hardware_wallet_benchmar.Prelude.{ℕ, zero, suc}
use hardware_wallet_benchmar.Bits.Xor.{◌⊕◌}
use hardware_wallet_benchmar.Field.Clmul.{spread, reduce, base_mul}

abbrev pub K : Type 0
K = ℕ

unfoldable pub add : K → K → K
add a b = a ⊕ b

unfoldable pub mul : K → K → K
mul a b = base_mul a b

unfoldable pub square : K → K
square a = reduce (spread a)

-- the closure `sq`: `n` squarings
unfoldable pub sq : K → ℕ → K
sq v zero = v
sq v (suc n) = sq (square v) n

unfoldable pub inv : K → K
inv t1 =
    let t2 = mul (sq t1 1) t1 in
    let t3 = mul (sq t2 1) t1 in
    let t6 = mul (sq t3 3) t3 in
    let t12 = mul (sq t6 6) t6 in
    let t24 = mul (sq t12 12) t12 in
    let t48 = mul (sq t24 24) t24 in
    let t60 = mul (sq t48 12) t12 in let t63 = mul (sq t60 3) t3 in sq t63 1
