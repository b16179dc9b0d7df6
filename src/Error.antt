-- ===== src/Error.antt =====
-- leanvm-pow/ledger/verifier/src/lib.rs: `enum Error`, `Result<_, Error>`, `?` and `require`.
use hardware_wallet_benchmar.Prelude.{ℕ, Bool, true, false, ◌≡◌, ◌≢◌, refl, ap}

-- why a proof was rejected
pub data Error : Type 0 where
  digest_half multilinear_size not_power_of_two stream_exhausted stream_not_consumed : Error
  grinding_nonce merkle_opening_shape merkle_root_mismatch gkr_layer bus_count_zero : Error
  table_sumcheck_terminal announced_table_sizes announced_high_limb pcs_inverse_rate : Error
  committed_size whir_shape query_count_ladder whir_terminal keccak_product keccak_layer : Error
  keccak_output_opening keccak_input_opening transport : Error

-- `#[repr(u8)]`: the code of each, from 1 up
unfoldable pub code : Error → ℕ
code digest_half = 1
code multilinear_size = 2
code not_power_of_two = 3
code stream_exhausted = 4
code stream_not_consumed = 5
code grinding_nonce = 6
code merkle_opening_shape = 7
code merkle_root_mismatch = 8
code gkr_layer = 9
code bus_count_zero = 10
code table_sumcheck_terminal = 11
code announced_table_sizes = 12
code announced_high_limb = 13
code pcs_inverse_rate = 14
code committed_size = 15
code whir_shape = 16
code query_count_ladder = 17
code whir_terminal = 18
code keccak_product = 19
code keccak_layer = 20
code keccak_output_opening = 21
code keccak_input_opening = 22
code transport = 23

pub data Result {ℓ} (A : Type ℓ) : Type ℓ where
  ok : A → Result A
  err : Error → Result A

infixl 5 ◌>>=◌ ◌>>◌
abbrev pub ◌>>=◌ {ℓ κ} :
    {A : Type ℓ} {B : Type κ} (first : Result A) (next : (a : A) → Result B) → Result B
err error >>= next = err error
ok a >>= next = next a

abbrev pub ◌>>◌ {ℓ} : {B : Type ℓ} (first : Result (Unit {0})) (rest : Result B) → Result B
first >> rest = first >>= λ _. rest

abbrev pub require : Bool → Error → Result (Unit {0})
require true error = ok tt
require false error = err error

pub ok-inj {ℓ} : {A : Type ℓ} {a b : A} → Result.ok a ≡ Result.ok b → a ≡ b
ok-inj {a = a} p = ap (λ r. elim r [ ok x ↦ x | err _ ↦ a ]) p

pub err_ne-ok {ℓ} : {A : Type ℓ} {e : Error} {a : A} → Result.err e ≢ Result.ok a
err_ne-ok p = cc

-- What returns after `?` had a value before it.
pub result-bind_ok {ℓ κ} :
    {A : Type ℓ} {B : Type κ} (m : Result A) (f : A → Result B) (b : B)
    → (m >>= f) ≡ ok b
    → (a : A) × (m ≡ ok a) × (f a ≡ ok b)
result-bind_ok (ok a) f b e = (a, refl, e)
result-bind_ok (err e') f b e = absurd (err_ne-ok e)

pub require-true : (b : Bool) (error : Error) → require b error ≡ ok tt → b ≡ true
require-true true error e = refl
require-true false error e = absurd (err_ne-ok e)
