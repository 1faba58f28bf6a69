-- ===== src/Program/Field/Amount.antt =====
-- The public amount as a field element.
use veil.Prelude.{ℕ, ◌+◌, ◌%◌, ◌<◌, ◌^◌, ◌≡◌, ◌↔◌, ap, arith, suc}
use veil.Prelude.Int.{ℤ, pos, negsuc, pos_part, neg_part, ◌+ℤ◌, IsI64, eq_of_parts, +ℤ_parts}
use veil.Bytes.{be_value}
use veil.Crypto.{Crypto, IsCrypto, IsScalar, modulus}
use veil.Program.Field.{public_amount_field}
use veil.Program.Field.Canonical.{be_value-field_bytes, field_bytes-IsScalar}

module _ (c : Crypto) (C : IsCrypto c) where
  pub public_amount_field-IsScalar : (a : ℤ) → IsScalar (public_amount_field c a)
  unfolding public_amount_field
  public_amount_field-IsScalar a = field_bytes-IsScalar c C _

  -- Modulo the field order the encoding stands for the signed amount.
  public_amount_field_value :
      (a : ℤ) → IsI64 a → (be_value (public_amount_field c a) + neg_part a) % modulus ≡ pos_part a
  unfolding public_amount_field
  public_amount_field_value (pos n) h =
      omega (arith, be_value-field_bytes c C (c.from_uint n), C.value-from_uint n)
  public_amount_field_value (negsuc n) h = omega (
    arith,
    be_value-field_bytes c C (c.neg (c.from_uint (suc n))),
    C.value-from_uint (suc n),
    C.value-neg (c.from_uint (suc n)),
  )

  -- Two different `i64` amounts never share an encoding.
  public_amount_field-injective :
      (a b : ℤ) → IsI64 a → IsI64 b → public_amount_field c a ≡ public_amount_field c b → a ≡ b
  public_amount_field-injective a b ha hb e = eq_of_parts a b (
      omega (
        arith,
        ap be_value e,
        (public_amount_field-IsScalar a).reduced,
        public_amount_field_value a ha,
        public_amount_field_value b hb,
      ))

  -- The circuit's balance equation in the field is the balance of integers: for sums of two `u64`
  -- inputs and two `u64` outputs, adding the encoded amount to the inputs gives the outputs modulo
  -- the field order exactly when the signed amount does over the integers.
  pub public_amount_conserves :
      (a : ℤ) (inputs outputs : ℕ)
      → IsI64 a
      → inputs < 2 ^ 65
      → outputs < 2 ^ 65
      → ((inputs + be_value (public_amount_field c a)) % modulus ≡ outputs % modulus)
        ↔ (pos inputs +ℤ a ≡ pos outputs)
  public_amount_conserves a inputs outputs ha hi ho = (
    λ e. eq_of_parts (pos inputs +ℤ a) (pos outputs) (
        omega (
          arith,
          +ℤ_parts (pos inputs) a,
          (public_amount_field-IsScalar a).reduced,
          public_amount_field_value a ha,
        )),
    λ e. omega (
      arith,
      ap pos_part e,
      ap neg_part e,
      +ℤ_parts (pos inputs) a,
      (public_amount_field-IsScalar a).reduced,
      public_amount_field_value a ha,
    ),
  )
