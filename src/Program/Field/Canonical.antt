-- ===== src/Program/Field/Canonical.antt =====
-- What counts as a canonical field element.
use veil.Prelude.{ℕ, ◌%◌, ◌<◌, ◌≡◌, ◌↔◌, ◌∙◌, ap, true, arith}
use native.Mathlib.Nat.{mod-eq_of_lt}
use veil.Bytes.{Bytes, IsArray, bytes_eq_iff, be_bytes, be_value}
use veil.Bytes.Laws.{be_bytes-IsArray, be_value-be_bytes, be_bytes-be_value}
use veil.Crypto.{Crypto, IsCrypto, IsScalar, modulus}
use veil.Program.Field.{field_bytes, is_canonical_field}

pub be_bytes-IsScalar : (n : ℕ) → n < modulus → IsScalar (be_bytes 32 n)
be_bytes-IsScalar n h = record {
  array = be_bytes-IsArray 32 n;
  reduced = rw (be_value-be_bytes 32 n (omega arith)) h;
}

module _ (c : Crypto) (C : IsCrypto c) where
  pub be_value-field_bytes : (x : c.Fr) → be_value (field_bytes c x) ≡ C.value x
  unfolding field_bytes
  be_value-field_bytes x =
      rw (C.to_bytes_be-value x) (be_value-be_bytes 32 _ (omega (arith, C.value-lt x)))

  pub field_bytes-IsScalar : (x : c.Fr) → IsScalar (field_bytes c x)
  unfolding field_bytes
  field_bytes-IsScalar x = rw (C.to_bytes_be-value x) (be_bytes-IsScalar (C.value x) (C.value-lt x))

  reencode :
      (bs : Bytes)
      → field_bytes c (c.from_be_bytes_mod_order bs) ≡ be_bytes 32 (be_value bs % modulus)
  unfolding field_bytes
  reencode bs = C.to_bytes_be-value _ ∙ ap (be_bytes 32) (C.value-from_be_bytes bs)

  -- An array is accepted as a field element exactly when it stands for a number below the modulus.
  pub is_canonical_field_iff :
      (bs : Bytes) → IsArray 32 bs → (is_canonical_field c bs ≡ true) ↔ (be_value bs < modulus)
  unfolding is_canonical_field
  is_canonical_field_iff bs a = (
    λ e. rw (← (bytes_eq_iff _ _).0 e) (rw be_value-field_bytes (C.value-lt _)),
    λ h.
        (bytes_eq_iff _ _).1
          (reencode bs ∙ ap (be_bytes 32) (mod-eq_of_lt h) ∙ be_bytes-be_value 32 bs a),
  )

  -- Whatever is accepted is a 32-byte scalar.
  pub is_canonical_field-IsScalar : (bs : Bytes) → is_canonical_field c bs ≡ true → IsScalar bs
  unfolding is_canonical_field
  is_canonical_field-IsScalar bs e =
      rw ((bytes_eq_iff _ _).0 e) at (field_bytes-IsScalar (c.from_be_bytes_mod_order bs))
