-- ===== src/Sdk/Field/Laws.antt =====
-- The client's field encodings are the program's.
use veil.Prelude.{◌≡◌, refl}
use veil.Prelude.Int.{ℤ}
use veil.Bytes.Laws.{length-be_bytes}
use veil.Crypto.{Crypto, IsCrypto}
use veil.Program.Field as Program
use veil.Sdk.Field.{field_bytes, from_fr, from_signed}

module _ (c : Crypto) (C : IsCrypto c) where
  pub field_bytes-eq : (x : c.Fr) → field_bytes c x ≡ Program.field_bytes c x
  unfolding field_bytes Program.field_bytes
  field_bytes-eq x = rw (C.to_bytes_be-value x, length-be_bytes 32 (C.value x)) refl

  pub from_fr-eq : (x : c.Fr) → from_fr c x ≡ Program.field_bytes c x
  unfolding from_fr
  from_fr-eq x = field_bytes-eq x

  pub from_signed-eq : (a : ℤ) → from_signed c a ≡ Program.public_amount_field c a
  unfolding from_signed Program.public_amount_field
  from_signed-eq a = from_fr-eq _
