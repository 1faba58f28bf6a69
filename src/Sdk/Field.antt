-- ===== src/Sdk/Field.antt =====
-- crates/veil402-sdk/src/protocol/encoding.rs and field.rs: canonical field elements and secrets.
pub mod Laws
pub mod Random
use veil.Prelude.{
  ℕ, zero, suc, ◌-◌, Bool, true, false, not, ◌&&◌, Option, none, some, List, ◌++◌, ◌≡◌, length,
  replicate, if◌then◌else◌,
}
use veil.Prelude.Int.{ℤ, unsigned_abs, is_negative}
use veil.Prelude.Res.{Result, ok, err, ok_or, ◌>>=◌}
use veil.Bytes.{Bytes, IsArray, bytes_eq, be_bytes}
use veil.Crypto.{Crypto}
use veil.Sdk.Error as Error
use veil.Sdk.Error.{Res, out_of_fuel}

-- `RngCore`: a number of bytes, or a failure.
pub record Rng : Type 1 where
  pub State : Type 0
  pub try_fill_bytes : ℕ → State → Option (Bytes × State)

-- It fills the whole buffer, with bytes.
pub record IsRng (g : Rng) : Type 0 where
  pub fills :
      (n : ℕ) (s : g.State) {bs : Bytes} {s' : g.State}
      → g.try_fill_bytes n s ≡ some (bs, s')
      → IsArray n bs

-- `Field`, and `Secret`, which holds the same 32 bytes.
abbrev pub Field : Type 0
Field = Bytes

abbrev pub zero_field : Field
zero_field = replicate 32 0

unfoldable pub from_raw_u64 : ℕ → Field
unfolding be_bytes
from_raw_u64 value = replicate 24 0 ++ be_bytes 8 value

module _ (c : Crypto) where
  -- The bytes at the end of a zeroed array of 32.
  unfoldable pub field_bytes : c.Fr → Bytes
  field_bytes value = let bytes = c.to_bytes_be value in replicate (32 - length bytes) 0 ++ bytes

  unfoldable pub parse_field : Bytes → Option c.Fr
  unfolding field_bytes
  parse_field encoded =
      let value = c.from_be_bytes_mod_order encoded in
      if bytes_eq (field_bytes value) encoded then some value else none

  unfoldable pub from_bytes : Bytes → Res Field
  unfolding parse_field
  from_bytes bytes = do _ ← ok_or (parse_field bytes) Error.field; ok bytes

  unfoldable pub from_fr : c.Fr → Field
  unfolding field_bytes
  from_fr value = field_bytes value

  unfoldable pub from_signed : ℤ → Field
  unfolding from_fr
  from_signed value =
      let magnitude = c.from_uint (unsigned_abs value) in
      from_fr (if is_negative value then c.neg magnitude else magnitude)

  -- `Field::from` on a `u64`
  unfoldable pub from_u64 : ℕ → Field
  unfolding from_fr
  from_u64 value = from_fr (c.from_uint value)

  module _ (rng : Rng) where
    abbrev pub is_ok {ℓ} : {A : Type ℓ} → Res A → Bool
    is_ok (ok a) = true
    is_ok (err e) = false

    -- The loop, with fuel for its passes.
    unfoldable pub random : ℕ → rng.State → Res (Field × rng.State)
    unfolding from_bytes
    random zero s = err out_of_fuel
    random (suc fuel) s = do
      (bytes, s') ← ok_or (rng.try_fill_bytes 32 s) Error.random
      let again = random fuel s'
      if is_ok (from_bytes bytes) && not (bytes_eq bytes zero_field) then ok (bytes, s') else again
