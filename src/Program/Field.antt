-- ===== src/Program/Field.antt =====
-- onchain/programs/pool/src/utils.rs: hashes and field encodings of the program.
pub mod Canonical
pub mod Amount
use veil.Prelude.{ℕ, Bool, ◌++◌, [], ◌∷◌, List, take, drop, replicate, if◌then◌else◌}
use veil.Prelude.Int.{ℤ, unsigned_abs, is_negative}
use veil.Prelude.Res.{ok_or}
use veil.Bytes.{Bytes, bytes_eq, be_bytes}
use veil.Crypto.{Crypto}
use veil.Program.Error.{Res, invalid_argument}

abbrev pub asset_domain : ℕ
asset_domain = 7

unfoldable pub u64_be32 : ℕ → Bytes
unfolding be_bytes
u64_be32 value = replicate 24 0 ++ be_bytes 8 value

unfoldable pub split32 : Bytes → Bytes × Bytes
split32 bytes = (replicate 16 0 ++ take 16 bytes, replicate 16 0 ++ drop 16 bytes)

module _ (c : Crypto) where
  unfoldable pub poseidon : List Bytes → Res Bytes
  poseidon values = ok_or (c.poseidon_hashv values) invalid_argument

  unfoldable pub field_bytes : c.Fr → Bytes
  field_bytes value = c.to_bytes_be value

  unfoldable pub keccak_field : List Bytes → Bytes
  unfolding field_bytes
  keccak_field values = field_bytes (c.from_be_bytes_mod_order (c.keccak_hashv values))

  unfoldable pub is_canonical_field : Bytes → Bool
  unfolding field_bytes
  is_canonical_field bytes = bytes_eq (field_bytes (c.from_be_bytes_mod_order bytes)) bytes

  unfoldable pub asset_id : Bytes → Res Bytes
  unfolding poseidon u64_be32 split32
  asset_id mint =
      let (high, low) = split32 mint in poseidon (u64_be32 asset_domain ∷ high ∷ low ∷ [])

  unfoldable pub public_amount_field : ℤ → Bytes
  unfolding field_bytes
  public_amount_field amount =
      let magnitude = c.from_uint (unsigned_abs amount) in
      field_bytes (if is_negative amount then c.neg magnitude else magnitude)
