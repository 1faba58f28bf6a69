-- ===== src/Crypto.antt =====
-- What the program and the client take from the field and hash crates: `ark_bn254::Fr`,
-- `solana_poseidon::hashv` and `solana_keccak_hasher::hashv`.
pub mod Toy
use mathlib.Core.List.{flatten}
use veil.Prelude.{ℕ, ◌+◌, ◌%◌, ◌≤◌, ◌<◌, ◌≡◌, Option, some, List, [], ◌∷◌, length, All, Bool}
use veil.Bytes.{Bytes, IsArray, be_bytes, be_value}

-- The order of the BN254 scalar field, `Fr::MODULUS`.
abbrev pub modulus : ℕ
modulus = 0x30644e72e131a029b85045b68181585d2833e84879b9709143e1f593f0000001

pub record Crypto : Type 1 where
  pub Fr : Type 0
  -- `Fr::from_be_bytes_mod_order`
  pub from_be_bytes_mod_order : Bytes → Fr
  -- `value.into_bigint().to_bytes_be()`
  pub to_bytes_be : Fr → Bytes
  -- `Fr::from` on a `u64` or a `u128`
  pub from_uint : ℕ → Fr
  -- `-value`
  pub neg : Fr → Fr
  -- `solana_poseidon::hashv(Parameters::Bn254X5, Endianness::BigEndian, …)`
  pub poseidon_hashv : List Bytes → Option Bytes
  -- `solana_keccak_hasher::hashv(…).to_bytes()`
  pub keccak_hashv : List Bytes → Bytes

-- The canonical 32-byte encoding of a scalar.
pub record IsScalar (bs : Bytes) : Type 0 where
  pub array : IsArray 32 bs
  pub reduced : be_value bs < modulus

-- The documented behaviour of those crates. Poseidon takes one to twelve scalars; Keccak hashes the
-- concatenation of its slices.
pub record IsCrypto (c : Crypto) : Type 1 where
  pub value : c.Fr → ℕ
  pub value-lt : (x : c.Fr) → value x < modulus
  pub value-from_be_bytes :
      (bs : Bytes) → value (c.from_be_bytes_mod_order bs) ≡ be_value bs % modulus
  pub value-from_uint : (n : ℕ) → value (c.from_uint n) ≡ n % modulus
  pub value-neg : (x : c.Fr) → (value x + value (c.neg x)) % modulus ≡ 0
  pub to_bytes_be-value : (x : c.Fr) → c.to_bytes_be x ≡ be_bytes 32 (value x)
  pub poseidon-IsScalar : (xs : List Bytes) {h : Bytes} → c.poseidon_hashv xs ≡ some h → IsScalar h
  pub poseidon_accepts :
      (xs : List Bytes)
      → 1 ≤ length xs
      → length xs ≤ 12
      → All IsScalar xs
      → (h : Bytes) × (c.poseidon_hashv xs ≡ some h)
  pub keccak_concat : (xs : List Bytes) → c.keccak_hashv xs ≡ c.keccak_hashv (flatten xs ∷ [])
  pub keccak-IsArray : (xs : List Bytes) → IsArray 32 (c.keccak_hashv xs)
