-- ===== src/Sdk/Agreement/Binding.antt =====
-- crates/veil402-sdk/src/solana/binding.rs against `asset_id` and `ExtData::hash` of the program.
use veil.Prelude.{
  ℕ, zero, suc, ◌^◌, ◌<◌, ◌≡◌, ◌↔◌, refl, sym, ap, ◌∙◌, List, ◌++◌, take, drop, replicate, All,
  All-append, All-take, All-drop, length-append, length-take_le, length-drop, arith,
}
use native.Mathlib.Nat.{lt_trans}
use veil.Prelude.Int.{ℤ}
use veil.Prelude.Res.{ok, ok_or, bind_inv, ok-injective, ok_or-eq-ok}
use veil.Bytes.{Bytes, IsByte, IsArray, be_value, be_value_from}
use veil.Bytes.Laws.{be_value-lt}
use veil.Crypto.{Crypto, IsCrypto, IsScalar}
use veil.Program.Field as Program
use veil.Program.Field.Canonical.{is_canonical_field_iff}
use veil.Program.Runtime.{Pubkey, Runtime}
use veil.Program.State.{program_id}
use veil.Program.Transact as Chain
use veil.Sdk.Error as Error
use veil.Sdk.Field as Sdk
use veil.Sdk.Field.{Field, field_bytes, from_bytes, from_fr, parse_field}
use veil.Sdk.Field.Laws.{field_bytes-eq, from_fr-eq}
use veil.Sdk.Note.{poseidon}
use veil.Sdk.Solana.{Pool, External, asset, bind, external_parts, payload_length_bytes}

-- The public data as the program has it.
abbrev pub ext_data : External → Chain.ExtData
ext_data external = record { recipient = external.recipient; encrypted_notes = external.encrypted }

module _ (c : Crypto) (C : IsCrypto c) where
  -- Parsing accepts exactly the canonical scalars.
  from_bytes-IsScalar : (bs : Bytes) → IsScalar bs → from_bytes c bs ≡ ok bs
  unfolding from_bytes parse_field Program.is_canonical_field
  from_bytes-IsScalar bs h =
      let e = (is_canonical_field_iff c C bs h.array).1 h.reduced in
      rw (field_bytes-eq c C (c.from_be_bytes_mod_order bs), e) refl

  from_bytes-eq-ok : (bs : Bytes) {h : Bytes} → from_bytes c bs ≡ ok h → bs ≡ h
  unfolding from_bytes
  from_bytes-eq-ok bs e =
      bind_inv (ok_or (parse_field c bs) Error.field) _ e λ v e0 e1. ok-injective _ _ e1

  -- Both hash functions succeed on the same inputs, with the same value.
  pub poseidon-eq-ok :
      (xs : List Bytes) {h : Bytes} → (poseidon c xs ≡ ok h) ↔ (Program.poseidon c xs ≡ ok h)
  unfolding poseidon Program.poseidon
  poseidon-eq-ok xs {h} = (
    λ e.
        bind_inv (ok_or (c.poseidon_hashv xs) Error.poseidon) _ e
          λ hash e0 e1. rw (ok_or-eq-ok _ _ e0, from_bytes-eq-ok hash e1) refl,
    λ e.
        let found = ok_or-eq-ok (c.poseidon_hashv xs) _ e in
        rw found (from_bytes-IsScalar h (C.poseidon-IsScalar xs found)),
  )

be_value-replicate : (n : ℕ) (bs : Bytes) → be_value (replicate n 0 ++ bs) ≡ be_value bs
unfolding be_value be_value_from
be_value-replicate zero bs = refl
be_value-replicate (suc n) bs = be_value-replicate n bs

zeros-IsByte : (n : ℕ) → All IsByte (replicate n 0)
zeros-IsByte zero = tt
zeros-IsByte (suc n) = (omega arith, zeros-IsByte n)

-- Sixteen bytes behind sixteen zeros are a scalar.
half-IsScalar : (bs : Bytes) → IsArray 16 bs → IsScalar (replicate 16 0 ++ bs)
half-IsScalar bs h = record {
  array = record {
    size = omega (arith, length-append (replicate 16 0) bs, h.size);
    bytes = All-append IsByte (replicate 16 0) bs (zeros-IsByte 16) h.bytes;
  };
  reduced =
      let small : be_value bs < 256 ^ 16 = rw h.size at (be_value-lt bs h.bytes) in
      rw (be_value-replicate 16 bs) (lt_trans small (omega arith));
}

module _ (r : Runtime) (C : IsCrypto r.crypto) where
  -- For a 32-byte mint the client derives an asset identifier exactly when the program does, and the
  -- same one.
  pub asset-eq-asset_id :
      (mint : Pubkey) {a : Field}
      → IsArray 32 mint
      → (asset r mint ≡ ok a) ↔ (Program.asset_id r.crypto mint ≡ ok a)
  unfolding asset Program.asset_id Program.split32 Program.u64_be32 Sdk.from_raw_u64
  asset-eq-asset_id mint {a} h =
      let high = half-IsScalar (take 16 mint) (record {
        size = length-take_le 16 mint (omega (arith, h.size));
        bytes = All-take IsByte 16 mint h.bytes;
      }) in
      let low = half-IsScalar (drop 16 mint) (record {
        size = omega (arith, length-drop 16 mint, h.size);
        bytes = All-drop IsByte 16 mint h.bytes;
      }) in
      rw (from_bytes-IsScalar r.crypto C _ high, from_bytes-IsScalar r.crypto C _ low)
        (poseidon-eq-ok r.crypto C _)

  payload_length_bytes-eq-ok :
      (note : Bytes) {l : Bytes}
      → (payload_length_bytes note ≡ ok l) ↔ (Chain.note_length note ≡ ok l)
  unfolding payload_length_bytes Chain.note_length
  payload_length_bytes-eq-ok note = ground arith

  digest_reduced :
      (pool : Pool) (external : External) (amount : ℤ) (l0 l1 : Bytes)
      → pool.program ≡ program_id
      → from_fr r.crypto (
          r.crypto.from_be_bytes_mod_order
            (r.crypto.keccak_hashv (external_parts r pool external amount l0 l1)))
        ≡ Program.keccak_field r.crypto (
            Chain.binding_parts
              (ext_data external)
              pool.domain
              pool.address
              pool.mint
              pool.verifier
              amount
              l0
              l1)
  unfolding external_parts Chain.binding_parts Program.keccak_field
  digest_reduced pool external amount l0 l1 own = rw own (from_fr-eq r.crypto C _)

  -- For a pool of this program the client computes an external data hash exactly when the program
  -- does, and the same one.
  pub bind-eq-ext_data_hash :
      (pool : Pool) (external : External) (amount : ℤ) {h : Field}
      → pool.program ≡ program_id
      → (bind r pool external amount ≡ ok h) ↔ (
          Chain.ext_data_hash r
            (ext_data external)
            pool.domain
            pool.address
            pool.mint
            pool.verifier
            amount
          ≡ ok h)
  unfolding bind Chain.ext_data_hash
  bind-eq-ext_data_hash pool external amount {h} own = (
    λ e. bind_inv (payload_length_bytes external.encrypted.0) _ e λ l0 e0 h0.
        bind_inv (payload_length_bytes external.encrypted.1) _ h0 λ l1 e1 h1.
          rw ((payload_length_bytes-eq-ok _).0 e0, (payload_length_bytes-eq-ok _).0 e1)
            (ap ok (sym (digest_reduced pool external amount l0 l1 own) ∙ ok-injective _ _ h1)),
    λ e. bind_inv (Chain.note_length external.encrypted.0) _ e λ l0 e0 h0.
        bind_inv (Chain.note_length external.encrypted.1) _ h0 λ l1 e1 h1.
          rw ((payload_length_bytes-eq-ok _).1 e0, (payload_length_bytes-eq-ok _).1 e1)
            (ap ok (digest_reduced pool external amount l0 l1 own ∙ ok-injective _ _ h1)),
  )
