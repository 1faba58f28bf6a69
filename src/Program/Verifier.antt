-- ===== src/Program/Verifier.antt =====
-- onchain/programs/pool/src/verifier.rs: the public witness and the call of the verifier program.
pub mod Encoding
use veil.Prelude.{
  ℕ, ◌+◌, ◌*◌, Bool, List, [], ◌∷◌, ◌++◌, length, take, drop, replicate, leb, if◌then◌else◌,
}
use veil.Prelude.Res.{require}
use veil.Bytes.{Bytes, be_bytes}
use veil.Program.Error.{Res, pool_error, invalid_proof}
use veil.Program.Runtime.{Pubkey, Runtime}

abbrev pub field_size : ℕ
field_size = 32

abbrev pub gnark_header_bytes : ℕ
gnark_header_bytes = 12

-- `7u32.to_be_bytes()`
abbrev pub public_input_count_be : Bytes
public_input_count_be = 0 ∷ 0 ∷ 0 ∷ 7 ∷ []

abbrev pub witness_size : ℕ
witness_size = 236

pub record PublicInputs : Type 0 where
  pub root : Bytes
  pub nullifiers : Bytes × Bytes
  pub commitments : Bytes × Bytes
  pub amount : Bytes
  pub external_data_hash : Bytes

-- `buffer[offset..offset + source.len()].copy_from_slice(source)`
unfoldable pub copy_at : ℕ → Bytes → Bytes → Bytes
copy_at offset source buffer = take offset buffer ++ source ++ drop (offset + length source) buffer

-- The loop over `buffer.chunks_exact_mut(FIELD_BYTES).zip(fields)`: a short remainder is no chunk.
unfoldable pub fill_chunks : Bytes → List Bytes → Bytes
fill_chunks buffer [] = buffer
fill_chunks buffer (field ∷ fields) =
    let rest = fill_chunks (drop field_size buffer) fields in
    if leb field_size (length buffer) then field ++ rest else buffer

unfoldable pub input_fields : PublicInputs → List Bytes
input_fields p =
    p.root ∷ p.nullifiers.0 ∷ p.nullifiers.1 ∷ p.commitments.0 ∷ p.commitments.1 ∷ p.amount
    ∷ p.external_data_hash ∷ []

unfoldable pub encode : PublicInputs → Bytes
unfolding copy_at fill_chunks input_fields
encode p =
    let counted =
      copy_at 8 public_input_count_be
        (copy_at 0 public_input_count_be (replicate witness_size 0)) in
    take gnark_header_bytes counted
    ++ fill_chunks (drop gnark_header_bytes counted) (input_fields p)

unfoldable pub verify : Runtime → PublicInputs → Pubkey → Bytes → Res (Unit {0})
unfolding encode
verify r p verifier proof =
    require (r.invoke verifier (proof ++ encode p)) (pool_error invalid_proof)
