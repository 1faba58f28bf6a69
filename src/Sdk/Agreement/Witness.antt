-- ===== src/Sdk/Agreement/Witness.antt =====
-- crates/veil402-sdk/src/protocol/transaction.rs (`PublicInputs::witness_bytes`) against
-- onchain/programs/pool/src/verifier.rs (`PublicInputs::encode`).
use mathlib.Core.List.{flatten, append_assoc}
use veil.Prelude.{
  ℕ, zero, suc, ◌+◌, ◌*◌, ◌≡◌, refl, sym, ap, ◌∙◌, List, [], ◌∷◌, ◌++◌, length, take, drop, All,
  arith, length-drop, length-append, replicate,
}
use veil.Bytes.{Bytes, IsArray}
use veil.Program.Verifier as Program
use veil.Program.Verifier.Encoding.{gnark_header, encode-layout}
use veil.Sdk.Transaction.{PublicInputs, fields, write_fields, witness_bytes}

-- The same inputs, as the program's structure.
abbrev pub on_chain : PublicInputs → Program.PublicInputs
on_chain p = record {
  root = p.root;
  nullifiers = p.nullifiers;
  commitments = p.commitments;
  amount = p.amount;
  external_data_hash = p.hash;
}

take-append : (n : ℕ) (xs ys : Bytes) → length xs ≡ n → take n (xs ++ ys) ≡ xs
take-append zero [] ys h = refl
take-append zero (x ∷ xs) ys h = absurd (omega arith)
take-append (suc n) [] ys h = absurd (omega arith)
take-append (suc n) (x ∷ xs) ys h = rw (take-append n xs ys (omega arith))

drop-append : (m k : ℕ) (xs ys : Bytes) → m ≡ length xs + k → drop m (xs ++ ys) ≡ drop k ys
drop-append m k [] ys h = ap (λ i. drop i ys) (omega (arith, h))
drop-append zero k (x ∷ xs) ys h = absurd (omega arith)
drop-append (suc m) k (x ∷ xs) ys h = drop-append m k xs ys (omega arith)

-- The loop replaces what is behind the offset by the fields, one after the other.
write_fields-flatten :
    (offset : ℕ) (rest : List Bytes) (before after : Bytes)
    → length before ≡ 12 + offset * 32
    → length after ≡ 32 * length rest
    → All (IsArray 32) rest
    → write_fields offset rest (before ++ after) ≡ before ++ flatten rest
unfolding write_fields flatten
write_fields-flatten offset [] before [] b a h = refl
write_fields-flatten offset [] before (x ∷ after) b a h = absurd (omega arith)
write_fields-flatten offset (f ∷ rest) before after b a h =
    let start : take (12 + offset * 32) (before ++ after) ≡ before = take-append _ before after b in
    let end : drop (12 + offset * 32 + 32) (before ++ after) ≡ drop 32 after =
      drop-append _ 32 before after (omega (arith, b)) in
    rw (start, end)
      (write_fields-flatten (suc offset) rest (before ++ f) (drop 32 after)
          (omega (arith, b, length-append before f, h.0.size))
          (omega (arith, a, length-drop 32 after)) h.1
        ∙ append_assoc before f (flatten rest))

-- The client sends the verifier the bytes that the program sends it for the same inputs.
pub witness_bytes-eq-encode :
    (p : PublicInputs) → All (IsArray 32) (fields p) → witness_bytes p ≡ Program.encode (on_chain p)
unfolding witness_bytes fields Program.input_fields
witness_bytes-eq-encode p h =
    write_fields-flatten 0 (fields p) gnark_header (replicate 224 0) refl refl h
    ∙ sym (encode-layout (on_chain p) h)
