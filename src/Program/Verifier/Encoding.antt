-- ===== src/Program/Verifier/Encoding.antt =====
-- The layout of the public witness.
use mathlib.Core.List.{flatten}
use veil.Prelude.{
  ◌*◌, ◌≡◌, refl, sym, ap, ◌∙◌, List, [], ◌∷◌, ◌++◌, length, drop, All, replicate, arith,
  length-drop, append-injective,
}
use veil.Bytes.{Bytes, IsArray}
use veil.Program.Verifier.{PublicInputs, fill_chunks, input_fields, encode}

-- Chunks that exactly cover the buffer are replaced one after the other.
fill_chunks-flatten :
    (fields : List Bytes) (buffer : Bytes)
    → length buffer ≡ 32 * length fields
    → All (IsArray 32) fields
    → fill_chunks buffer fields ≡ flatten fields
unfolding fill_chunks flatten
fill_chunks-flatten [] [] l a = refl
fill_chunks-flatten [] (b ∷ bs) l a = absurd (omega arith)
fill_chunks-flatten (f ∷ fs) buffer l a =
    ground
      (arith, fill_chunks-flatten fs (drop 32 buffer) (omega (arith, length-drop 32 buffer)) a.1)

abbrev pub gnark_header : Bytes
gnark_header = 0 ∷ 0 ∷ 0 ∷ 7 ∷ 0 ∷ 0 ∷ 0 ∷ 0 ∷ 0 ∷ 0 ∷ 0 ∷ 7 ∷ []

-- The order in which the verifier takes the public inputs.
abbrev pub verifier_order : PublicInputs → List Bytes
verifier_order p =
    p.root ∷ p.nullifiers.0 ∷ p.nullifiers.1 ∷ p.commitments.0 ∷ p.commitments.1 ∷ p.amount
    ∷ p.external_data_hash ∷ []

-- For 32-byte public inputs, the witness that the program builds in its buffer is the gnark header followed by
-- the root, the two nullifiers, the two commitments, the amount and the external data hash.
pub encode-layout :
    (p : PublicInputs)
    → All (IsArray 32) (verifier_order p)
    → encode p ≡ gnark_header ++ flatten (verifier_order p)
unfolding encode input_fields
encode-layout p a =
    ap (λ (t : Bytes). gnark_header ++ t)
      (fill_chunks-flatten (verifier_order p) (replicate 224 0) refl a)

flatten-injective :
    (xs ys : List Bytes)
    → length xs ≡ length ys
    → All (IsArray 32) xs
    → All (IsArray 32) ys
    → flatten xs ≡ flatten ys
    → xs ≡ ys
unfolding flatten
flatten-injective [] [] l hx hy e = refl
flatten-injective [] (y ∷ ys) l hx hy e = absurd (omega arith)
flatten-injective (x ∷ xs) [] l hx hy e = absurd (omega arith)
flatten-injective (x ∷ xs) (y ∷ ys) l hx hy e =
    let (same, rest) = append-injective x y (hx.0.size ∙ sym hy.0.size) e in
    cc (same, flatten-injective xs ys (omega arith) hx.1 hy.1 rest)

-- Two sets of public inputs with one encoding are the same: the verifier is told exactly these.
encode-injective :
    (p q : PublicInputs)
    → All (IsArray 32) (verifier_order p)
    → All (IsArray 32) (verifier_order q)
    → encode p ≡ encode q
    → p ≡ q
encode-injective p q hp hq e =
    let bodies =
      (append-injective gnark_header gnark_header refl
        (sym (encode-layout p hp) ∙ e ∙ encode-layout q hq)).1 in
    cc (flatten-injective (verifier_order p) (verifier_order q) refl hp hq bodies)
