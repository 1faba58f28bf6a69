-- ===== src/Program/Transact/Binding.antt =====
-- What the external data hash commits to.
use mathlib.Core.List.{flatten}
use veil.Prelude.{
  suc, ◌-◌, ◌^◌, ◌<◌, ◌≡◌, ◌≢◌, ◌⊎◌, inl, inr, refl, sym, ◌∙◌, List, [], ◌∷◌, length,
  append-injective, arith,
}
use veil.Prelude.Int.{ℤ, pos, negsuc, IsI64}
use veil.Prelude.Res.{ok, ok-injective, bind_inv}
use veil.Bytes.{Bytes, Bytes_discrete, be_bytes, i64_bytes}
use veil.Bytes.Laws.{length-be_bytes, be_bytes-injective, i64_bytes-injective}
use veil.Crypto.{Crypto, IsCrypto}
use veil.Program.Error.{Res}
use veil.Program.Field.{keccak_field}
use veil.Program.Runtime.{Pubkey, Runtime}
use veil.Program.State.{program_id}
use veil.Program.Transact.{ExtData, note_length, binding_parts, ext_data_hash}

-- The public data of a transaction that the hash covers.
pub record Public : Type 0 where
  pub ext : ExtData
  pub domain : Bytes
  pub pool : Pubkey
  pub mint : Pubkey
  pub verifier : Pubkey
  pub amount : ℤ

-- Its parts have the sizes of their Rust types.
pub record IsPublic (p : Public) : Type 0 where
  pub recipient : length p.ext.recipient ≡ 32
  pub domain : length p.domain ≡ 32
  pub pool : length p.pool ≡ 32
  pub mint : length p.mint ≡ 32
  pub verifier : length p.verifier ≡ 32
  pub amount : IsI64 p.amount

-- The hash of public data.
abbrev pub hash_of : Runtime → Public → Res Bytes
hash_of r p = ext_data_hash r p.ext p.domain p.pool p.mint p.verifier p.amount

-- What is hashed, with the lengths of the notes.
abbrev pub preimage : Public → Bytes
preimage p = flatten (
    binding_parts p.ext p.domain p.pool p.mint p.verifier p.amount
      (be_bytes 4 (length p.ext.encrypted_notes.0)) (be_bytes 4 (length p.ext.encrypted_notes.1)))

-- `left` and `right` are two different byte strings with one reduced Keccak hash.
pub record Collides (c : Crypto) (left right : Bytes) : Type 0 where
  pub different : left ≢ right
  pub same : keccak_field c (left ∷ []) ≡ keccak_field c (right ∷ [])

-- Equal concatenations agree on first parts of one length, and on the rest.
split_parts :
    (x y : Bytes) (xs ys : List Bytes)
    → length x ≡ length y
    → flatten (x ∷ xs) ≡ flatten (y ∷ ys)
    → (x ≡ y) × (flatten xs ≡ flatten ys)
unfolding flatten
split_parts x y xs ys l e = append-injective x y l e

length-i64_bytes : (a : ℤ) → length (i64_bytes a) ≡ 8
unfolding i64_bytes
length-i64_bytes (pos n) = length-be_bytes 8 n
length-i64_bytes (negsuc n) = length-be_bytes 8 (2 ^ 64 - suc n)

note_length_inv :
    (note : Bytes) {bs : Bytes}
    → note_length note ≡ ok bs
    → (length note < 2 ^ 32) × (bs ≡ be_bytes 4 (length note))
unfolding note_length
note_length_inv note e = ground arith

-- Notes are read back from their lengths and contents.
split_note :
    (m n : Bytes) (xs ys : List Bytes)
    → length m < 2 ^ 32
    → length n < 2 ^ 32
    → flatten (be_bytes 4 (length m) ∷ m ∷ xs) ≡ flatten (be_bytes 4 (length n) ∷ n ∷ ys)
    → (m ≡ n) × (flatten xs ≡ flatten ys)
split_note m n xs ys hm hn e =
    let (l, e1) =
      split_parts _ _ (m ∷ xs) (n ∷ ys) (length-be_bytes 4 _ ∙ sym (length-be_bytes 4 _)) e in
    split_parts m n xs ys (be_bytes-injective 4 (length m) (length n) hm hn l) e1

preimage-injective :
    (p q : Public)
    → IsPublic p
    → IsPublic q
    → length p.ext.encrypted_notes.0 < 2 ^ 32
    → length p.ext.encrypted_notes.1 < 2 ^ 32
    → length q.ext.encrypted_notes.0 < 2 ^ 32
    → length q.ext.encrypted_notes.1 < 2 ^ 32
    → preimage p ≡ preimage q
    → p ≡ q
unfolding binding_parts
preimage-injective p q hp hq p0 p1 q0 q1 e =
    let (_, e1) = split_parts _ _ _ _ refl e in
    let (d, e2) = split_parts p.domain q.domain _ _ (hp.domain ∙ sym hq.domain) e1 in
    let (_, e3) = split_parts program_id program_id _ _ refl e2 in
    let (k, e4) = split_parts p.pool q.pool _ _ (hp.pool ∙ sym hq.pool) e3 in
    let (m, e5) = split_parts p.mint q.mint _ _ (hp.mint ∙ sym hq.mint) e4 in
    let (v, e6) = split_parts p.verifier q.verifier _ _ (hp.verifier ∙ sym hq.verifier) e5 in
    let (t, e7) =
      split_parts p.ext.recipient q.ext.recipient _ _ (hp.recipient ∙ sym hq.recipient) e6 in
    let (a, e8) =
      split_parts (i64_bytes p.amount) (i64_bytes q.amount) _ _
        (length-i64_bytes p.amount ∙ sym (length-i64_bytes q.amount)) e7 in
    let (n0, e9) = split_note p.ext.encrypted_notes.0 q.ext.encrypted_notes.0 _ _ p0 q0 e8 in
    let (n1, _) = split_note p.ext.encrypted_notes.1 q.ext.encrypted_notes.1 [] [] p1 q1 e9 in
    let amounts = i64_bytes-injective p.amount q.amount hp.amount hq.amount a in cc

module _ (r : Runtime) (C : IsCrypto r.crypto) where
  -- Only the concatenation of what is hashed matters.
  keccak_field_concat :
      (xs : List Bytes) → keccak_field r.crypto xs ≡ keccak_field r.crypto (flatten xs ∷ [])
  unfolding keccak_field
  keccak_field_concat xs = rw (C.keccak_concat xs)

  hash_of_inv :
      (p : Public) {h : Bytes}
      → hash_of r p ≡ ok h
      → (length p.ext.encrypted_notes.0 < 2 ^ 32)
        × (length p.ext.encrypted_notes.1 < 2 ^ 32)
        × (h ≡ keccak_field r.crypto (preimage p ∷ []))
  unfolding ext_data_hash
  hash_of_inv p {h} e = bind_inv (note_length p.ext.encrypted_notes.0) _ e λ l0 e0 h0.
      bind_inv (note_length p.ext.encrypted_notes.1) _ h0 λ l1 e1 h1.
        let (fits0, same0) = note_length_inv _ e0 in
        let (fits1, same1) = note_length_inv _ e1 in
        (fits0, fits1, sym (ok-injective _ _ h1) ∙ keccak_field_concat _ ∙ rw (same0, same1))

  -- If the hashes of two public data are computed and are equal, the data are the same (note contents
  -- and recipient, domain, pool, mint, verifier and signed amount), or else the two byte strings that
  -- were hashed are themselves a collision of the reduced Keccak hash.
  pub ext_data_hash_binds :
      (p q : Public) {h : Bytes}
      → IsPublic p
      → IsPublic q
      → hash_of r p ≡ ok h
      → hash_of r q ≡ ok h
      → (p ≡ q) ⊎ Collides r.crypto (preimage p) (preimage q)
  ext_data_hash_binds p q hp hq ep eq =
      let (p0, p1, ip) = hash_of_inv p ep in
      let (q0, q1, iq) = hash_of_inv q eq in
      elim (Bytes_discrete (preimage p) (preimage q)) [
        | yes same ↦ inl (preimage-injective p q hp hq p0 p1 q0 q1 same)
        | no different ↦ inr (record { different = different; same = sym ip ∙ iq })
      ]
