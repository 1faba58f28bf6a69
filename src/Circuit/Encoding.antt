-- ===== src/Circuit/Encoding.antt =====
-- The client's hashes and numbers are those of the circuit.
use veil.Prelude.{
  ℕ, suc, ◌+◌, ◌-◌, ◌*◌, ◌/◌, ◌%◌, ◌^◌, ◌<◌, ◌≡◌, ◌≢◌, inl, inr, refl, sym, ap, ◌∙◌, true, false,
  not, ◌==◌, ==_iff, Bool-cases, ltb_iff, List, [], ◌∷◌, map, some, arith,
}
use veil.Prelude.Res.{ok, require-true, bind_inv, ok-injective, ok_or-eq-ok}
use veil.Bytes.{Bytes, be_value, be_bytes}
use veil.Bytes.Laws.{be_value-injective}
use veil.Crypto.{Crypto, IsCrypto, IsScalar, modulus}
use veil.Program.Field as Program
use veil.Program.Field.Canonical.{be_value-field_bytes}
use veil.Sdk.Field.{Field, from_raw_u64, from_u64}
use veil.Sdk.Field.Laws.{from_fr-eq}
use veil.Sdk.Note as Note
use veil.Sdk.Note.{
  Owner, poseidon, owner_public, note_public_key, commitment, commitment_from_key, parent,
  merkle_root_from, merkle_root,
}
use veil.Sdk.Transaction.{Spend}
use veil.Sdk.Agreement.Binding.{poseidon-eq-ok}
use veil.Circuit.{
  climb, nullifier_key, owner, note_key, note_commitment, nullifier, root_from, assert_u64,
}

-- The circuit's Poseidon and the client's are one function of numbers below the modulus.
pub record IsPoseidon (c : Crypto) (hash : List ℕ → ℕ) : Type 0 where
  pub agrees :
      (xs : List Bytes) (h : Bytes)
      → c.poseidon_hashv xs ≡ some h
      → hash (map be_value xs) ≡ be_value h

module _ (c : Crypto) (C : IsCrypto c) (hash : List ℕ → ℕ) (H : IsPoseidon c hash) where
  pub from_u64_value : (n : ℕ) → n < 2 ^ 64 → be_value (from_u64 c n) ≡ n
  unfolding from_u64
  from_u64_value n h =
      ap be_value (from_fr-eq c C (c.from_uint n))
      ∙ be_value-field_bytes c C (c.from_uint n)
      ∙ C.value-from_uint n
      ∙ omega (arith, h)

  hashed :
      (xs : List Field) {h : Field} → poseidon c xs ≡ ok h → hash (map be_value xs) ≡ be_value h
  unfolding Program.poseidon
  hashed xs {h} e = H.agrees xs h (ok_or-eq-ok _ _ ((poseidon-eq-ok c C xs).0 e))

  nullifier_key_value :
      (o : Owner) {k : Field}
      → Note.nullifier_key c o ≡ ok k
      → nullifier_key hash (be_value o.view) ≡ be_value k
  unfolding Note.nullifier_key from_raw_u64 be_value be_bytes
  nullifier_key_value o e = hashed _ e

  pub nullifier_value :
      (o : Owner) (index : ℕ) {n : Field}
      → Note.nullifier c o index ≡ ok n
      → nullifier hash (be_value o.view) (be_value (from_u64 c index)) ≡ be_value n
  unfolding Note.nullifier from_raw_u64 be_value be_bytes
  nullifier_value o index e =
      bind_inv (Note.nullifier_key c o) _ e λ k e0 h0. rw (nullifier_key_value o e0) (hashed _ h0)

  pub note_commitment_value :
      (key asset : Field) (n : ℕ) {h : Field}
      → commitment_from_key c key asset n ≡ ok h
      → note_commitment hash (be_value key) (be_value asset) (be_value (from_u64 c n)) ≡ be_value h
  unfolding commitment_from_key from_raw_u64 be_value be_bytes
  note_commitment_value key asset n e = hashed _ e

  note_key_value :
      (o random : Field) {k : Field}
      → Note.note_key c o random ≡ ok k
      → note_key hash (be_value o) (be_value random) ≡ be_value k
  unfolding Note.note_key from_raw_u64 be_value be_bytes
  note_key_value o random e = hashed _ e

  owner_value :
      (o : Owner) {k : Field}
      → owner_public c o ≡ ok k
      → owner hash (be_value o.spend) (be_value o.view) ≡ be_value k
  unfolding owner_public from_raw_u64 be_value be_bytes
  owner_value o e = bind_inv (poseidon c (from_raw_u64 1 ∷ o.spend ∷ [])) _ e λ spend e0 h0.
      bind_inv (Note.nullifier_key c o) _ h0 λ k e1 h1.
        rw (hashed (from_raw_u64 1 ∷ o.spend ∷ []) e0, nullifier_key_value o e1) (hashed _ h1)

  pub commitment_value :
      (s : Spend) {leaf : Field}
      → commitment c s.note s.owner ≡ ok leaf
      → note_commitment hash
          (note_key hash
            (owner hash (be_value s.owner.spend) (be_value s.owner.view))
            (be_value s.note.random))
          (be_value s.note.asset)
          (be_value (from_u64 c s.note.value))
        ≡ be_value leaf
  unfolding commitment note_public_key
  commitment_value s e = bind_inv (note_public_key c s.note s.owner) _ e λ key e0 h0.
      bind_inv (owner_public c s.owner) _ e0 λ public e1 h1.
        rw (owner_value s.owner e1, note_key_value public s.note.random h1)
          (note_commitment_value key s.note.asset s.note.value h0)

  climb_value :
      (level index : ℕ) (node sibling : Field) {h : Field}
      → parent c index level node sibling ≡ ok h
      → climb hash level (be_value node) index (be_value sibling) ≡ be_value h
  unfolding parent
  climb_value level index node sibling e = elim (Bool-cases ((index / 2 ^ level) % 2 == 0)) [
    | inl left ↦
        let even : ((index / 2 ^ level) % 2 == 1) ≡ false = ground (arith, left) in
        rw even (hashed (node ∷ sibling ∷ []) (rw left at e))
    | inr right ↦
        let odd : ((index / 2 ^ level) % 2 == 1) ≡ true = ground (arith, right) in
        rw odd (hashed (sibling ∷ node ∷ []) (rw right at e))
  ]

  pub root_value :
      (level index : ℕ) (node : Field) (siblings : List Field) {r : Field}
      → merkle_root_from c level node index siblings ≡ ok r
      → root_from hash level (be_value node) (map be_value siblings) index ≡ be_value r
  unfolding merkle_root_from root_from
  root_value level index node [] e = ap be_value (ok-injective _ _ e)
  root_value level index node (sibling ∷ siblings) e =
      bind_inv (parent c index level node sibling) _ e λ node' e0 h0.
        ap (λ (n : ℕ). root_from hash (suc level) n (map be_value siblings) index)
          (climb_value level index node sibling e0)
        ∙ root_value (suc level) index node' siblings h0

  pub assert_u64_value : (n : ℕ) → n < 2 ^ 64 → assert_u64 (be_value (from_u64 c n)) ≡ ok tt
  assert_u64_value n h = require-true _ _ ((ltb_iff _ _).1 (rw (from_u64_value n h) h))

  cancel : (r : ℕ) → r < modulus → (r + (modulus - r)) % modulus ≡ 0
  cancel r h = omega (arith, h)

  -- The membership test of one input, for the root that the circuit computes.
  pub member_value :
      (s : Spend) (root : Field) (computed : ℕ)
      → s.note.value < 2 ^ 64
      → be_value root < modulus
      → (s.note.value ≢ 0 → computed ≡ be_value root)
      → be_value (from_u64 c s.note.value)
          * ((computed + (modulus - be_value root)) % modulus)
          % modulus
        ≡ 0
  member_value s root computed small reduced same = elim (Bool-cases (s.note.value == 0)) [
    | inl zero ↦
        let none' : be_value (from_u64 c s.note.value) ≡ 0 =
          from_u64_value s.note.value small ∙ (==_iff _ _).0 zero in
        rw none' (omega arith)
    | inr some' ↦
        rw (same (ground (arith, some'))) (rw (cancel (be_value root) reduced) (omega arith))
  ]

  pub scalar-ne :
      (a b : Field) → IsScalar a → IsScalar b → a ≢ b → not (be_value a == be_value b) ≡ true
  scalar-ne a b ha hb apart = elim (Bool-cases (be_value a == be_value b)) [
    | inl same ↦ absurd (
        apart (
          be_value-injective a b (ha.array.size ∙ sym hb.array.size) ha.array.bytes hb.array.bytes
            ((==_iff _ _).0 same)))
    | inr other ↦ rw other refl
  ]
