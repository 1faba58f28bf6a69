-- ===== src/Sdk/Agreement/Scalars.antt =====
-- The hashes of crates/veil402-sdk/src/protocol/note.rs are canonical scalars.
use veil.Prelude.{ℕ, suc, ◌/◌, ◌%◌, ◌^◌, ◌≡◌, List, [], ◌∷◌, ◌==◌, inl, inr, Bool-cases}
use veil.Prelude.Res.{ok, bind_inv, ok-injective, ok_or-eq-ok}
use veil.Crypto.{Crypto, IsCrypto, IsScalar}
use veil.Program.Field as Program
use veil.Sdk.Field.{Field}
use veil.Sdk.Note.{
  Owner, Note, poseidon, nullifier_key, nullifier, note_public_key, commitment, commitment_from_key,
  parent, merkle_root_from, merkle_root,
}
use veil.Sdk.Transaction.{Plan, Public, Values}
use veil.Sdk.Transaction.Statement.{IsStatement}
use veil.Sdk.Agreement.Binding.{poseidon-eq-ok}

module _ (c : Crypto) (C : IsCrypto c) where
  pub poseidon-IsScalar : (xs : List Field) {h : Field} → poseidon c xs ≡ ok h → IsScalar h
  unfolding Program.poseidon
  poseidon-IsScalar xs e = C.poseidon-IsScalar xs (ok_or-eq-ok _ _ ((poseidon-eq-ok c C xs).0 e))

  pub nullifier-IsScalar :
      (owner : Owner) (index : ℕ) {n : Field} → nullifier c owner index ≡ ok n → IsScalar n
  unfolding nullifier
  nullifier-IsScalar owner index e =
      bind_inv (nullifier_key c owner) _ e λ key e0 e1. poseidon-IsScalar _ e1

  pub commitment_from_key-IsScalar :
      (key asset : Field) (value : ℕ) {h : Field}
      → commitment_from_key c key asset value ≡ ok h
      → IsScalar h
  unfolding commitment_from_key
  commitment_from_key-IsScalar key asset value e = poseidon-IsScalar _ e

  pub commitment-IsScalar :
      (note : Note) (owner : Owner) {h : Field} → commitment c note owner ≡ ok h → IsScalar h
  unfolding commitment
  commitment-IsScalar note owner e =
      bind_inv (note_public_key c note owner) _ e
        λ key e0 e1. commitment_from_key-IsScalar key note.asset note.value e1

  parent-IsScalar :
      (index level : ℕ) (node sibling : Field) {h : Field}
      → parent c index level node sibling ≡ ok h
      → IsScalar h
  unfolding parent
  parent-IsScalar index level node sibling e = elim (Bool-cases ((index / 2 ^ level) % 2 == 0)) [
    | inl left ↦ poseidon-IsScalar _ (rw left at e)
    | inr right ↦ poseidon-IsScalar _ (rw right at e)
  ]

  merkle_root_from-IsScalar :
      (level : ℕ) (node : Field) (index : ℕ) (siblings : List Field) {h : Field}
      → IsScalar node
      → merkle_root_from c level node index siblings ≡ ok h
      → IsScalar h
  unfolding merkle_root_from
  merkle_root_from-IsScalar level node index [] s e = rw (ok-injective _ _ e) at s
  merkle_root_from-IsScalar level node index (sibling ∷ siblings) s e =
      bind_inv (parent c index level node sibling) _ e λ node' e0 e1.
        merkle_root_from-IsScalar (suc level) node' index siblings
          (parent-IsScalar index level node sibling e0) e1

  merkle_root-IsScalar :
      (node : Field) (index : ℕ) (siblings : List Field) {h : Field}
      → IsScalar node
      → merkle_root c node index siblings ≡ ok h
      → IsScalar h
  unfolding merkle_root
  merkle_root-IsScalar = merkle_root_from-IsScalar 0

  -- The root of a plan's values is the root of one of its spends.
  pub root-IsScalar :
      (p : Plan) (public : Public) (v : Values) → IsStatement c p public v → IsScalar v.public.root
  root-IsScalar p public v s = elim s.real [
    | inl real0 ↦
        let m = s.member_0 real0 in
        merkle_root-IsScalar m.leaf _ _ (commitment-IsScalar _ _ m.committed) m.path
    | inr real1 ↦
        let m = s.member_1 real1 in
        merkle_root-IsScalar m.leaf _ _ (commitment-IsScalar _ _ m.committed) m.path
  ]
