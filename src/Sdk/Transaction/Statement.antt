-- ===== src/Sdk/Transaction/Statement.antt =====
-- What `Plan::values` establishes: the statement that the circuit proves.
use mathlib.Core.Option.{some-injective}
use veil.Prelude.{
  ℕ, ◌+◌, ◌^◌, ◌<◌, ◌≡◌, ◌≢◌, ◌⊎◌, inl, inr, refl, sym, ap, ◌∙◌, true, not, Option, none, some, ltb,
  ◌==◌, arith, Bool-cases, ==_iff,
}
use veil.Prelude.Int.{ℤ, pos, ◌+ℤ◌, eq_of_parts}
use veil.Prelude.Res.{
  ok, ok_or, require, bind_inv, then_inv, require-eq-ok, ok_or-eq-ok, ok-injective,
}
use veil.Bytes.{Bytes, bytes_eq, bytes_eq_iff}
use veil.Crypto.{Crypto}
use veil.Sdk.Error.{transaction}
use veil.Sdk.Field.{Field, zero_field, from_signed}
use veil.Sdk.Note.{nullifier, commitment, merkle_root, send_public_key, commitment_from_key}
use veil.Sdk.Transaction.{
  Spend, Plan, Public, Values, tree_depth, agrees, int_eq, join_root, check_spend, values,
}

-- The note of a spend is in the tree with this root.
pub record IsMember (c : Crypto) (s : Spend) (root : Field) : Type 0 where
  pub leaf : Field
  pub committed : commitment c s.note s.owner ≡ ok leaf
  pub path : merkle_root c leaf s.merkle.index s.merkle.siblings ≡ ok root

-- What the code checks of one spend on its own.
pub record IsSpendable (c : Crypto) (s : Spend) (n : Field) : Type 0 where
  pub index_fits : s.merkle.index < 2 ^ 20
  pub derived : nullifier c s.owner s.merkle.index ≡ ok n
  pub nonzero : n ≢ zero_field

-- The relation between a plan, its amount and hash, and the values for the circuit.
pub record IsStatement (c : Crypto) (p : Plan) (public : Public) (v : Values) : Type 0 where
  pub conserved :
      pos (p.spends.0.note.value + p.spends.1.note.value) +ℤ public.amount
      ≡ pos (p.sends.0.value + p.sends.1.value)
  pub spend_0 : IsSpendable c p.spends.0 v.public.nullifiers.0
  pub spend_1 : IsSpendable c p.spends.1 v.public.nullifiers.1
  pub distinct : v.public.nullifiers.0 ≢ v.public.nullifiers.1
  pub member_0 : p.spends.0.note.value ≢ 0 → IsMember c p.spends.0 v.public.root
  pub member_1 : p.spends.1.note.value ≢ 0 → IsMember c p.spends.1 v.public.root
  pub real : (p.spends.0.note.value ≢ 0) ⊎ (p.spends.1.note.value ≢ 0)
  pub key_0 : send_public_key c p.sends.0 ≡ ok v.output_keys.0
  pub key_1 : send_public_key c p.sends.1 ≡ ok v.output_keys.1
  pub commitment_0 :
      commitment_from_key c v.output_keys.0 p.asset p.sends.0.value ≡ ok v.public.commitments.0
  pub commitment_1 :
      commitment_from_key c v.output_keys.1 p.asset p.sends.1.value ≡ ok v.public.commitments.1
  pub amount : v.public.amount ≡ from_signed c public.amount
  pub hash : v.public.hash ≡ public.hash

int_eq_sound : (a b : ℤ) → int_eq a b ≡ true → a ≡ b
int_eq_sound a b e = eq_of_parts a b (ground arith)

apart_sound : (a b : Bytes) → not (bytes_eq a b) ≡ true → a ≢ b
apart_sound a b e = ground arith

ltb_fits : (m n : ℕ) → ltb m n ≡ true → m < n
ltb_fits m n e = ground arith

agrees_sound :
    (root : Option Field) (r : Field) → agrees root r ≡ true → (root ≡ none) ⊎ (root ≡ some r)
agrees_sound none r e = inl refl
agrees_sound (some a) r e = inr (ap some ((bytes_eq_iff a r).0 e))

module _ (c : Crypto) where
  -- A zero value leaves the root as it was; another one is a member of the tree with the root.
  join_root_inv :
      (root : Option Field) (s : Spend) {root' : Option Field}
      → join_root c root s ≡ ok root'
      → ((s.note.value ≡ 0) × (root' ≡ root))
        ⊎ ((s.note.value ≢ 0)
            × (r : Field) × IsMember c s r
            × (root' ≡ some r)
            × ((root ≡ none) ⊎ (root ≡ some r)))
  unfolding join_root
  join_root_inv root s e = elim (Bool-cases (s.note.value == 0)) [
    | inl zero ↦ inl ((==_iff s.note.value 0).0 zero, sym (ok-injective _ _ (rw zero at e)))
    | inr more ↦ bind_inv (commitment c s.note s.owner) _ (rw more at e) λ leaf e0 h0.
        bind_inv (merkle_root c leaf s.merkle.index s.merkle.siblings) _ h0 λ r e1 h1.
          then_inv (require (agrees root r) (transaction "spends do not share a Merkle root")) _ h1
            λ e2 h2. inr (
              ground arith,
              r,
              record { leaf = leaf; committed = e0; path = e1 },
              sym (ok-injective _ _ h2),
              agrees_sound root r (require-eq-ok _ _ e2),
            )
  ]

  check_spend_inv :
      (root : Option Field) (s : Spend) {n : Field} {root' : Option Field}
      → check_spend c root s ≡ ok (n, root')
      → IsSpendable c s n × (join_root c root s ≡ ok root')
  unfolding check_spend
  check_spend_inv root s {n} {root'} e =
      then_inv (require (ltb s.merkle.index (2 ^ tree_depth)) _) _ e λ e0 h0.
        bind_inv (nullifier c s.owner s.merkle.index) _ h0 λ m e1 h1.
          then_inv (require (not (bytes_eq m zero_field)) _) _ h1 λ e2 h2.
            bind_inv (join_root c root s) _ h2 λ root2 e3 h3.
              let same = ok-injective (m, root2) (n, root') h3 in
              let same_n : m ≡ n = ap (λ (q : Field × Option Field). q.0) same in
              let same_root : root2 ≡ root' = ap (λ (q : Field × Option Field). q.1) same in
              (
                record {
                  index_fits = ltb_fits s.merkle.index (2 ^ 20) (require-eq-ok _ _ e0);
                  derived = e1 ∙ ap ok same_n;
                  nonzero = rw same_n at (apart_sound _ _ (require-eq-ok _ _ e2));
                },
                e3 ∙ ap ok same_root,
              )

  -- Both passes of the loop, and a root at the end.
  joined :
      (s t : Spend) {root0 root1 : Option Field} {r : Field}
      → join_root c none s ≡ ok root0
      → join_root c root0 t ≡ ok root1
      → root1 ≡ some r
      → (s.note.value ≢ 0 → IsMember c s r)
        × (t.note.value ≢ 0 → IsMember c t r)
        × ((s.note.value ≢ 0) ⊎ (t.note.value ≢ 0))
  joined s t {root0} {root1} {r} es et er = elim (join_root_inv none s es) [
    | inl (zs, none0) ↦ elim (join_root_inv root0 t et) [
      | inl (zt, same) ↦ absurd (cc)
      | inr (nt, rt, mt, found, _) ↦
          let eq : rt ≡ r = some-injective _ _ (sym found ∙ er) in
          (λ ns. absurd (ns zs), λ _. rw eq at mt, inr nt)
    ]
    | inr (ns, rs, ms, found_s, _) ↦ elim (join_root_inv root0 t et) [
      | inl (zt, same) ↦
          let eq : rs ≡ r = some-injective _ _ (sym found_s ∙ sym same ∙ er) in
          (λ _. rw eq at ms, λ nt. absurd (nt zt), inl ns)
      | inr (nt, rt, mt, found_t, shared) ↦
          let eq : rt ≡ r = some-injective _ _ (sym found_t ∙ er) in
          let eq_s : rs ≡ r = elim shared [
            | inl none0 ↦ absurd (cc)
            | inr some0 ↦ some-injective _ _ (sym found_s ∙ some0) ∙ eq
          ] in
          (λ _. rw eq_s at ms, λ _. rw eq at mt, inl ns)
    ]
  ]

  -- If values are computed for a plan, they are those of the circuit's statement.
  pub values-IsStatement :
      (p : Plan) (public : Public) {v : Values}
      → values c p public ≡ ok v
      → IsStatement c p public v
  unfolding values
  values-IsStatement p public {v} e =
      bind_inv (check_spend c none p.spends.0) _ e λ (n0, root0) e0 h0.
        bind_inv (check_spend c root0 p.spends.1) _ h0 λ (n1, root1) e1 h1.
          then_inv
            (require (not (bytes_eq n0 n1)) (transaction "spend nullifiers must be distinct")) _ h1
            λ e2 h2. bind_inv (send_public_key c p.sends.0) _ h2 λ key0 e3 h3.
              bind_inv (send_public_key c p.sends.1) _ h3 λ key1 e4 h4.
                bind_inv (commitment_from_key c key0 p.asset p.sends.0.value) _ h4 λ c0 e5 h5.
                  bind_inv (commitment_from_key c key1 p.asset p.sends.1.value) _ h5 λ c1 e6 h6.
                    then_inv
                      (require
                        (int_eq
                          (pos (p.spends.0.note.value + p.spends.1.note.value) +ℤ public.amount)
                          (pos (p.sends.0.value + p.sends.1.value)))
                        (transaction "value is not conserved"))
                      _ h6
                      λ e7 h7.
                        bind_inv (ok_or root1 (transaction "transaction has no real input")) _ h7
                          λ r e8 h8.
                            let (spend0, join0) = check_spend_inv none p.spends.0 e0 in
                            let (spend1, join1) = check_spend_inv root0 p.spends.1 e1 in
                            let (m0, m1, some_real) =
                              joined p.spends.0 p.spends.1 join0 join1 (ok_or-eq-ok _ _ e8) in
                            let w : Values = record {
                              public = record {
                                root = r;
                                nullifiers = (n0, n1);
                                commitments = (c0, c1);
                                amount = from_signed c public.amount;
                                hash = public.hash;
                              };
                              output_keys = (key0, key1);
                            } in
                            let whole : IsStatement c p public w = record {
                              conserved =
                                  int_eq_sound _ _
                                    (require-eq-ok _ (transaction "value is not conserved") e7);
                              spend_0 = spend0;
                              spend_1 = spend1;
                              distinct = apart_sound _ _ (require-eq-ok _ _ e2);
                              member_0 = m0;
                              member_1 = m1;
                              real = some_real;
                              key_0 = e3;
                              key_1 = e4;
                              commitment_0 = e5;
                              commitment_1 = e6;
                              amount = refl;
                              hash = refl;
                            } in
                            rw (ok-injective w v h8) at whole
