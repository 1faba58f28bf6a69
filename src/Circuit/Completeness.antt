-- ===== src/Circuit/Completeness.antt =====
-- The client computes values only for plans that the circuit accepts.
use veil.Prelude.{
  ℕ, ◌+◌, ◌-◌, ◌*◌, ◌%◌, ◌^◌, ◌<◌, ◌≡◌, ◌≢◌, ◌⊎◌, refl, sym, ap, ◌∙◌, true, not, ◌==◌, ==_iff, ltb,
  ltb_iff, List, map, arith,
}
use veil.Prelude.Int.{IsI64}
use veil.Prelude.Res.{ok, require, require-true, then_ok, bind_ok}
use veil.Bytes.{be_value, be_bytes}
use veil.Crypto.{Crypto, IsCrypto, IsScalar, modulus}
use veil.Program.Field.Canonical.{be_bytes-IsScalar}
use veil.Program.Field.Amount.{public_amount_conserves}
use veil.Sdk.Field.{Field, from_u64, zero_field}
use veil.Sdk.Field.Laws.{from_signed-eq}
use veil.Sdk.Note.{merkle_root, commitment_from_key}
use veil.Sdk.Transaction.{Spend, Plan, Public, Values, values}
use veil.Sdk.Transaction.Statement.{IsMember, IsSpendable, IsStatement, values-IsStatement}
use veil.Sdk.Agreement.Scalars.{nullifier-IsScalar, root-IsScalar}
use veil.Circuit.{
  Inputs, note_key, owner, note_commitment, nullifier, root_from, compute_root, assert_input,
  check_input, check_output, check_sums, main,
}
use veil.Sdk.Proving.Witness.{Noir, input_map}
use veil.Circuit.Assignment.{IsReducing, assigned, parameters, input_map-parameters}
use veil.Circuit.Arithmetic.{reduce_sum}
use veil.Program.Field.{public_amount_field}
use veil.Circuit.Encoding.{
  IsPoseidon, from_u64_value, nullifier_value, note_commitment_value, commitment_value, root_value,
  assert_u64_value, member_value, scalar-ne,
}

nonzero_sum :
    (a b : ℕ) → a < 2 ^ 64 → b < 2 ^ 64 → (a ≢ 0) ⊎ (b ≢ 0) → not ((a + b) % modulus == 0) ≡ true
nonzero_sum a b ha hb real =
    let small : (a + b) % modulus ≡ a + b = omega (arith, ha, hb) in rw small (ground (arith, real))

-- The ranges of the types that the plan's parts have in the source, and the asset that the spends share.
pub record IsTyped (p : Plan) (public : Public) : Type 0 where
  pub in_0 : p.spends.0.note.value < 2 ^ 64
  pub in_1 : p.spends.1.note.value < 2 ^ 64
  pub out_0 : p.sends.0.value < 2 ^ 64
  pub out_1 : p.sends.1.value < 2 ^ 64
  pub amount : IsI64 public.amount
  pub asset_0 : p.spends.0.note.asset ≡ p.asset
  pub asset_1 : p.spends.1.note.asset ≡ p.asset

module _ (c : Crypto) (C : IsCrypto c) (hash : List ℕ → ℕ) (H : IsPoseidon c hash) where
  equal_passes : (m n : ℕ) → m ≡ n → (m == n) ≡ true
  equal_passes m n e = (==_iff m n).1 e

  zero-IsScalar : IsScalar zero_field
  unfolding be_bytes
  zero-IsScalar = be_bytes-IsScalar 0 (omega arith)

  nonzero_value : (n : Field) → IsScalar n → n ≢ zero_field → not (be_value n == 0) ≡ true
  unfolding be_value
  nonzero_value n h apart = scalar-ne c C hash H n zero_field h zero-IsScalar apart

  compute_root_ok :
      (leaf : ℕ) (siblings : List ℕ) (index : ℕ)
      → index < 2 ^ 20
      → compute_root hash leaf siblings index ≡ ok (root_from hash 0 leaf siblings index)
  unfolding compute_root
  compute_root_ok leaf siblings index h =
      then_ok (require (ltb index (2 ^ 20)) "call to to_le_bits") _
        (require-true _ _ ((ltb_iff _ _).1 h)) refl

  assert_input_ok :
      (root nullifier' value viewing_key leaf_index computed_root : ℕ)
      → value * ((computed_root + (modulus - root)) % modulus) % modulus ≡ 0
      → nullifier' ≡ nullifier hash viewing_key leaf_index
      → not (nullifier' == 0) ≡ true
      → assert_input hash root nullifier' value viewing_key leaf_index computed_root ≡ ok tt
  unfolding assert_input
  assert_input_ok root nullifier' value viewing_key leaf_index computed_root e0 e1 e2 =
      rw (equal_passes _ _ e0, equal_passes _ _ e1, e2) refl

  check_input-values :
      (s : Spend) (root n asset : Field)
      → s.note.value < 2 ^ 64
      → s.note.asset ≡ asset
      → IsScalar root
      → IsSpendable c s n
      → (s.note.value ≢ 0 → IsMember c s root)
      → check_input hash
          (be_value root)
          (be_value asset)
          (be_value n)
          (be_value (from_u64 c s.note.value))
          (be_value s.note.random)
          (be_value s.owner.spend)
          (be_value s.owner.view)
          (be_value (from_u64 c s.merkle.index))
          (map be_value s.merkle.siblings)
        ≡ ok tt
  unfolding check_input merkle_root
  check_input-values s root n asset small same_asset reduced spendable member =
      let index : be_value (from_u64 c s.merkle.index) ≡ s.merkle.index =
        from_u64_value c C hash H s.merkle.index (omega (arith, spendable.index_fits)) in
      let leaf_of : ℕ → ℕ = λ a.
        note_commitment hash
          (note_key hash (owner hash (be_value s.owner.spend) (be_value s.owner.view))
            (be_value s.note.random))
          a (be_value (from_u64 c s.note.value)) in
      let computed =
        root_from hash 0 (leaf_of (be_value asset)) (map be_value s.merkle.siblings)
          (be_value (from_u64 c s.merkle.index)) in
      let climbs : s.note.value ≢ 0 → computed ≡ be_value root = λ real.
        let m = member real in
        let leaf : leaf_of (be_value asset) ≡ be_value m.leaf =
          ap leaf_of (ap be_value (sym same_asset)) ∙ commitment_value c C hash H s m.committed in
        ap
          (λ (k : ℕ).
            root_from hash 0 k (map be_value s.merkle.siblings)
              (be_value (from_u64 c s.merkle.index)))
          leaf
        ∙ ap (λ (i : ℕ). root_from hash 0 (be_value m.leaf) (map be_value s.merkle.siblings) i)
            index
        ∙ root_value c C hash H 0 s.merkle.index m.leaf s.merkle.siblings m.path in
      let fits : be_value (from_u64 c s.merkle.index) < 2 ^ 20 = rw index spendable.index_fits in
      then_ok _ _ (assert_u64_value c C hash H s.note.value small) (
        bind_ok
          (compute_root hash (leaf_of (be_value asset)) (map be_value s.merkle.siblings)
            (be_value (from_u64 c s.merkle.index)))
          (assert_input hash (be_value root) (be_value n) (be_value (from_u64 c s.note.value))
            (be_value s.owner.view) (be_value (from_u64 c s.merkle.index)))
          (compute_root_ok (leaf_of (be_value asset)) (map be_value s.merkle.siblings)
            (be_value (from_u64 c s.merkle.index)) fits)
          (assert_input_ok _ _ _ _ _ computed
            (member_value c C hash H s root computed small reduced.reduced climbs)
            (sym (nullifier_value c C hash H s.owner s.merkle.index spendable.derived))
            (nonzero_value n (nullifier-IsScalar c C s.owner s.merkle.index spendable.derived)
              spendable.nonzero)))

  check_output-values :
      (asset key commitment : Field) (n : ℕ)
      → n < 2 ^ 64
      → commitment_from_key c key asset n ≡ ok commitment
      → check_output hash
          (be_value asset)
          (be_value commitment)
          (be_value key)
          (be_value (from_u64 c n))
        ≡ ok tt
  unfolding check_output
  check_output-values asset key commitment n small e =
      then_ok _ _ (assert_u64_value c C hash H n small)
        (require-true _ _ (equal_passes _ _ (sym (note_commitment_value c C hash H key asset n e))))

  check_sums-values :
      (p : Plan) (public : Public) (v : Values)
      → IsTyped p public
      → IsStatement c p public v
      → check_sums hash
          (assigned c p v)
          ((be_value (from_u64 c p.spends.0.note.value)
              + be_value (from_u64 c p.spends.1.note.value))
            % modulus)
          ((be_value (from_u64 c p.sends.0.value) + be_value (from_u64 c p.sends.1.value))
            % modulus)
        ≡ ok tt
  unfolding check_sums
  check_sums-values p public v t s =
      let amount : be_value v.public.amount ≡ be_value (public_amount_field c public.amount) =
        ap be_value (s.amount ∙ from_signed-eq c C public.amount) in
      let sum_in = p.spends.0.note.value + p.spends.1.note.value in
      let sum_out = p.sends.0.value + p.sends.1.value in
      let conserved =
        (public_amount_conserves c C public.amount sum_in sum_out t.amount
            (omega (arith, t.in_0, t.in_1)) (omega (arith, t.out_0, t.out_1))).1
          s.conserved in
      let balance : (sum_in % modulus + be_value (public_amount_field c public.amount)) % modulus
          ≡ sum_out % modulus =
        reduce_sum sum_in _ ∙ conserved in
      rw
        (
          from_u64_value c C hash H p.spends.0.note.value t.in_0,
          from_u64_value c C hash H p.spends.1.note.value t.in_1,
          from_u64_value c C hash H p.sends.0.value t.out_0,
          from_u64_value c C hash H p.sends.1.value t.out_1,
          amount,
          equal_passes _ _ balance,
          equal_passes (be_value v.public.hash) (be_value v.public.hash) refl,
        )
        refl

  real_sum :
      (p : Plan) (public : Public)
      → IsTyped p public
      → (p.spends.0.note.value ≢ 0) ⊎ (p.spends.1.note.value ≢ 0)
      → not (
          (be_value (from_u64 c p.spends.0.note.value)
              + be_value (from_u64 c p.spends.1.note.value))
            % modulus
          == 0)
        ≡ true
  real_sum p public t real =
      rw
        (
          from_u64_value c C hash H p.spends.0.note.value t.in_0,
          from_u64_value c C hash H p.spends.1.note.value t.in_1,
        )
        (nonzero_sum p.spends.0.note.value p.spends.1.note.value t.in_0 t.in_1 real)

  pub assigned_passes :
      (p : Plan) (public : Public) (v : Values)
      → IsTyped p public
      → values c p public ≡ ok v
      → main hash (assigned c p v) ≡ ok tt
  unfolding main
  assigned_passes p public v t e =
      let s = values-IsStatement c p public e in
      let root = root-IsScalar c C p public v s in
      let n0 = nullifier-IsScalar c C _ _ s.spend_0.derived in
      let n1 = nullifier-IsScalar c C _ _ s.spend_1.derived in
      then_ok _ _
        (check_input-values p.spends.0 v.public.root v.public.nullifiers.0 p.asset t.in_0 t.asset_0
          root s.spend_0 s.member_0)
        (then_ok _ _
          (check_input-values p.spends.1 v.public.root v.public.nullifiers.1 p.asset t.in_1
            t.asset_1 root s.spend_1 s.member_1)
          (then_ok _ _ (require-true _ _ (real_sum p public t s.real)) (
            then_ok _ _ (require-true _ _ (scalar-ne c C hash H _ _ n0 n1 s.distinct)) (
              then_ok _ _
                (check_output-values p.asset v.output_keys.0 v.public.commitments.0 p.sends.0.value
                  t.out_0 s.commitment_0)
                (then_ok _ _
                  (check_output-values p.asset v.output_keys.1 v.public.commitments.1
                    p.sends.1.value t.out_1 s.commitment_1)
                  (check_sums-values p public v t s))))))

  -- The circuit accepts whatever the client computes values for: if they are computed for a plan of 64-bit
  -- values, a signed 64-bit amount and one asset, the circuit's Poseidon is the client's, and the bytes of a field
  -- element are read as a number, then the map that the client builds gives the circuit's parameters, by their
  -- names, inputs of which every assertion holds.
  pub values-main :
      {Program : Type 0} (n : Noir Program) (N : IsReducing n) (p : Plan) (public : Public)
      (v : Values)
      → IsTyped p public
      → values c p public ≡ ok v
      → (x : Inputs) × (input_map c n p v ≡ parameters n N x) × (main hash x ≡ ok tt)
  values-main n N p public v t e =
      (assigned c p v, input_map-parameters n N c p v, assigned_passes p public v t e)
