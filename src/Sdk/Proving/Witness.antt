-- ===== src/Sdk/Proving/Witness.antt =====
-- crates/veil402-sdk/src/proving/witness.rs: the circuit's inputs and its witness.
use veil.Prelude.{Option, List, [], ◌∷◌, map}
use veil.Prelude.Res.{ok, ok_or, ◌>>=◌}
use veil.Bytes.{Bytes, ascii}
use veil.Crypto.{Crypto}
use veil.Sdk.Error as Error
use veil.Sdk.Error.{Res}
use veil.Sdk.Field.{Field, from_u64}
use veil.Sdk.Transaction.{PublicInputs, Plan, Public, Values, values}

-- noirc_abi, nargo and acvm, for one type of compiled programs.
pub record Noir (Program : Type 0) : Type 1 where
  pub Element : Type 0
  pub InputValue : Type 0
  pub WitnessMap : Type 0
  pub WitnessStack : Type 0
  -- `FieldElement::from_be_bytes_reduce`
  pub from_be_bytes_reduce : Bytes → Element
  -- `InputValue::Field` and `InputValue::Vec`
  pub field : Element → InputValue
  pub vec : List InputValue → InputValue
  -- `abi.encode`, `execute_program` with the BN254 solver, and `serialize`
  pub encode : Program → List (Bytes × InputValue) → Option WitnessMap
  pub execute_program : Program → WitnessMap → Option WitnessStack
  pub serialize : WitnessStack → Option Bytes

pub record Witness : Type 0 where
  pub bytes : Bytes
  pub public : PublicInputs

module _ (c : Crypto) {Program : Type 0} (n : Noir Program) where
  abbrev pub value : Field → n.InputValue
  value f = n.field (n.from_be_bytes_reduce f)

  abbrev pub input_fields : List Field → n.InputValue
  input_fields fs = n.vec (map value fs)

  abbrev pair : Field × Field → n.InputValue
  pair (a, b) = input_fields (a ∷ b ∷ [])

  -- The entries of the map, by the names of the circuit's parameters.
  unfoldable pub input_map : Plan → Values → List (Bytes × n.InputValue)
  unfolding from_u64
  input_map p v =
      (ascii "root", value v.public.root)
      ∷ (ascii "nullifiers", pair v.public.nullifiers)
      ∷ (ascii "out_commitments", pair v.public.commitments)
      ∷ (ascii "public_amount", value v.public.amount)
      ∷ (ascii "ext_data_hash", value v.public.hash)
      ∷ (ascii "bound_hash", value v.public.hash)
      ∷ (
        ascii "in_values",
        pair (from_u64 c p.spends.0.note.value, from_u64 c p.spends.1.note.value),
      )
      ∷ (ascii "asset_id", value p.asset)
      ∷ (ascii "in_random", pair (p.spends.0.note.random, p.spends.1.note.random))
      ∷ (ascii "spending_keys", pair (p.spends.0.owner.spend, p.spends.1.owner.spend))
      ∷ (ascii "viewing_keys", pair (p.spends.0.owner.view, p.spends.1.owner.view))
      ∷ (
        ascii "leaf_indices",
        pair (from_u64 c p.spends.0.merkle.index, from_u64 c p.spends.1.merkle.index),
      )
      ∷ (
        ascii "siblings",
        n.vec (
            input_fields p.spends.0.merkle.siblings ∷ input_fields p.spends.1.merkle.siblings ∷ []),
      )
      ∷ (ascii "out_npks", pair v.output_keys)
      ∷ (ascii "out_values", pair (from_u64 c p.sends.0.value, from_u64 c p.sends.1.value))
      ∷ []

  -- `Witness::build`
  unfoldable pub build_witness : Program → Plan → Public → Res Witness
  unfolding input_map
  build_witness program plan public = do
    v ← values c plan public
    initial ← ok_or (n.encode program (input_map plan v)) Error.witness
    stack ← ok_or (n.execute_program program initial) Error.witness
    bytes ← ok_or (n.serialize stack) Error.witness
    ok (record { bytes = bytes; public = v.public })
