-- ===== src/Circuit/Assignment.antt =====
-- The inputs that crates/veil402-sdk/src/proving/witness.rs gives to the parameters of
-- circuits/transaction/src/main.nr.
use mathlib.Core.List.{map-map}
use mathlib.Core.Path.{fun_ext}
use veil.Prelude.{ℕ, ◌≡◌, refl, ap, ◌∙◌, List, [], ◌∷◌, map}
use veil.Bytes.{Bytes, ascii, be_value}
use veil.Crypto.{Crypto}
use veil.Sdk.Field.{Field, from_u64}
use veil.Sdk.Transaction.{Plan, Values}
use veil.Sdk.Proving.Witness.{Noir, input_map}
use veil.Circuit.{Inputs}

abbrev pair_values : Field × Field → ℕ × ℕ
pair_values (a, b) = (be_value a, be_value b)

-- The inputs of the circuit that the client assigns, as numbers.
abbrev pub assigned : Crypto → Plan → Values → Inputs
assigned c p v = record {
  root = be_value v.public.root;
  nullifiers = pair_values v.public.nullifiers;
  out_commitments = pair_values v.public.commitments;
  public_amount = be_value v.public.amount;
  ext_data_hash = be_value v.public.hash;
  bound_hash = be_value v.public.hash;
  in_values = pair_values (from_u64 c p.spends.0.note.value, from_u64 c p.spends.1.note.value);
  asset_id = be_value p.asset;
  in_random = pair_values (p.spends.0.note.random, p.spends.1.note.random);
  spending_keys = pair_values (p.spends.0.owner.spend, p.spends.1.owner.spend);
  viewing_keys = pair_values (p.spends.0.owner.view, p.spends.1.owner.view);
  leaf_indices =
      pair_values (from_u64 c p.spends.0.merkle.index, from_u64 c p.spends.1.merkle.index);
  siblings = (map be_value p.spends.0.merkle.siblings, map be_value p.spends.1.merkle.siblings);
  out_npks = pair_values v.output_keys;
  out_values = pair_values (from_u64 c p.sends.0.value, from_u64 c p.sends.1.value);
}

-- `from_be_bytes_reduce` reads its bytes as a number.
pub record IsReducing {Program : Type 0} (n : Noir Program) : Type 0 where
  pub element : ℕ → n.Element
  pub reduces : (bs : Bytes) → n.from_be_bytes_reduce bs ≡ element (be_value bs)

module _ {Program : Type 0} (n : Noir Program) (N : IsReducing n) where
  abbrev number : ℕ → n.InputValue
  number k = n.field (N.element k)

  abbrev numbers : List ℕ → n.InputValue
  numbers ks = n.vec (map number ks)

  abbrev two : ℕ × ℕ → n.InputValue
  two (a, b) = numbers (a ∷ b ∷ [])

  -- The parameters of `main`, by name, with the inputs that they are given.
  unfoldable pub parameters : Inputs → List (Bytes × n.InputValue)
  parameters x =
      (ascii "root", number x.root)
      ∷ (ascii "nullifiers", two x.nullifiers)
      ∷ (ascii "out_commitments", two x.out_commitments)
      ∷ (ascii "public_amount", number x.public_amount)
      ∷ (ascii "ext_data_hash", number x.ext_data_hash)
      ∷ (ascii "bound_hash", number x.bound_hash)
      ∷ (ascii "in_values", two x.in_values)
      ∷ (ascii "asset_id", number x.asset_id)
      ∷ (ascii "in_random", two x.in_random)
      ∷ (ascii "spending_keys", two x.spending_keys)
      ∷ (ascii "viewing_keys", two x.viewing_keys)
      ∷ (ascii "leaf_indices", two x.leaf_indices)
      ∷ (ascii "siblings", n.vec (numbers x.siblings.0 ∷ numbers x.siblings.1 ∷ []))
      ∷ (ascii "out_npks", two x.out_npks)
      ∷ (ascii "out_values", two x.out_values)
      ∷ []

  abbrev reading : (Bytes → n.Element) → Noir Program
  reading g = record n { from_be_bytes_reduce = g }

  -- The map that the client builds gives the circuit's parameters these inputs.
  pub input_map-parameters :
      (c : Crypto) (p : Plan) (v : Values) → input_map c n p v ≡ parameters (assigned c p v)
  unfolding input_map parameters
  input_map-parameters c p v =
      ap (λ (g : Bytes → n.Element). input_map c (reading g) p v) (fun_ext (λ bs. N.reduces bs))
      ∙ rw
          (
            ← map-map number be_value p.spends.0.merkle.siblings,
            ← map-map number be_value p.spends.1.merkle.siblings,
          )
          refl
