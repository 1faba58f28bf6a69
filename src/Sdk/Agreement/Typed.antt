-- ===== src/Sdk/Agreement/Typed.antt =====
-- The types of the public inputs: crates/veil402-sdk/src/protocol/transaction.rs, Plan::values.
use veil.Prelude.{◌≡◌, All}
use veil.Prelude.Int.{ℤ}
use veil.Prelude.Res.{ok, bind_inv, ok-injective}
use veil.Crypto.{IsCrypto, IsScalar}
use veil.Program.Runtime.{Runtime}
use veil.Program.Field.Amount.{public_amount_field-IsScalar}
use veil.Program.Field.Canonical.{field_bytes-IsScalar}
use veil.Sdk.Field.{Field}
use veil.Sdk.Field.Laws.{from_fr-eq, from_signed-eq}
use veil.Sdk.Transaction.{Plan, Public, Values, values, fields}
use veil.Sdk.Transaction.Statement.{values-IsStatement}
use veil.Sdk.Solana.{Pool, External, bind, payload_length_bytes}
use veil.Sdk.Agreement.Scalars.{nullifier-IsScalar, commitment_from_key-IsScalar, root-IsScalar}

module _ (r : Runtime) (C : IsCrypto r.crypto) where
  bind-IsScalar :
      (pool : Pool) (external : External) (amount : ℤ) {h : Field}
      → bind r pool external amount ≡ ok h
      → IsScalar h
  unfolding bind
  bind-IsScalar pool external amount e =
      bind_inv (payload_length_bytes external.encrypted.0) _ e λ a e0 h0.
        bind_inv (payload_length_bytes external.encrypted.1) _ h0 λ b e1 h1.
          rw (← ok-injective _ _ h1)
            (rw (from_fr-eq r.crypto C _) (field_bytes-IsScalar r.crypto C _))

  -- The public inputs are field elements: if values are computed for a plan with a hash that the client
  -- computes, each of the seven fields has 32 bytes and stands for a number below the modulus.
  pub values-IsScalar :
      (p : Plan) (public : Public) (v : Values) (pool : Pool) (external : External)
      → values r.crypto p public ≡ ok v
      → bind r pool external public.amount ≡ ok public.hash
      → All IsScalar (fields v.public)
  unfolding fields
  values-IsScalar p public v pool external e bound =
      let s = values-IsStatement r.crypto p public e in
      let amount : IsScalar v.public.amount =
        rw (s.amount, from_signed-eq r.crypto C public.amount)
          (public_amount_field-IsScalar r.crypto C public.amount) in
      let hash : IsScalar v.public.hash =
        rw s.hash (bind-IsScalar pool external public.amount bound) in
      let commitment_0 = commitment_from_key-IsScalar r.crypto C _ _ _ s.commitment_0 in
      let commitment_1 = commitment_from_key-IsScalar r.crypto C _ _ _ s.commitment_1 in
      let nullifier_0 = nullifier-IsScalar r.crypto C _ _ s.spend_0.derived in
      let nullifier_1 = nullifier-IsScalar r.crypto C _ _ s.spend_1.derived in
      (
        root-IsScalar r.crypto C p public v s,
        (nullifier_0, (nullifier_1, (commitment_0, (commitment_1, (amount, (hash, tt)))))),
      )
