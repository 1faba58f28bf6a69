-- ===== src/Sdk/Agreement/Sent.antt =====
-- crates/veil402-sdk/src/client/mod.rs: the instruction that `transfer` and `withdraw` return, with what was
-- checked on the way to it.
use veil.Prelude.{ℕ, true, ◌≡◌, ◌≢◌, inl, inr, refl, sym, ap, ◌∙◌, Bool-cases, length, arith, All}
use veil.Prelude.Int.{ℤ, pos_part, is_negative}
use veil.Prelude.Res.{ok, err, ok-injective, bind_inv}
use veil.Bytes.{bytes_eq, bytes_eq_iff}
use veil.Crypto.{IsCrypto, IsScalar}
use veil.Program.Runtime.{Pubkey}
use veil.Program.Transact as Transact
use veil.Program.Transact.Guards.{transact_guards_iff}
use veil.Sdk.Error.{Res}
use veil.Sdk.Field.{from_signed}
use veil.Sdk.Transaction.{Plan, Public, Transaction, plan, fields}
use veil.Sdk.Solana.{Pool, External, Withdrawal, Proof, new_external, bind, public_amount}
use veil.Sdk.Solana.Instruction.{request, encode_request, build_instruction}
use veil.Sdk.Client.{
  Platform, Veil, Slot, Called, Prepared, finish, planned, proceed, prepare, withdraw, prove_plan,
}
use veil.Sdk.Client.Proving.{IsReady, prove_plan-IsProved}
use veil.Sdk.Agreement.Typed.{values-IsScalar}
use veil.Sdk.Agreement.Received.{accounts, arguments, build_instruction_inv}
use veil.Sdk.Agreement.Instruction.{new_external_fits, request-IsAdmissible}

module _ (f : Platform) where
  -- The instruction is the encoding of a request with the proof, to which the public data are bound.
  pub record IsSent (pool : Pool) (recipient : Pubkey) (amount : ℤ) (payer : Pubkey) (x : Prepared)
      : Type 0 where
    pub external : External
    pub to_recipient : external.recipient ≡ recipient
    pub bound : bind f.runtime pool external amount ≡ ok x.proof.public.hash
    pub same_amount : x.proof.public.amount ≡ from_signed f.runtime.crypto amount
    pub encoded :
        encode_request f.codec (request f.runtime pool x.proof external amount payer)
        ≡ ok x.instruction
    pub guarded :
        Transact.transact_guards f.runtime
          (accounts (request f.runtime pool x.proof external amount payer))
          (arguments (request f.runtime pool x.proof external amount payer))
        ≡ ok tt
    pub typed : All IsScalar (fields x.proof.public)

  finish_ok :
      (pool : Pool) (external : External) (amount : ℤ) (payer : Pubkey) (c : Called f Proof)
      {x : Prepared}
      → (finish f pool external amount payer c).0.1 ≡ ok x
      → (c.0.1 ≡ ok x.proof)
        × (build_instruction f.runtime f.codec pool x.proof external amount payer
            ≡ ok x.instruction)
  finish_ok pool external amount payer ((slot, err e), w) h = absurd (cc)
  finish_ok pool external amount payer ((slot, ok proof), w) {x} h =
      bind_inv (build_instruction f.runtime f.codec pool proof external amount payer) _ h λ i e0 h0.
        let same = ok-injective _ _ h0 in
        let same_proof : proof ≡ x.proof = ap (λ (y : Prepared). y.proof) same in
        let same_instruction : i ≡ x.instruction = ap (λ (y : Prepared). y.instruction) same in
        (ap ok same_proof, rw (← same_proof) e0 ∙ ap ok same_instruction)

  proceed_ok :
      (v : Veil f) (slot : Slot f) (pool : Pool) (amount : ℤ) (payer : Pubkey)
      (r : Res (Plan × External × Public)) (w : f.os.World) {x : Prepared}
      → (proceed f v slot pool amount payer r w).0.1 ≡ ok x
      → (p : Plan) × (external : External) × (public : Public) × (r ≡ ok (p, external, public))
        × ((prove_plan f v slot p public w).0.1 ≡ ok x.proof)
        × (build_instruction f.runtime f.codec pool x.proof external amount payer
            ≡ ok x.instruction)
  proceed_ok v slot pool amount payer (err e) w h = absurd (cc)
  proceed_ok v slot pool amount payer (ok (p, external, public)) w h =
      let (proved, built) =
        finish_ok pool external amount payer (prove_plan f v slot p public w) h in
      (p, external, public, refl, proved, built)

  planned_inv :
      (fuel : ℕ) (pool : Pool) (t : Transaction) (recipient : Pubkey) (amount : ℤ)
      (entropy : f.rng.State) {p : Plan} {external : External} {public : Public}
      → planned f fuel pool t recipient amount entropy ≡ ok (p, external, public)
      → (new_external p recipient ≡ ok external)
        × (public.amount ≡ amount)
        × (bind f.runtime pool external public.amount ≡ ok public.hash)
  unfolding planned
  planned_inv fuel pool t recipient amount entropy e =
      bind_inv (plan f.runtime.crypto f.rng fuel t pool.asset entropy) _ e λ drawn e0 h0.
        bind_inv (new_external drawn.0 recipient) _ h0 λ external e1 h1.
          bind_inv (bind f.runtime pool external amount) _ h1 λ hash e2 h2.
            let same = ok-injective _ _ h2 in
            let same_plan = ap (λ (y : Plan × External × Public). y.0) same in
            let same_external = ap (λ (y : Plan × External × Public). y.1) same in
            let same_amount = ap (λ (y : Plan × External × Public). y.2.amount) same in
            let same_hash = ap (λ (y : Plan × External × Public). y.2.hash) same in
            (
              rw (← same_plan) e1 ∙ ap ok same_external,
              sym same_amount,
              rw (← same_external, ← same_amount) e2 ∙ ap ok same_hash,
            )

  withdraw_inv :
      (fuel : ℕ) (v : Veil f) (slot : Slot f) (pool : Pool) (t : Transaction) (wd : Withdrawal)
      (payer : Pubkey) (entropy : f.rng.State) (w : f.os.World) {x : Prepared}
      → (withdraw f fuel v slot pool t wd payer entropy w).0.1 ≡ ok x
      → (wd.recipient ≢ pool.address)
        × ((prepare f fuel v slot pool t wd.recipient (public_amount wd) payer entropy w).0.1
            ≡ ok x)
  unfolding withdraw
  withdraw_inv fuel v slot pool t wd payer entropy w e =
      elim (Bool-cases (bytes_eq wd.recipient pool.address)) [
        | inl same ↦ absurd (cc (rw same at e))
        | inr other ↦ (
          λ eq. absurd (cc ((bytes_eq_iff wd.recipient pool.address).1 eq, other)),
          rw other at e,
        )
      ]

  public_amount_withdraws : (wd : Withdrawal) → pos_part (public_amount wd) ≡ 0
  public_amount_withdraws wd = ground arith

  module _ (C : IsCrypto f.runtime.crypto) where
    pub prepare-IsSent :
        (fuel : ℕ) (v : Veil f) (slot : Slot f) (pool : Pool) (t : Transaction) (recipient : Pubkey)
        (amount : ℤ) (payer : Pubkey) (entropy : f.rng.State) (w : f.os.World) {x : Prepared}
        → IsReady f slot
        → pos_part amount ≡ 0
        → (is_negative amount ≡ true
            → f.runtime.get_associated_token_address recipient pool.mint ≢ pool.vault)
        → (prepare f fuel v slot pool t recipient amount payer entropy w).0.1 ≡ ok x
        → length x.proof.bytes ≡ 388
        → IsSent pool recipient amount payer x
    unfolding prepare
    prepare-IsSent fuel v slot pool t recipient amount payer entropy w {x} ready no_deposit away e
          size =
        let (p, external, public, as_planned, proved, built) =
          proceed_ok v slot pool amount payer (planned f fuel pool t recipient amount entropy) w
            e in
        let (accepted, amount_eq, hashed) =
          planned_inv fuel pool t recipient amount entropy as_planned in
        let d = prove_plan-IsProved f v slot p public w ready proved in
        let (to_recipient, _, _) = new_external_fits p recipient accepted in
        let (bound, same_amount, encoded) =
          build_instruction_inv f.runtime f.codec pool x.proof external amount payer built in
        let asked = request f.runtime pool x.proof external amount payer in
        let admissible =
          request-IsAdmissible f.runtime C f.codec p public d.the_values pool x.proof external
            recipient payer d.computed (rw amount_eq no_deposit) accepted d.same_public size
            (λ neg. rw to_recipient (away (rw amount_eq at neg))) in
        record {
          external = external;
          to_recipient = to_recipient;
          bound = bound;
          same_amount = same_amount;
          encoded = encoded;
          guarded =
              (transact_guards_iff f.runtime (accounts asked) (arguments asked)).1
                (rw amount_eq at admissible);
          typed =
              rw d.same_public
                (values-IsScalar f.runtime C p public d.the_values pool external d.computed hashed);
        }

    pub withdraw-IsSent :
        (fuel : ℕ) (v : Veil f) (slot : Slot f) (pool : Pool) (t : Transaction) (wd : Withdrawal)
        (payer : Pubkey) (entropy : f.rng.State) (w : f.os.World) {x : Prepared}
        → IsReady f slot
        → ((owner : Pubkey)
            → f.runtime.get_associated_token_address owner pool.mint ≡ pool.vault
            → owner ≡ pool.address)
        → (withdraw f fuel v slot pool t wd payer entropy w).0.1 ≡ ok x
        → length x.proof.bytes ≡ 388
        → IsSent pool wd.recipient (public_amount wd) payer x
    withdraw-IsSent fuel v slot pool t wd payer entropy w ready own e size =
        let (other, prepared) = withdraw_inv fuel v slot pool t wd payer entropy w e in
        prepare-IsSent fuel v slot pool t wd.recipient (public_amount wd) payer entropy w ready
          (public_amount_withdraws wd) (λ _ same. other (own wd.recipient same)) prepared size
