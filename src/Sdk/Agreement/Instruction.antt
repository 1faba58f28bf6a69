-- ===== src/Sdk/Agreement/Instruction.antt =====
-- crates/veil402-sdk/src/solana/instruction.rs against onchain/programs/pool/src/instructions/transact.rs.
use veil.Prelude.{true, ◌≤◌, ◌≡◌, ◌≢◌, refl, true, length, arith}
use veil.Prelude.Int.{ℤ, pos_part, is_negative}
use veil.Prelude.Res.{ok}
use veil.Bytes.{Bytes}
use veil.Crypto.{IsCrypto, IsScalar}
use veil.Program.Field.{is_canonical_field}
use veil.Program.Field.Canonical.{is_canonical_field_iff}
use veil.Program.Runtime.{Pubkey, Runtime}
use veil.Program.State as Chain
use veil.Program.State.{program_id}
use veil.Program.Tree as Tree
use veil.Program.Transact as Transact
use veil.Program.Transact.Guards.{IsAdmissible}
use veil.Program.Transact.Effects.{record_address}
use veil.Program.Verifier as Verifier
use veil.Sdk.Field.Laws.{from_signed-eq}
use veil.Sdk.Transaction.{Plan, Public, Values, values}
use veil.Sdk.Transaction.Statement.{values-IsStatement}
use veil.Sdk.Solana.{Pool, External, Proof, new_external}
use veil.Sdk.Solana.Instruction.{Instruction, Codec, request, nullifier_record, build_instruction}
use veil.Sdk.Agreement.Witness.{on_chain}
use veil.Sdk.Agreement.Binding.{bind-eq-ext_data_hash}
use veil.Sdk.Agreement.Scalars.{nullifier-IsScalar, commitment_from_key-IsScalar, root-IsScalar}
use veil.Sdk.Agreement.Received.{
  accounts, arguments, IsReceived, encode_request-IsReceived, build_instruction_inv,
}

-- An accepted payload has at most 128 bytes.
pub new_external_fits :
    (p : Plan) (recipient : Pubkey) {e : External}
    → new_external p recipient ≡ ok e
    → (e.recipient ≡ recipient) × (length e.encrypted.0 ≤ 128) × (length e.encrypted.1 ≤ 128)
unfolding new_external
new_external_fits p recipient e = ground arith

module _ (r : Runtime) (C : IsCrypto r.crypto) (l : Codec) where
  canonical : (bs : Bytes) → IsScalar bs → is_canonical_field r.crypto bs ≡ true
  canonical bs h = (is_canonical_field_iff r.crypto C bs h.array).1 h.reduced

  -- The accounts and arguments of an instruction for a plan whose values are proved pass the guards.
  pub request-IsAdmissible :
      (p : Plan) (public : Public) (v : Values) (pool : Pool) (proof : Proof) (external : External)
      (recipient payer : Pubkey)
      → values r.crypto p public ≡ ok v
      → pos_part public.amount ≡ 0
      → new_external p recipient ≡ ok external
      → proof.public ≡ v.public
      → length proof.bytes ≡ 388
      → (is_negative public.amount ≡ true
          → r.get_associated_token_address external.recipient pool.mint ≢ pool.vault)
      → IsAdmissible r
          (accounts (request r pool proof external public.amount payer))
          (arguments (request r pool proof external public.amount payer))
  request-IsAdmissible p public v pool proof external recipient payer ev en ex ep el ea =
      let s = values-IsStatement r.crypto p public ev in
      let (_, fits0, fits1) = new_external_fits p recipient ex in
      record {
        no_deposit = en;
        proof_size = el;
        root_canonical = rw ep (canonical _ (root-IsScalar r.crypto C p public v s));
        nullifier_0_canonical =
            rw ep (canonical _ (nullifier-IsScalar r.crypto C _ _ s.spend_0.derived));
        nullifier_1_canonical =
            rw ep (canonical _ (nullifier-IsScalar r.crypto C _ _ s.spend_1.derived));
        commitment_0_canonical =
            rw ep (canonical _ (commitment_from_key-IsScalar r.crypto C _ _ _ s.commitment_0));
        commitment_1_canonical =
            rw ep (canonical _ (commitment_from_key-IsScalar r.crypto C _ _ _ s.commitment_1));
        nullifier_0_nonzero = rw ep s.spend_0.nonzero;
        nullifier_1_nonzero = rw ep s.spend_1.nonzero;
        distinct = rw ep s.distinct;
        note_0_fits = fits0;
        note_1_fits = fits1;
        to_another = λ neg. rw neg (ea neg);
      }

  -- Against a loaded pool with the client's configuration, and a known root, the program decides the
  -- instruction by the verifier's answer on the client's proof and exactly the client's public
  -- inputs; and the instruction names the record addresses that the program derives.
  pub build_instruction-check_proof :
      (s : Chain.Chain r) (a : Transact.Loaded) (pool : Pool) (proof : Proof) (external : External)
      (amount : ℤ) (payer : Pubkey) (i : Instruction)
      → pool.program ≡ program_id
      → a.pool.domain ≡ pool.domain
      → a.pool.asset.mint ≡ pool.mint
      → a.pool.verifier ≡ pool.verifier
      → Tree.contains_root s pool.tree proof.public.root ≡ ok true
      → build_instruction r l pool proof external amount payer ≡ ok i
      → (k : Transact.TransactAccounts) × (x : Transact.TransactArgs) × IsReceived l i k x
        × (Transact.check_proof r s k a x
            ≡ Verifier.verify r (on_chain proof.public) pool.verifier proof.bytes)
        × (k.nullifier_0_record ≡ record_address r pool.address x.nullifiers.0)
        × (k.nullifier_1_record ≡ record_address r pool.address x.nullifiers.1)
  unfolding Transact.check_proof nullifier_record
  build_instruction-check_proof s a pool proof external amount payer i own ed em ev known eb =
      let (bound, amount_eq, same) =
        build_instruction_inv r l pool proof external amount payer eb in
      let built = request r pool proof external amount payer in
      let hash = (bind-eq-ext_data_hash r C pool external amount own).0 bound in
      (
        accounts built,
        arguments built,
        encode_request-IsReceived l built own same,
        rw (known, ed, em, ev, hash, ← from_signed-eq r.crypto C amount, ← amount_eq) refl,
        rw own refl,
        rw own refl,
      )
