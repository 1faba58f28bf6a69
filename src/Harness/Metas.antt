-- ===== src/Harness/Metas.antt =====
-- The instruction of the end-to-end tests is the client's.
use veil.Prelude.{◌≡◌, ap, some}
use veil.Prelude.Int.{ℤ}
use veil.Prelude.Res.{ok, ok_or, ok_or-eq-ok, bind_inv, ok-injective}
use veil.Program.Runtime.{Pubkey, Runtime}
use veil.Program.State.{program_id}
use veil.Sdk.Error.{transaction}
use veil.Sdk.Solana.{Pool, External, Proof}
use veil.Sdk.Solana.Instruction.{
  Instruction, Codec, Request, request, request_args, nullifier_record, encode_request,
  build_instruction, account_metas,
}
use veil.Sdk.Agreement.Received.{build_instruction_inv}
use veil.Harness.{Transaction, transact_instruction, nullifier_address, to_account_metas}

-- A request of the client as a transaction of the tests.
abbrev pub of_request : Request → Transaction
of_request q = record {
  proof = q.proof;
  root = q.root;
  nullifiers = q.nullifiers;
  out_commitments = q.out_commitments;
  amount = q.ext_amount;
  recipient = q.recipient;
  encrypted_notes = q.encrypted_notes;
  recipient_ata = q.recipient_ata;
  verifier = q.verifier;
  mint = q.mint;
  tree = q.tree;
  vault = q.vault;
}

module _ (r : Runtime) (l : Codec) where
  -- What the client builds for a pool of this program is the instruction that the program's own
  -- declaration of its accounts gives for the same data: the same accounts in the same order, the same
  -- signer and writable accounts, and a payload that begins with the discriminator that Anchor gives to the
  -- instruction `transact`.
  pub transact_instruction-build_instruction :
      (pool : Pool) (proof : Proof) (external : External) (amount : ℤ) (payer : Pubkey)
      {i : Instruction}
      → pool.program ≡ program_id
      → build_instruction r l pool proof external amount payer ≡ ok i
      → transact_instruction r l pool payer
          (of_request (request r pool proof external amount payer))
        ≡ some i
  unfolding transact_instruction nullifier_record encode_request account_metas to_account_metas
      nullifier_address
  transact_instruction-build_instruction pool proof external amount payer {i} own e =
      let (_, _, encoded) = build_instruction_inv r l pool proof external amount payer e in
      bind_inv
        (ok_or (l.to_vec (request_args (request r pool proof external amount payer)))
          (transaction "instruction encoding failed"))
        _ encoded λ body e0 e1. rw (ok_or-eq-ok _ _ e0) (rw own at (ap some (ok-injective _ _ e1)))
