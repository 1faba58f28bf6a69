-- ===== src/Sdk/Agreement/Received.antt =====
-- The instruction of crates/veil402-sdk/src/solana/instruction.rs as the program receives it.
use veil.Prelude.{List, true, Option, none, some, [], ◌∷◌, ◌++◌, ◌≡◌, refl, sym, ap, ◌∙◌, true}
use veil.Prelude.Int.{ℤ}
use mathlib.Core.Path.{subst}
use veil.Prelude.Res.{
  ok_or, ok_or-eq-ok, ok, require, bind_inv, then_inv, require-eq-ok, ok-injective,
}
use veil.Bytes.{Bytes, ascii, bytes_eq, bytes_eq_iff}
use veil.Program.Runtime.{Pubkey, Runtime, system_program, method_discriminator}
use veil.Program.State.{program_id}
use veil.Program.Transact as Transact
use veil.Sdk.Error.{transaction}
use veil.Sdk.Field.{from_signed}
use veil.Sdk.Solana.{Pool, External, Proof, bind}
use veil.Sdk.Solana.Instruction.{
  Instruction, AccountMeta, Args, Codec, Request, account_metas, request_args, discriminator,
  encode_request, request, build_instruction,
}

-- Accounts and arguments as the program has them.
abbrev pub accounts : Request → Transact.TransactAccounts
accounts q = record {
  pool = q.pool;
  tree = q.tree;
  vault = q.vault;
  mint = q.mint;
  nullifier_0_record = q.nullifier_records.0;
  nullifier_1_record = q.nullifier_records.1;
  recipient_ata = q.recipient_ata;
  verifier_program = q.verifier;
  payer_signed = true;
  token_program = q.token_program;
  system_program = system_program;
  tree_writable = true;
  vault_writable = true;
  record_0_writable = true;
  record_1_writable = true;
  recipient_ata_writable = true;
  payer_writable = true;
}

abbrev pub arguments : Request → Transact.TransactArgs
arguments q = record {
  proof = q.proof;
  root = q.root;
  nullifiers = q.nullifiers;
  out_commitments = q.out_commitments;
  ext_amount = q.ext_amount;
  ext_data = record { recipient = q.recipient; encrypted_notes = q.encrypted_notes };
}

-- The accounts of `Transact` are taken from the instruction by their positions, with what it says of them.
abbrev pub by_position : List AccountMeta → Option Transact.TransactAccounts
by_position (a0 ∷ a1 ∷ a2 ∷ a3 ∷ a4 ∷ a5 ∷ a6 ∷ a7 ∷ a8 ∷ a9 ∷ a10 ∷ []) = some (record {
  pool = a0.pubkey;
  tree = a1.pubkey;
  vault = a2.pubkey;
  mint = a3.pubkey;
  nullifier_0_record = a4.pubkey;
  nullifier_1_record = a5.pubkey;
  recipient_ata = a6.pubkey;
  verifier_program = a7.pubkey;
  payer_signed = a8.is_signer;
  token_program = a9.pubkey;
  system_program = a10.pubkey;
  tree_writable = a1.is_writable;
  vault_writable = a2.is_writable;
  record_0_writable = a4.is_writable;
  record_1_writable = a5.is_writable;
  recipient_ata_writable = a6.is_writable;
  payer_writable = a8.is_writable;
})
by_position other = none

abbrev pub serialised : Transact.TransactArgs → Args
serialised x = record {
  proof = x.proof;
  root = x.root;
  nullifiers = x.nullifiers;
  out_commitments = x.out_commitments;
  ext_amount = x.ext_amount;
  recipient = x.ext_data.recipient;
  encrypted_notes = x.ext_data.encrypted_notes;
}

-- The program is the one that is called, with these accounts, and the instruction data are the discriminator
-- of its instruction `transact` and the encoding of these arguments.
pub record IsReceived (l : Codec) (i : Instruction) (k : Transact.TransactAccounts)
    (x : Transact.TransactArgs) : Type 0 where
  pub program : i.program_id ≡ program_id
  pub positions : by_position i.accounts ≡ some k
  pub body : Bytes
  pub encoded : l.to_vec (serialised x) ≡ some body
  pub payload : i.payload ≡ method_discriminator l.sha256 (ascii "transact") ++ body

pub encode_request-IsReceived :
    (l : Codec) (q : Request) {i : Instruction}
    → q.program_id ≡ program_id
    → encode_request l q ≡ ok i
    → IsReceived l i (accounts q) (arguments q)
unfolding encode_request account_metas
encode_request-IsReceived l q {i} own e =
    bind_inv (ok_or (l.to_vec (request_args q)) (transaction "instruction encoding failed")) _ e
      λ body e0 e1.
        let made : Instruction = record {
          program_id = q.program_id;
          accounts = account_metas q;
          payload = discriminator l ++ body;
        } in
        let whole : IsReceived l made (accounts q) (arguments q) = record {
          program = own;
          positions = refl;
          body = body;
          encoded = ok_or-eq-ok _ _ e0;
          payload = refl;
        } in
        subst (λ (j : Instruction). IsReceived l j (accounts q) (arguments q))
          (ok-injective made i e1) whole

module _ (r : Runtime) (l : Codec) where
  pub build_instruction_inv :
      (pool : Pool) (proof : Proof) (external : External) (amount : ℤ) (payer : Pubkey)
      {i : Instruction}
      → build_instruction r l pool proof external amount payer ≡ ok i
      → (bind r pool external amount ≡ ok proof.public.hash)
        × (proof.public.amount ≡ from_signed r.crypto amount)
        × (encode_request l (request r pool proof external amount payer) ≡ ok i)
  unfolding build_instruction
  build_instruction_inv pool proof external amount payer {i} e =
      bind_inv (bind r pool external amount) _ e λ hash e0 h0.
        then_inv
          (require (bytes_eq proof.public.hash hash)
            (transaction "proof is bound to different public data"))
          _ h0
          λ e1 h1.
            then_inv
              (require (bytes_eq proof.public.amount (from_signed r.crypto amount))
                (transaction "proof is bound to a different amount"))
              _ h1
              λ e2 h2.
                let hash_eq =
                  (bytes_eq_iff _ _).0
                    (require-eq-ok _ (transaction "proof is bound to different public data") e1) in
                let amount_eq =
                  (bytes_eq_iff _ _).0
                    (require-eq-ok _ (transaction "proof is bound to a different amount") e2) in
                (e0 ∙ ap ok (sym hash_eq), amount_eq, h2)
