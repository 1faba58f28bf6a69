-- ===== src/Sdk/Solana/Instruction.antt =====
-- crates/veil402-sdk/src/solana/instruction.rs: the transaction instruction.
use veil.Prelude.{Bool, true, false, Option, List, [], ◌∷◌, ◌++◌, take, replicate, if◌then◌else◌}
use veil.Prelude.Int.{ℤ, is_negative}
use veil.Prelude.Res.{ok, ok_or, require, ◌>>=◌, ◌>>◌}
use veil.Bytes.{Bytes, bytes_eq, ascii}
use veil.Program.Runtime.{Pubkey, Runtime}
use veil.Sdk.Error.{Res, transaction}
use veil.Sdk.Field.{Field, from_signed}
use veil.Sdk.Solana.{Pool, External, Proof, bind}

-- `AccountMeta`
pub record AccountMeta : Type 0 where
  pub pubkey : Pubkey
  pub is_signer : Bool
  pub is_writable : Bool

-- `solana_instruction::Instruction`; `payload` is its field `data`.
pub record Instruction : Type 0 where
  pub program_id : Pubkey
  pub accounts : List AccountMeta
  pub payload : Bytes

-- The arguments that are serialised, with those of `ExtData` at the end.
pub record Args : Type 0 where
  pub proof : Bytes
  pub root : Bytes
  pub nullifiers : Bytes × Bytes
  pub out_commitments : Bytes × Bytes
  pub ext_amount : ℤ
  pub recipient : Bytes
  pub encrypted_notes : Bytes × Bytes

-- `borsh::to_vec` on the arguments, and `Sha256::digest`.
pub record Codec : Type 0 where
  pub to_vec : Args → Option Bytes
  pub sha256 : Bytes → Bytes

abbrev pub system_program : Pubkey
system_program = replicate 32 0

abbrev pub new_readonly : Pubkey → Bool → AccountMeta
new_readonly key signer = record { pubkey = key; is_signer = signer; is_writable = false }

abbrev pub new_writable : Pubkey → Bool → AccountMeta
new_writable key signer = record { pubkey = key; is_signer = signer; is_writable = true }

-- The addresses and the arguments of the instruction.
pub record Request : Type 0 where
  pub program_id : Pubkey
  pub pool : Pubkey
  pub tree : Pubkey
  pub vault : Pubkey
  pub mint : Pubkey
  pub nullifier_records : Pubkey × Pubkey
  pub recipient_ata : Pubkey
  pub verifier : Pubkey
  pub payer : Pubkey
  pub token_program : Pubkey
  pub proof : Bytes
  pub root : Bytes
  pub nullifiers : Bytes × Bytes
  pub out_commitments : Bytes × Bytes
  pub ext_amount : ℤ
  pub recipient : Pubkey
  pub encrypted_notes : Bytes × Bytes

unfoldable pub account_metas : Request → List AccountMeta
account_metas q =
    new_readonly q.pool false
    ∷ new_writable q.tree false
    ∷ new_writable q.vault false
    ∷ new_readonly q.mint false
    ∷ new_writable q.nullifier_records.0 false
    ∷ new_writable q.nullifier_records.1 false
    ∷ new_writable q.recipient_ata false
    ∷ new_readonly q.verifier false
    ∷ new_writable q.payer true
    ∷ new_readonly q.token_program false
    ∷ new_readonly system_program false
    ∷ []

abbrev pub request_args : Request → Args
request_args q = record {
  proof = q.proof;
  root = q.root;
  nullifiers = q.nullifiers;
  out_commitments = q.out_commitments;
  ext_amount = q.ext_amount;
  recipient = q.recipient;
  encrypted_notes = q.encrypted_notes;
}

abbrev pub discriminator : Codec → Bytes
discriminator l = take 8 (l.sha256 (ascii "global:transact"))

unfoldable pub encode_request : Codec → Request → Res Instruction
unfolding account_metas
encode_request l q = do
  body ← ok_or (l.to_vec (request_args q)) (transaction "instruction encoding failed")
  ok (record {
    program_id = q.program_id;
    accounts = account_metas q;
    payload = discriminator l ++ body;
  })

module _ (r : Runtime) where
  unfoldable pub nullifier_record : Pool → Field → Pubkey
  nullifier_record pool nullifier =
      (r.find_program_address (ascii "nullifier" ∷ pool.address ∷ nullifier ∷ []) pool.program).0

  -- What the instruction names and carries.
  abbrev pub request : Pool → Proof → External → ℤ → Pubkey → Request
  request pool proof external amount payer = record {
    program_id = pool.program;
    pool = pool.address;
    tree = pool.tree;
    vault = pool.vault;
    mint = pool.mint;
    nullifier_records = (
      nullifier_record pool proof.public.nullifiers.0,
      nullifier_record pool proof.public.nullifiers.1,
    );
    recipient_ata =
        if is_negative amount
        then r.get_associated_token_address external.recipient pool.mint
        else pool.vault;
    verifier = pool.verifier;
    payer = payer;
    token_program = r.token_program;
    proof = proof.bytes;
    root = proof.public.root;
    nullifiers = proof.public.nullifiers;
    out_commitments = proof.public.commitments;
    ext_amount = amount;
    recipient = external.recipient;
    encrypted_notes = external.encrypted;
  }

  -- `instruction::transact`
  unfoldable pub build_instruction : Codec → Pool → Proof → External → ℤ → Pubkey → Res Instruction
  unfolding bind encode_request
  build_instruction l pool proof external amount payer = do
    hash ← bind r pool external amount
    require (bytes_eq proof.public.hash hash)
        (transaction "proof is bound to different public data")
    require (bytes_eq proof.public.amount (from_signed r.crypto amount))
        (transaction "proof is bound to a different amount")
    encode_request l (request pool proof external amount payer)
