-- ===== src/Harness.antt =====
-- onchain/tests/e2e/src/scenario.rs: the instruction and the transactions of the end-to-end tests, the accounts
-- that onchain/programs/pool/src/instructions/transact.rs declares for it, and
-- onchain/tests/mock-verifier/src/lib.rs.
pub mod Metas
pub mod Baseline
use veil.Prelude.{
  ℕ, ◌+◌, ◌*◌, Bool, true, false, Option, none, some, List, [], ◌∷◌, ◌++◌, replicate, ◌==◌,
}
use veil.Prelude.Int.{ℤ, pos}
use veil.Bytes.{Bytes, ascii, be_bytes}
use veil.Program.Runtime.{Pubkey, Runtime, method_discriminator}
use veil.Program.State.{program_id, proof_bytes}
use veil.Sdk.Solana.{Pool}
use veil.Sdk.Solana.Instruction.{
  AccountMeta, Instruction, Args, Codec, new_readonly, new_writable, system_program,
}

-- `field`
unfoldable pub field : ℕ → Bytes
field value = replicate 24 0 ++ be_bytes 8 value

-- `Transaction`
pub record Transaction : Type 0 where
  pub proof : Bytes
  pub root : Bytes
  pub nullifiers : Bytes × Bytes
  pub out_commitments : Bytes × Bytes
  pub amount : ℤ
  pub recipient : Pubkey
  pub encrypted_notes : Bytes × Bytes
  pub recipient_ata : Pubkey
  pub verifier : Pubkey
  pub mint : Pubkey
  pub tree : Pubkey
  pub vault : Pubkey

-- `pool::accounts::Transact`: the fields of the program's `Transact`, as addresses
pub record Transact : Type 0 where
  pub pool : Pubkey
  pub tree : Pubkey
  pub vault : Pubkey
  pub mint : Pubkey
  pub nullifier_0_record : Pubkey
  pub nullifier_1_record : Pubkey
  pub recipient_ata : Pubkey
  pub verifier_program : Pubkey
  pub payer : Pubkey
  pub token_program : Pubkey
  pub system_program : Pubkey

-- How a field of `Transact` is declared: `mut` and `init` make an account writable, and a `Signer` signs.
pub data Declared : Type 0 where
  plain mutable created signer : Declared

abbrev pub meta : Pubkey → Declared → AccountMeta
meta key plain = new_readonly key false
meta key mutable = new_writable key false
meta key created = new_writable key false
meta key signer = new_writable key true

-- `to_account_metas`: the fields in the order of the structure
unfoldable pub to_account_metas : Transact → List AccountMeta
to_account_metas a =
    meta a.pool plain
    ∷ meta a.tree mutable
    ∷ meta a.vault mutable
    ∷ meta a.mint plain
    ∷ meta a.nullifier_0_record created
    ∷ meta a.nullifier_1_record created
    ∷ meta a.recipient_ata mutable
    ∷ meta a.verifier_program plain
    ∷ meta a.payer signer
    ∷ meta a.token_program plain
    ∷ meta a.system_program plain
    ∷ []

-- `pool::instruction::Transact { .. }`
abbrev pub instruction_args : Transaction → Args
instruction_args tx = record {
  proof = tx.proof;
  root = tx.root;
  nullifiers = tx.nullifiers;
  out_commitments = tx.out_commitments;
  ext_amount = tx.amount;
  recipient = tx.recipient;
  encrypted_notes = tx.encrypted_notes;
}

abbrev with_body : Pubkey → List AccountMeta → Bytes → Option Bytes → Option Instruction
with_body program accounts tag none = none
with_body program accounts tag (some body) =
    some (record { program_id = program; accounts = accounts; payload = tag ++ body })

-- `success_proof`
unfoldable pub success_proof : Bytes
success_proof = 1 ∷ replicate 387 0

-- `process_instruction` of the mock verifier: whether it accepts
unfoldable pub process_instruction : Bytes → Bool
process_instruction [] = false
process_instruction (b ∷ bs) = b == 1

module _ (r : Runtime) where
  unfoldable pub nullifier_address : Pubkey → Bytes → Pubkey
  nullifier_address pool_address nullifier =
      (r.find_program_address (ascii "nullifier" ∷ pool_address ∷ nullifier ∷ []) program_id).0

  -- `transact_instruction`; it panics where the arguments cannot be serialised.
  unfoldable pub transact_instruction : Codec → Pool → Pubkey → Transaction → Option Instruction
  unfolding to_account_metas nullifier_address
  transact_instruction l config payer tx =
      with_body program_id
        (to_account_metas (record {
          pool = config.address;
          tree = tx.tree;
          vault = tx.vault;
          mint = tx.mint;
          nullifier_0_record = nullifier_address config.address tx.nullifiers.0;
          nullifier_1_record = nullifier_address config.address tx.nullifiers.1;
          recipient_ata = tx.recipient_ata;
          verifier_program = tx.verifier;
          payer = payer;
          token_program = r.token_program;
          system_program = system_program;
        }))
        (method_discriminator l.sha256 (ascii "transact")) (l.to_vec (instruction_args tx))

-- What `Fixture` keeps of a started pool, as far as its transactions use it.
pub record Fixture : Type 0 where
  pub mint : Pubkey
  pub config : Pool
  pub recipient : Pubkey
  pub recipient_ata : Pubkey
  pub verifier : Pubkey

-- `Fixture::transaction`, with the root that the tree has
unfoldable pub fixture_transaction : Fixture → Bytes → ℕ → Transaction
unfolding field success_proof
fixture_transaction f root unique = record {
  proof = success_proof;
  root = root;
  nullifiers = (field (unique * 2), field (unique * 2 + 1));
  out_commitments = (field (unique * 2 + 1000), field (unique * 2 + 1001));
  amount = pos 0;
  recipient = f.recipient;
  encrypted_notes = ([], []);
  recipient_ata = f.recipient_ata;
  verifier = f.verifier;
  mint = f.mint;
  tree = f.config.tree;
  vault = f.config.vault;
}
