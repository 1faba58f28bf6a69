-- ===== src/Program/Transact.antt =====
-- onchain/programs/pool/src/instructions/transact.rs: `ExtData` and `Transact`.
pub mod Run
pub mod Effects
pub mod Guards
pub mod Binding
pub mod Accounts
pub mod Completion
pub mod Exactly
use veil.Prelude.{
  ℕ, ◌+◌, ◌^◌, Bool, true, false, not, Option, none, some, List, [], ◌∷◌, ◌++◌, length, ltb, leb,
  ◌==◌, ◌&&◌, if◌then◌else◌, replicate,
}
use veil.Prelude.Int.{ℤ, pos, negsuc, unsigned_abs, is_negative}
use veil.Prelude.Res.{ok, err, ok_or, require, ◌>>=◌, ◌>>◌}
use veil.Bytes.{Bytes, bytes_eq, ascii, be_bytes, i64_bytes}
use veil.Program.Error.{
  Res, pool_error, ext_amount_must_be_non_positive, invalid_proof_length, invalid_field,
  zero_nullifier, duplicate_nullifier, note_too_large, self_transfer, unknown_root,
  insufficient_vault, recipient_mismatch, wrong_verifier, constraint, account_in_use, token_failed,
}
use veil.Program.Field.{keccak_field, is_canonical_field, public_amount_field}
use veil.Program.Runtime.{Pubkey, TokenAccount, Mint, Transfer, Runtime, system_program}
use veil.Program.State.{
  Chain, Pool, NullifierRecord, Event, new_nullifier, program_id, version_seed, binding_domain,
  max_encrypted_note_len, proof_bytes, load, is_some, update, in_use, emit,
}
use veil.Program.Verifier.{PublicInputs, verify}
use veil.Program.Initialize.{pool_seeds}
use veil.Program.Shield.{pool_address_checks, tree_address_checks, vault_checks}
use veil.Program.Tree as Tree

-- `iter().all(p)` on an array of two
abbrev pub both {ℓ} : {A : Type ℓ} → (A → Bool) → A × A → Bool
both p (x, y) = p x && p y

pub record ExtData : Type 0 where
  pub recipient : Pubkey
  pub encrypted_notes : Bytes × Bytes

-- The arguments of the instruction.
pub record TransactArgs : Type 0 where
  pub proof : Bytes
  pub root : Bytes
  pub nullifiers : Bytes × Bytes
  pub out_commitments : Bytes × Bytes
  pub ext_amount : ℤ
  pub ext_data : ExtData

-- The addresses in a `Transact` instruction, whether the payer has signed it, and which of the accounts that
-- have to be writable are.
pub record TransactAccounts : Type 0 where
  pub pool : Pubkey
  pub tree : Pubkey
  pub vault : Pubkey
  pub mint : Pubkey
  pub nullifier_0_record : Pubkey
  pub nullifier_1_record : Pubkey
  pub recipient_ata : Pubkey
  pub verifier_program : Pubkey
  pub payer_signed : Bool
  pub token_program : Pubkey
  pub system_program : Pubkey
  pub tree_writable : Bool
  pub vault_writable : Bool
  pub record_0_writable : Bool
  pub record_1_writable : Bool
  pub recipient_ata_writable : Bool
  pub payer_writable : Bool

-- The accounts that the handler reads, as they were when the instruction began.
pub record Loaded : Type 0 where
  pub pool : Pool
  pub vault : TokenAccount
  pub mint : Mint
  pub recipient_ata : TokenAccount

abbrev pub nonpositive : ℤ → Bool
nonpositive (pos n) = n == 0
nonpositive (negsuc n) = true

abbrev pub nullifier_seeds : Pubkey → Bytes → List Bytes
nullifier_seeds pool nullifier = ascii "nullifier" ∷ pool ∷ nullifier ∷ []

-- `u32::try_from(note.len())`, as its four bytes
unfoldable pub note_length : Bytes → Res Bytes
note_length note =
    if ltb (length note) (2 ^ 32)
    then ok (be_bytes 4 (length note))
    else err (pool_error note_too_large)

-- What `ExtData::hash` hashes.
unfoldable pub binding_parts :
    ExtData → Bytes → Pubkey → Pubkey → Pubkey → ℤ → Bytes → Bytes → List Bytes
binding_parts e domain pool mint verifier ext_amount first_len second_len =
    binding_domain
    ∷ domain
    ∷ program_id
    ∷ pool
    ∷ mint
    ∷ verifier
    ∷ e.recipient
    ∷ i64_bytes ext_amount
    ∷ first_len
    ∷ e.encrypted_notes.0
    ∷ second_len
    ∷ e.encrypted_notes.1
    ∷ []

module _ (r : Runtime) where
  unfoldable pub ext_data_hash : ExtData → Bytes → Pubkey → Pubkey → Pubkey → ℤ → Res Bytes
  unfolding note_length binding_parts
  ext_data_hash e domain pool mint verifier ext_amount = do
    first_len ← note_length e.encrypted_notes.0
    second_len ← note_length e.encrypted_notes.1
    ok (
        keccak_field r.crypto
          (binding_parts e domain pool mint verifier ext_amount first_len second_len))

  -- `init` of the record of one nullifier
  unfoldable pub init_nullifier : Chain r → Pubkey → Pubkey → Bytes → Res (Chain r)
  init_nullifier s pool key nullifier = do
    require (bytes_eq key (r.find_program_address (nullifier_seeds pool nullifier) program_id).0)
        constraint
    require (not (in_use s key)) account_in_use
    ok (record s { nullifiers = update key (record { nullifier = replicate 32 0 }) s.nullifiers })

  unfoldable pub load_accounts : Chain r → TransactAccounts → Res Loaded
  load_accounts s k = do
    pool ← load (s.pools k.pool)
    require (is_some (s.trees k.tree)) constraint
    vault ← load (s.tokens k.vault)
    mint ← load (s.mints k.mint)
    recipient_ata ← load (s.tokens k.recipient_ata)
    require k.payer_signed constraint
    require (bytes_eq k.token_program r.token_program) constraint
    require (bytes_eq k.system_program system_program) constraint
    ok (record { pool = pool; vault = vault; mint = mint; recipient_ata = recipient_ata })

  -- The constraints on accounts that are not created.
  unfoldable pub account_checks : Chain r → TransactAccounts → Loaded → Res (Unit {0})
  unfolding pool_address_checks tree_address_checks vault_checks
  account_checks s k a = do
    require
        (k.tree_writable
          && (k.vault_writable
              && (k.record_0_writable && (k.record_1_writable && k.recipient_ata_writable))))
        constraint
    pool_address_checks r k.pool a.pool
    tree_address_checks r k.pool k.tree
    vault_checks r k.pool k.mint k.vault a.vault
    require (bytes_eq k.mint a.pool.asset.mint) constraint
    require (bytes_eq a.recipient_ata.mint k.mint) constraint
    require (bytes_eq k.verifier_program a.pool.verifier) (pool_error wrong_verifier)
    require (s.programs k.verifier_program) constraint
    require k.payer_writable constraint

  -- Account validation: the accounts as loaded, and the chain with the two records created.
  unfoldable pub transact_accounts :
      Chain r → TransactAccounts → Bytes × Bytes → Res (Loaded × Chain r)
  transact_accounts s k nullifiers = do
    a ← load_accounts s k
    s1 ← init_nullifier s k.pool k.nullifier_0_record nullifiers.0
    s2 ← init_nullifier s1 k.pool k.nullifier_1_record nullifiers.1
    account_checks s2 k a
    ok (a, s2)

  -- The guards on the arguments alone.
  unfoldable pub transact_guards : TransactAccounts → TransactArgs → Res (Unit {0})
  transact_guards k x = do
    require (nonpositive x.ext_amount) (pool_error ext_amount_must_be_non_positive)
    require (length x.proof == proof_bytes) (pool_error invalid_proof_length)
    require
        (is_canonical_field r.crypto x.root
          && (both (is_canonical_field r.crypto) x.nullifiers
              && both (is_canonical_field r.crypto) x.out_commitments))
        (pool_error invalid_field)
    require (both (λ n. not (bytes_eq n (replicate 32 0))) x.nullifiers) (pool_error zero_nullifier)
    require (not (bytes_eq x.nullifiers.0 x.nullifiers.1)) (pool_error duplicate_nullifier)
    require (both (λ note. leb (length note) max_encrypted_note_len) x.ext_data.encrypted_notes)
        (pool_error note_too_large)
    require (if is_negative x.ext_amount then not (bytes_eq k.recipient_ata k.vault) else true)
        (pool_error self_transfer)

  -- The root is known, and the verifier accepts the proof for these public inputs.
  unfoldable pub check_proof : Chain r → TransactAccounts → Loaded → TransactArgs → Res (Unit {0})
  unfolding ext_data_hash
  check_proof s k a x = do
    known ← Tree.contains_root s k.tree x.root
    require known (pool_error unknown_root)
    hash ←
        ext_data_hash x.ext_data a.pool.domain k.pool a.pool.asset.mint a.pool.verifier x.ext_amount
    verify r
        (record {
          root = x.root;
          nullifiers = x.nullifiers;
          commitments = x.out_commitments;
          amount = public_amount_field r.crypto x.ext_amount;
          external_data_hash = hash;
        })
        k.verifier_program x.proof

  unfoldable pub spend : Chain r → TransactAccounts → Bytes × Bytes → Chain r
  spend s k nullifiers =
      let first : Chain r = record s {
        nullifiers = update k.nullifier_0_record (record { nullifier = nullifiers.0 }) s.nullifiers;
      } in
      record first {
        nullifiers =
            update k.nullifier_1_record (record { nullifier = nullifiers.1 }) first.nullifiers;
      }

  -- The withdrawal, when the amount is negative.
  unfoldable pub pay : Chain r → TransactAccounts → Loaded → ℤ → Pubkey → Res (Chain r)
  pay s k a (pos n) recipient = ok s
  pay s k a (negsuc n) recipient = do
    let withdrawal_amount = unsigned_abs (negsuc n)
    require (leb withdrawal_amount a.vault.amount) (pool_error insufficient_vault)
    require (bytes_eq a.recipient_ata.owner recipient) (pool_error recipient_mismatch)
    tokens ←
        ok_or
          (r.transfer_checked s.tokens
            (record {
              source = k.vault;
              mint = k.mint;
              destination = k.recipient_ata;
              authority = k.pool;
            })
            (pool_seeds ++ (a.pool.bump ∷ []) ∷ []) withdrawal_amount a.mint.decimals)
          token_failed
    ok (record s { tokens = tokens })

  -- The loop over the two outputs.
  unfoldable pub insert_outputs : Chain r → Pubkey → Bytes × Bytes → Bytes × Bytes → Res (Chain r)
  insert_outputs s tree commitments notes = do
    s1 ← Tree.insert s tree commitments.0 notes.0
    Tree.insert s1 tree commitments.1 notes.1

  unfoldable pub handle : Chain r → TransactAccounts → Loaded → TransactArgs → Res (Chain r)
  handle s k a x = do
    transact_guards k x
    check_proof s k a x
    s1 ← pay (spend s k x.nullifiers) k a x.ext_amount x.ext_data.recipient
    s2 ← insert_outputs s1 k.tree x.out_commitments x.ext_data.encrypted_notes
    ok (emit (new_nullifier x.nullifiers.1) (emit (new_nullifier x.nullifiers.0) s2))

  unfoldable pub transact : Chain r → TransactAccounts → TransactArgs → Res (Chain r)
  transact s k x = do (a, s') ← transact_accounts s k x.nullifiers; handle s' k a x
