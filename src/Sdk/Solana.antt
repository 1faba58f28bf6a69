-- ===== src/Sdk/Solana.antt =====
-- crates/veil402-sdk/src/solana: the pool's configuration, withdrawals, and the binding of the
-- public data of a transaction.
pub mod Instruction
use veil.Prelude.{
  ℕ, ◌^◌, Bool, true, false, Option, not, ◌||◌, List, [], ◌∷◌, ◌++◌, length, take, drop, replicate,
  ltb, ◌==◌, if◌then◌else◌,
}
use veil.Prelude.Int.{ℤ, pos, negsuc, is_negative}
use veil.Prelude.Res.{ok, err, ok_or, require, ◌>>=◌, ◌>>◌}
use Prim.Native.Nat.{pred}
use Prim.Native.String.{String}
use veil.Bytes.{Bytes, bytes_eq, ascii, be_bytes, i64_bytes}
use veil.Program.Runtime.{Pubkey, Runtime}
use veil.Sdk.Error.{Res, transaction, withdrawal}
use veil.Sdk.Field.{Field, from_raw_u64, from_bytes, from_fr, from_signed}
use veil.Sdk.Note.{poseidon, asset_domain}
use veil.Sdk.Transaction.{PublicInputs, Plan, encrypted}

abbrev pub domain_tag : Bytes
domain_tag = ascii "veil402:transact:v4"

abbrev pub version_seed : Bytes
version_seed = ascii "v4"

abbrev pub max_encrypted_note_len : ℕ
max_encrypted_note_len = 128

pub record Pool : Type 0 where
  pub program : Pubkey
  pub verifier : Pubkey
  pub mint : Pubkey
  pub domain : Bytes
  pub address : Pubkey
  pub tree : Pubkey
  pub vault : Pubkey
  pub asset : Field

pub record External : Type 0 where
  pub recipient : Pubkey
  pub encrypted : Bytes × Bytes

pub record Withdrawal : Type 0 where
  pub recipient : Pubkey
  pub amount : ℕ

-- `client::Proof`
pub record Proof : Type 0 where
  pub bytes : Bytes
  pub public : PublicInputs
  pub artifact : Bytes

-- `Withdrawal::new`: the amount is positive and fits an `i64`.
unfoldable pub new_withdrawal : Pubkey → ℕ → Res Withdrawal
new_withdrawal recipient amount = do
  require (not (amount == 0)) (withdrawal "amount must be greater than zero")
  require (ltb amount (2 ^ 63)) (withdrawal "amount exceeds the signed protocol range")
  ok (record { recipient = recipient; amount = amount })

-- `-self.amount`
abbrev pub public_amount : Withdrawal → ℤ
public_amount w = if w.amount == 0 then pos 0 else negsuc (pred w.amount)

-- `External::new`
unfoldable pub new_external : Plan → Pubkey → Res External
new_external plan recipient =
    let (first, second) = encrypted plan in
    if ltb max_encrypted_note_len (length first) || ltb max_encrypted_note_len (length second)
    then err (transaction "encrypted note exceeds 128 bytes")
    else ok (record { recipient = recipient; encrypted = (first, second) })

-- `u32::try_from(payload.len())`, as its four bytes
unfoldable pub payload_length_bytes : Bytes → Res Bytes
payload_length_bytes payload =
    if ltb (length payload) (2 ^ 32)
    then ok (be_bytes 4 (length payload))
    else err (withdrawal "encrypted note length is not representable")

module _ (r : Runtime) where
  -- `binding::asset`
  unfoldable pub asset : Pubkey → Res Field
  asset mint = do
    high ← from_bytes r.crypto (replicate 16 0 ++ take 16 mint)
    low ← from_bytes r.crypto (replicate 16 0 ++ drop 16 mint)
    poseidon r.crypto (from_raw_u64 asset_domain ∷ high ∷ low ∷ [])

  -- `Pool::new`
  unfoldable pub new_pool : Pubkey → Pubkey → Pubkey → Bytes → Res Pool
  unfolding asset
  new_pool program verifier mint domain = do
    let address = (r.find_program_address (ascii "pool" ∷ version_seed ∷ []) program).0
    let tree = (r.find_program_address (ascii "tree" ∷ address ∷ []) program).0
    let vault = r.get_associated_token_address address mint
    asset' ← asset mint
    ok (record {
      program = program;
      verifier = verifier;
      mint = mint;
      domain = domain;
      address = address;
      tree = tree;
      vault = vault;
      asset = asset';
    })

  -- What `binding::external` hashes.
  unfoldable pub external_parts : Pool → External → ℤ → Bytes → Bytes → List Bytes
  external_parts pool external amount first_len second_len =
      domain_tag
      ∷ pool.domain
      ∷ pool.program
      ∷ pool.address
      ∷ pool.mint
      ∷ pool.verifier
      ∷ external.recipient
      ∷ i64_bytes amount
      ∷ first_len
      ∷ external.encrypted.0
      ∷ second_len
      ∷ external.encrypted.1
      ∷ []

  -- `Pool::bind`
  unfoldable pub bind : Pool → External → ℤ → Res Field
  unfolding payload_length_bytes external_parts
  bind pool external amount = do
    first_len ← payload_length_bytes external.encrypted.0
    second_len ← payload_length_bytes external.encrypted.1
    let digest = r.crypto.keccak_hashv (external_parts pool external amount first_len second_len)
    ok (from_fr r.crypto (r.crypto.from_be_bytes_mod_order digest))
