-- ===== src/Program/Shield.antt =====
-- onchain/programs/pool/src/instructions/shield.rs: `Shield`.
pub mod Effects
pub mod Exactly
use veil.Prelude.{
  ℕ, ◌+◌, Bool, true, false, Option, none, some, List, [], ◌∷◌, ◌++◌, length, ltb, leb, ◌&&◌,
}
use veil.Prelude.Res.{ok, ok_or, require, ◌>>=◌, ◌>>◌}
use veil.Bytes.{Bytes, bytes_eq, ascii}
use veil.Program.Error.{
  Res, pool_error, zero_amount, invalid_field, note_too_large, constraint, token_failed,
}
use veil.Program.Field.{poseidon, u64_be32, is_canonical_field}
use veil.Program.Runtime.{Pubkey, TokenAccount, Mint, Transfer, Runtime}
use veil.Program.State.{Chain, Pool, program_id, note_domain, max_encrypted_note_len, load, is_some}
use veil.Program.Initialize.{pool_seeds, tree_seeds, key_is}
use veil.Program.Tree as Tree

-- The addresses in a `Shield` instruction, whether the depositor has signed it, and which of the accounts that
-- have to be writable are.
pub record ShieldAccounts : Type 0 where
  pub pool : Pubkey
  pub tree : Pubkey
  pub vault : Pubkey
  pub mint : Pubkey
  pub depositor : Pubkey
  pub depositor_signed : Bool
  pub depositor_ata : Pubkey
  pub token_program : Pubkey
  pub tree_writable : Bool
  pub vault_writable : Bool
  pub depositor_writable : Bool
  pub depositor_ata_writable : Bool

module _ (r : Runtime) where
  -- `seeds = [b"pool", VERSION_SEED], bump = pool.bump`
  unfoldable pub pool_address_checks : Pubkey → Pool → Res (Unit {0})
  pool_address_checks key pool =
      require
        (key_is (r.create_program_address (pool_seeds ++ (pool.bump ∷ []) ∷ []) program_id) key)
        constraint

  -- `seeds = [b"tree", pool.key().as_ref()], bump`
  unfoldable pub tree_address_checks : Pubkey → Pubkey → Res (Unit {0})
  tree_address_checks pool tree =
      require (bytes_eq tree (r.find_program_address (tree_seeds pool) program_id).0) constraint

  -- `associated_token::mint = mint, associated_token::authority = pool`
  unfoldable pub vault_checks : Pubkey → Pubkey → Pubkey → TokenAccount → Res (Unit {0})
  vault_checks pool mint key vault = do
    require (bytes_eq vault.mint mint) constraint
    require (bytes_eq vault.owner pool) constraint
    require (bytes_eq key (r.get_associated_token_address pool mint)) constraint

  -- The accounts that the handler reads.
  unfoldable pub shield_accounts : Chain r → ShieldAccounts → Res (Pool × Mint)
  unfolding pool_address_checks tree_address_checks vault_checks
  shield_accounts s k = do
    pool ← load (s.pools k.pool)
    require (is_some (s.trees k.tree)) constraint
    vault ← load (s.tokens k.vault)
    mint ← load (s.mints k.mint)
    depositor_ata ← load (s.tokens k.depositor_ata)
    require k.depositor_signed constraint
    require (bytes_eq k.token_program r.token_program) constraint
    require
        (k.tree_writable
          && (k.vault_writable && (k.depositor_writable && k.depositor_ata_writable)))
        constraint
    pool_address_checks k.pool pool
    tree_address_checks k.pool k.tree
    vault_checks k.pool k.mint k.vault vault
    require (bytes_eq k.mint pool.asset.mint) constraint
    require (bytes_eq depositor_ata.mint k.mint) constraint
    require (bytes_eq depositor_ata.owner k.depositor) constraint
    ok (pool, mint)

  unfoldable pub shield_guards : Bytes → ℕ → Bytes → Res (Unit {0})
  shield_guards npk amount encrypted_note = do
    require (ltb 0 amount) (pool_error zero_amount)
    require (is_canonical_field r.crypto npk) (pool_error invalid_field)
    require (leb (length encrypted_note) max_encrypted_note_len) (pool_error note_too_large)

  unfoldable pub deposit : Chain r → ShieldAccounts → Mint → ℕ → Res (Chain r)
  deposit s k mint amount = do
    tokens ←
        ok_or
          (r.transfer_checked s.tokens
            (record {
              source = k.depositor_ata;
              mint = k.mint;
              destination = k.vault;
              authority = k.depositor;
            })
            [] amount mint.decimals)
          token_failed
    ok (record s { tokens = tokens })

  unfoldable pub note_commitment : Pool → Bytes → ℕ → Res Bytes
  note_commitment pool npk amount =
      poseidon r.crypto (u64_be32 note_domain ∷ npk ∷ pool.asset.id ∷ u64_be32 amount ∷ [])

  unfoldable pub handle : Chain r → ShieldAccounts → Pool → Mint → Bytes → ℕ → Bytes → Res (Chain r)
  handle s k pool mint npk amount encrypted_note = do
    shield_guards npk amount encrypted_note
    s' ← deposit s k mint amount
    commitment ← note_commitment pool npk amount
    Tree.insert s' k.tree commitment encrypted_note

  unfoldable pub shield : Chain r → ShieldAccounts → Bytes → ℕ → Bytes → Res (Chain r)
  shield s k npk amount encrypted_note = do
    (pool, mint) ← shield_accounts s k
    handle s k pool mint npk amount encrypted_note
