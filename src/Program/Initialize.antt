-- ===== src/Program/Initialize.antt =====
-- onchain/programs/pool/src/instructions/initialize.rs: `InitPool`.
pub mod Effects
use veil.Prelude.{ℕ, Bool, true, false, not, Option, none, some, List, [], ◌∷◌, ◌&&◌, if◌then◌else◌}
use veil.Prelude.Res.{ok, require, ◌>>=◌, ◌>>◌}
use veil.Bytes.{Bytes, bytes_eq, ascii}
use veil.Program.Error.{Res, pool_error, unauthorized_initializer, constraint, account_in_use}
use veil.Program.Field.{asset_id}
use veil.Program.Runtime.{Pubkey, TokenAccount, Runtime, system_program}
use veil.Program.State.{Chain, Pool, program_id, version_seed, load, is_some, update, in_use}
use veil.Program.Tree as Tree

abbrev pub pool_seeds : List Bytes
pool_seeds = ascii "pool" ∷ version_seed ∷ []

abbrev pub tree_seeds : Pubkey → List Bytes
tree_seeds pool = ascii "tree" ∷ pool ∷ []

-- The addresses in an `InitPool` instruction, whether the authority has signed it, and which of the accounts that
-- have to be writable are.
pub record InitPoolAccounts : Type 0 where
  pub pool : Pubkey
  pub tree : Pubkey
  pub mint : Pubkey
  pub vault : Pubkey
  pub verifier_program : Pubkey
  pub authority : Pubkey
  pub authority_signed : Bool
  pub pool_program : Pubkey
  pub program_data : Pubkey
  pub token_program : Pubkey
  pub associated_token_program : Pubkey
  pub system_program : Pubkey
  pub pool_writable : Bool
  pub tree_writable : Bool
  pub vault_writable : Bool
  pub authority_writable : Bool

abbrev pub key_is : Option Pubkey → Pubkey → Bool
key_is none key = false
key_is (some k) key = bytes_eq k key

module _ (r : Runtime) where
  abbrev pub empty_pool : Pool
  empty_pool = record {
    verifier = [];
    asset = record { mint = []; id = [] };
    domain = [];
    bump = 0;
  }

  -- The `init` constraints, in order: pool, tree, vault.
  unfoldable pub init_accounts : Chain r → InitPoolAccounts → Res (Chain r)
  init_accounts s k = do
    require (bytes_eq k.pool (r.find_program_address pool_seeds program_id).0) constraint
    require (not (in_use s k.pool)) account_in_use
    let s1 : Chain r = record s { pools = update k.pool empty_pool s.pools }
    require (bytes_eq k.tree (r.find_program_address (tree_seeds k.pool) program_id).0) constraint
    require (not (in_use s1 k.tree)) account_in_use
    let s2 : Chain r = record s1 { trees = update k.tree r.zeroed s1.trees }
    require (is_some (s.mints k.mint)) constraint
    require (bytes_eq k.vault (r.get_associated_token_address k.pool k.mint)) constraint
    require (not (in_use s2 k.vault)) account_in_use
    let vault : TokenAccount = record { mint = k.mint; owner = k.pool; amount = 0 }
    ok (record s2 { tokens = update k.vault vault s2.tokens })

  -- The constraints of the other accounts.
  unfoldable pub init_checks : Chain r → InitPoolAccounts → Res (Unit {0})
  init_checks s k = do
    upgrade_authority ← load (s.program_data k.program_data)
    require k.authority_signed constraint
    require (bytes_eq k.pool_program program_id) constraint
    require (bytes_eq k.token_program r.token_program) constraint
    require (bytes_eq k.associated_token_program r.associated_token_program) constraint
    require (bytes_eq k.system_program system_program) constraint
    require (k.pool_writable && (k.tree_writable && k.vault_writable)) constraint
    require (s.programs k.verifier_program) constraint
    require k.authority_writable constraint
    require (key_is (s.programdata_address k.pool_program) k.program_data)
        (pool_error unauthorized_initializer)
    require (key_is upgrade_authority k.authority) (pool_error unauthorized_initializer)

  unfoldable pub handle : Chain r → InitPoolAccounts → Bytes → Res (Chain r)
  handle s k domain = do
    id ← asset_id r.crypto k.mint
    let pool : Pool = record {
      verifier = k.verifier_program;
      asset = record { mint = k.mint; id = id };
      domain = domain;
      bump = (r.find_program_address pool_seeds program_id).1;
    }
    Tree.initialize (record s { pools = update k.pool pool s.pools }) k.tree

  unfoldable pub init_pool : Chain r → InitPoolAccounts → Bytes → Res (Chain r)
  init_pool s k domain = do s' ← init_accounts s k; init_checks s' k; handle s' k domain
