-- ===== src/Sdk/Agreement/Deployed.antt =====
-- The pool that crates/veil402-sdk/src/solana/mod.rs configures, on the chain of the program.
use veil.Prelude.{ℕ, ◌≤◌, ◌≡◌, ◌≢◌, refl, true, false, some, [], ◌∷◌, ◌++◌, All, List}
use veil.Prelude.Res.{ok, ok-injective, bind_inv}
use veil.Bytes.{Bytes, IsArray}
use veil.Crypto.{IsScalar}
use veil.Program.Runtime.{Pubkey, TokenAccount, Mint, Ledger, Runtime}
use veil.Program.Runtime.Laws.{IsRuntime}
use veil.Program.State as State
use veil.Program.State.{Chain, program_id, in_use}
use veil.Program.Initialize.{pool_seeds, tree_seeds}
use veil.Program.Tree as Tree
use veil.Program.Transact.Effects.{record_address}
use veil.Program.Tree.Room.{HasRoom}
use veil.Sdk.Transaction.{PublicInputs, witness_bytes}
use veil.Sdk.Solana.{Pool, new_pool, asset}

-- The pool's accounts on the chain are those of the client's configuration.
pub record IsDeployed (r : Runtime) (s : Chain r) (pool : Pool) : Type 0 where
  pub state : State.Pool
  pub vault : TokenAccount
  pub mint : Mint
  pub pool_found : s.pools pool.address ≡ some state
  pub same_verifier : state.verifier ≡ pool.verifier
  pub same_domain : state.domain ≡ pool.domain
  pub same_mint : state.asset.mint ≡ pool.mint
  pub bump : state.bump ≡ (r.find_program_address pool_seeds program_id).1
  pub vault_found : s.tokens pool.vault ≡ some vault
  pub vault_mint : vault.mint ≡ pool.mint
  pub vault_owner : vault.owner ≡ pool.address
  pub mint_found : s.mints pool.mint ≡ some mint
  pub executable : s.programs pool.verifier ≡ true

-- The recipient has an associated token account, and the vault's tokens can be moved to it.
pub record IsPayable (r : Runtime) (s : Chain r) (pool : Pool) (d : IsDeployed r s pool)
    (recipient : Pubkey) (amount : ℕ) : Type 0 where
  pub ata : TokenAccount
  pub after : Ledger
  pub ata_found : s.tokens (r.get_associated_token_address recipient pool.mint) ≡ some ata
  pub ata_mint : ata.mint ≡ pool.mint
  pub ata_owner : ata.owner ≡ recipient
  pub covered : amount ≤ d.vault.amount
  pub moved :
      r.transfer_checked s.tokens
        (record {
          source = pool.vault;
          mint = pool.mint;
          destination = r.get_associated_token_address recipient pool.mint;
          authority = pool.address;
        })
        (pool_seeds ++ (d.state.bump ∷ []) ∷ [])
        amount
        d.mint.decimals
      ≡ some after

-- The tree has room and knows the root, the records of the nullifiers are free, and the verifier accepts.
pub record IsFresh (r : Runtime) (R : IsRuntime r) (s : Chain r) (pool : Pool) (bytes : Bytes)
    (public : PublicInputs) : Type 0 where
  pub room : HasRoom r R 2 (s.trees pool.tree)
  pub known : Tree.contains_root s pool.tree public.root ≡ ok true
  pub free_0 : in_use s (record_address r pool.address public.nullifiers.0) ≡ false
  pub free_1 : in_use s (record_address r pool.address public.nullifiers.1) ≡ false
  pub apart :
      record_address r pool.address public.nullifiers.0
      ≢ record_address r pool.address public.nullifiers.1
  pub verified : r.invoke pool.verifier (bytes ++ witness_bytes public) ≡ true

-- The derived parts of the client's configuration.
pub record IsDerived (r : Runtime) (pool : Pool) : Type 0 where
  pub own : pool.program ≡ program_id
  pub address : pool.address ≡ (r.find_program_address pool_seeds program_id).0
  pub tree : pool.tree ≡ (r.find_program_address (tree_seeds pool.address) program_id).0
  pub vault : pool.vault ≡ r.get_associated_token_address pool.address pool.mint

pub new_pool-IsDerived :
    (r : Runtime) (verifier mint : Pubkey) (domain : Bytes) {pool : Pool}
    → new_pool r program_id verifier mint domain ≡ ok pool
    → IsDerived r pool
unfolding new_pool
new_pool-IsDerived r verifier mint domain e = bind_inv (asset r mint) _ e λ id e0 h0.
    rw (← ok-injective _ _ h0) (record { own = refl; address = refl; tree = refl; vault = refl })

pub scalars_have_size : (xs : List Bytes) → All IsScalar xs → All (IsArray 32) xs
scalars_have_size [] h = tt
scalars_have_size (x ∷ xs) h = (h.0.array, scalars_have_size xs h.1)
