-- ===== src/Program/Initialize/Effects.antt =====
-- What a successful initialisation changes.
use veil.Prelude.{◌≡◌, refl, sym, none, not}
use veil.Prelude.Res.{ok, ok-injective, bind_inv, then_inv, require, require-eq-ok}
use veil.Bytes.{Bytes, bytes_eq, bytes_eq_iff}
use veil.Program.Error.{constraint, account_in_use}
use veil.Program.Field.{asset_id}
use veil.Program.Runtime.{TokenAccount, Runtime}
use veil.Program.State.{Chain, program_id, is_some, update, in_use}
use veil.Program.State.Laws.{not-true, in_use_free}
use veil.Program.Tree as Tree
use veil.Program.Initialize.{
  InitPoolAccounts, pool_seeds, tree_seeds, empty_pool, init_accounts, init_checks, handle,
  init_pool,
}

-- The chain once the three accounts are created.
pub record Created (r : Runtime) (s : Chain r) (k : InitPoolAccounts) (t : Chain r) : Type 0 where
  pub pool_address : k.pool ≡ (r.find_program_address pool_seeds program_id).0
  pub tree_address : k.tree ≡ (r.find_program_address (tree_seeds k.pool) program_id).0
  pub vault_address : k.vault ≡ r.get_associated_token_address k.pool k.mint
  pub pool_free : s.pools k.pool ≡ none
  pub tree_free : s.trees k.tree ≡ none
  pub vault_free : s.tokens k.vault ≡ none
  pub vault : TokenAccount
  pub vault_eq : vault ≡ record { mint = k.mint; owner = k.pool; amount = 0 }
  pub result : t ≡ record s {
    pools = update k.pool (empty_pool r) s.pools;
    trees = update k.tree r.zeroed s.trees;
    tokens = update k.vault vault s.tokens;
  }

module _ (r : Runtime) where
  init_accounts-Created :
      (s : Chain r) (k : InitPoolAccounts) {t : Chain r}
      → init_accounts r s k ≡ ok t
      → Created r s k t
  unfolding init_accounts
  init_accounts-Created s k e =
      then_inv
        (require (bytes_eq k.pool (r.find_program_address pool_seeds program_id).0) constraint) _ e
        λ e0 h0. then_inv (require (not (in_use s k.pool)) account_in_use) _ h0 λ e1 h1.
          let s1 : Chain r = record s { pools = update k.pool (empty_pool r) s.pools } in
          then_inv
            (require (bytes_eq k.tree (r.find_program_address (tree_seeds k.pool) program_id).0)
              constraint)
            _ h1
            λ e2 h2. then_inv (require (not (in_use s1 k.tree)) account_in_use) _ h2 λ e3 h3.
              let s2 : Chain r = record s1 { trees = update k.tree r.zeroed s1.trees } in
              then_inv (require (is_some (s.mints k.mint)) constraint) _ h3 λ e4 h4.
                then_inv
                  (require (bytes_eq k.vault (r.get_associated_token_address k.pool k.mint))
                    constraint)
                  _ h4
                  λ e5 h5. then_inv (require (not (in_use s2 k.vault)) account_in_use) _ h5 λ e6 h6.
                    record {
                      pool_address = (bytes_eq_iff _ _).0 (require-eq-ok _ _ e0);
                      tree_address = (bytes_eq_iff _ _).0 (require-eq-ok _ _ e2);
                      vault_address = (bytes_eq_iff _ _).0 (require-eq-ok _ _ e5);
                      pool_free = (in_use_free r s k.pool (not-true _ (require-eq-ok _ _ e1))).0;
                      tree_free = (in_use_free r s1 k.tree (not-true _ (require-eq-ok _ _ e3))).1;
                      vault_free = (in_use_free r s2 k.vault (not-true _ (require-eq-ok _ _ e6))).3;
                      vault = record { mint = k.mint; owner = k.pool; amount = 0 };
                      vault_eq = refl;
                      result = sym (ok-injective _ _ h6);
                    }

  -- Only a free pool address is initialised; the new tree is the library's empty tree.
  pub init_pool_inv :
      (s : Chain r) (k : InitPoolAccounts) (domain : Bytes) {t : Chain r}
      → init_pool r s k domain ≡ ok t
      → (u : Chain r) × (id : Bytes) × Created r s k u
        × (init_checks r u k ≡ ok tt)
        × (asset_id r.crypto k.mint ≡ ok id)
        × (Tree.initialize
              (record u {
                pools =
                    update k.pool
                      (record {
                        verifier = k.verifier_program;
                        asset = record { mint = k.mint; id = id };
                        domain = domain;
                        bump = (r.find_program_address pool_seeds program_id).1;
                      })
                      u.pools;
              })
              k.tree
            ≡ ok t)
  unfolding init_pool handle
  init_pool_inv s k domain e = bind_inv (init_accounts r s k) _ e λ u e0 h0.
      then_inv (init_checks r u k) _ h0 λ e1 h1.
        bind_inv (asset_id r.crypto k.mint) _ h1
          λ id e2 h2. (u, id, init_accounts-Created s k e0, e1, e2, h2)
