-- ===== src/Program/Access.antt =====
-- What account validation establishes: a successful deposit or transaction works on the pool's own
-- accounts.
use veil.Prelude.{◌≡◌, ap, ◌∙◌, Bool, ◌&&◌, Option, some, true, [], ◌∷◌, ◌++◌, arith}
use veil.Prelude.Res.{ok, ok_or-eq-ok, ok-injective, bind_inv, then_inv, require, require-eq-ok}
use veil.Bytes.{bytes_eq, bytes_eq_iff}
use veil.Program.Error.{constraint, pool_error, wrong_verifier}
use veil.Program.Runtime.{Pubkey, TokenAccount, Mint, Runtime, system_program}
use veil.Program.State.{Chain, Pool, program_id, load, is_some}
use veil.Program.Initialize.{pool_seeds, tree_seeds, key_is}
use veil.Program.Shield.{
  ShieldAccounts, shield_accounts, pool_address_checks, tree_address_checks, vault_checks,
}
use veil.Program.Transact.{TransactAccounts, Loaded, load_accounts, account_checks}

-- The accounts of an instruction that names a pool are the pool's.
pub record Bound (r : Runtime) (pool tree vault mint : Pubkey) (p : Pool) (a : TokenAccount)
    : Type 0 where
  pub derived : r.create_program_address (pool_seeds ++ (p.bump ∷ []) ∷ []) program_id ≡ some pool
  pub tree_address : tree ≡ (r.find_program_address (tree_seeds pool) program_id).0
  pub vault_address : vault ≡ r.get_associated_token_address pool mint
  pub vault_owner : a.owner ≡ pool
  pub vault_mint : a.mint ≡ mint
  pub mint_address : mint ≡ p.asset.mint

key_is-eq : (o : Option Pubkey) (key : Pubkey) → key_is o key ≡ true → o ≡ some key
key_is-eq o key h = ground arith

-- The accounts that a transaction writes are passed as writable.
pub record IsWritable (k : TransactAccounts) : Type 0 where
  pub tree : k.tree_writable ≡ true
  pub vault : k.vault_writable ≡ true
  pub record_0 : k.record_0_writable ≡ true
  pub record_1 : k.record_1_writable ≡ true
  pub recipient_ata : k.recipient_ata_writable ≡ true
  pub payer : k.payer_writable ≡ true

pub all_four :
    (a b c d : Bool)
    → (a && (b && (c && d))) ≡ true
    → (a ≡ true) × (b ≡ true) × (c ≡ true) × (d ≡ true)
all_four a b c d h = ground arith

pub all_five :
    (a b c d e : Bool)
    → (a && (b && (c && (d && e)))) ≡ true
    → (a ≡ true) × (b ≡ true) × (c ≡ true) × (d ≡ true) × (e ≡ true)
all_five a b c d e h = ground arith

module _ (r : Runtime) where
  pool_address_checks_inv :
      (key : Pubkey) (p : Pool)
      → pool_address_checks r key p ≡ ok tt
      → r.create_program_address (pool_seeds ++ (p.bump ∷ []) ∷ []) program_id ≡ some key
  unfolding pool_address_checks
  pool_address_checks_inv key p e = key_is-eq _ _ (require-eq-ok _ _ e)

  tree_address_checks_inv :
      (pool tree : Pubkey)
      → tree_address_checks r pool tree ≡ ok tt
      → tree ≡ (r.find_program_address (tree_seeds pool) program_id).0
  unfolding tree_address_checks
  tree_address_checks_inv pool tree e = (bytes_eq_iff _ _).0 (require-eq-ok _ _ e)

  vault_checks_inv :
      (pool mint key : Pubkey) (a : TokenAccount)
      → vault_checks r pool mint key a ≡ ok tt
      → (a.mint ≡ mint) × (a.owner ≡ pool) × (key ≡ r.get_associated_token_address pool mint)
  unfolding vault_checks
  vault_checks_inv pool mint key a e =
      then_inv (require (bytes_eq a.mint mint) constraint) _ e λ e0 h0.
        then_inv (require (bytes_eq a.owner pool) constraint) _ h0 λ e1 h1. (
          (bytes_eq_iff _ _).0 (require-eq-ok _ _ e0),
          (bytes_eq_iff _ _).0 (require-eq-ok _ _ e1),
          (bytes_eq_iff _ _).0 (require-eq-ok _ _ h1),
        )

  pub record ShieldBound (s : Chain r) (k : ShieldAccounts) (p : Pool) (m : Mint) : Type 0 where
    pub vault : TokenAccount
    pub ata : TokenAccount
    pub pool_found : s.pools k.pool ≡ some p
    pub vault_found : s.tokens k.vault ≡ some vault
    pub ata_found : s.tokens k.depositor_ata ≡ some ata
    pub tree_found : is_some (s.trees k.tree) ≡ true
    pub mint_found : s.mints k.mint ≡ some m
    pub ata_owner : ata.owner ≡ k.depositor
    pub ata_mint : ata.mint ≡ k.mint
    pub signed : k.depositor_signed ≡ true
    pub tree_writable : k.tree_writable ≡ true
    pub vault_writable : k.vault_writable ≡ true
    pub depositor_writable : k.depositor_writable ≡ true
    pub ata_writable : k.depositor_ata_writable ≡ true
    pub token : k.token_program ≡ r.token_program
    pub bound : Bound r k.pool k.tree k.vault k.mint p vault

  pub shield_accounts-ShieldBound :
      (s : Chain r) (k : ShieldAccounts) {p : Pool} {m : Mint}
      → shield_accounts r s k ≡ ok (p, m)
      → ShieldBound s k p m
  unfolding shield_accounts
  shield_accounts-ShieldBound s k {p} {m} e = bind_inv (load (s.pools k.pool)) _ e λ p' e0 h0.
      then_inv (require (is_some (s.trees k.tree)) constraint) _ h0 λ e1 h1.
        bind_inv (load (s.tokens k.vault)) _ h1 λ v e2 h2.
          bind_inv (load (s.mints k.mint)) _ h2 λ m' e3 h3.
            bind_inv (load (s.tokens k.depositor_ata)) _ h3 λ d e4 h4.
              then_inv (require k.depositor_signed constraint) _ h4 λ e5 h5.
                then_inv (require (bytes_eq k.token_program r.token_program) constraint) _ h5
                  λ e6 h6.
                    then_inv
                      (require
                        (k.tree_writable
                          && (k.vault_writable
                              && (k.depositor_writable && k.depositor_ata_writable)))
                        constraint)
                      _ h6
                      λ ew hw. then_inv (pool_address_checks r k.pool p') _ hw λ e7 h7.
                        then_inv (tree_address_checks r k.pool k.tree) _ h7 λ e8 h8.
                          then_inv (vault_checks r k.pool k.mint k.vault v) _ h8 λ e9 h9.
                            then_inv (require (bytes_eq k.mint p'.asset.mint) constraint) _ h9
                              λ e10 h10.
                                then_inv (require (bytes_eq d.mint k.mint) constraint) _ h10
                                  λ e11 h11.
                                    then_inv (require (bytes_eq d.owner k.depositor) constraint) _
                                      h11
                                      λ e12 h12.
                                        let same : p' ≡ p =
                                          ap (λ (q : Pool × Mint). q.0) (ok-injective _ _ h12) in
                                        let (vm, vo, va) =
                                          vault_checks_inv k.pool k.mint k.vault v e9 in
                                        let (w0, w1, w2, w3) =
                                          all_four _ _ _ _ (require-eq-ok _ _ ew) in
                                        record {
                                          tree_writable = w0;
                                          vault_writable = w1;
                                          depositor_writable = w2;
                                          ata_writable = w3;
                                          vault = v;
                                          ata = d;
                                          pool_found = ok_or-eq-ok _ _ e0 ∙ ap some same;
                                          vault_found = ok_or-eq-ok _ _ e2;
                                          ata_found = ok_or-eq-ok _ _ e4;
                                          tree_found = require-eq-ok _ _ e1;
                                          mint_found =
                                              ok_or-eq-ok _ _ e3
                                              ∙ ap (λ (q : Pool × Mint). some q.1)
                                                  (ok-injective _ _ h12);
                                          ata_mint = (bytes_eq_iff _ _).0 (require-eq-ok _ _ e11);
                                          signed = require-eq-ok _ _ e5;
                                          token = (bytes_eq_iff _ _).0 (require-eq-ok _ _ e6);
                                          ata_owner = (bytes_eq_iff _ _).0 (require-eq-ok _ _ e12);
                                          bound = record {
                                            derived =
                                                rw same at (pool_address_checks_inv k.pool p' e7);
                                            tree_address = tree_address_checks_inv k.pool k.tree e8;
                                            vault_address = va;
                                            vault_owner = vo;
                                            vault_mint = vm;
                                            mint_address =
                                                rw same at
                                                  ((bytes_eq_iff _ _).0 (require-eq-ok _ _ e10));
                                          };
                                        }

  -- What validation of a transaction's accounts read.
  pub record Found (s : Chain r) (k : TransactAccounts) (a : Loaded) : Type 0 where
    pub pool_found : s.pools k.pool ≡ some a.pool
    pub tree_found : is_some (s.trees k.tree) ≡ true
    pub vault_found : s.tokens k.vault ≡ some a.vault
    pub mint_found : s.mints k.mint ≡ some a.mint
    pub ata_found : s.tokens k.recipient_ata ≡ some a.recipient_ata
    pub signed : k.payer_signed ≡ true
    pub token : k.token_program ≡ r.token_program
    pub system : k.system_program ≡ system_program

  pub load_accounts-Found :
      (s : Chain r) (k : TransactAccounts) {a : Loaded} → load_accounts r s k ≡ ok a → Found s k a
  unfolding load_accounts
  load_accounts-Found s k {a} e = bind_inv (load (s.pools k.pool)) _ e λ p e0 h0.
      then_inv (require (is_some (s.trees k.tree)) constraint) _ h0 λ e1 h1.
        bind_inv (load (s.tokens k.vault)) _ h1 λ v e2 h2.
          bind_inv (load (s.mints k.mint)) _ h2 λ m e3 h3.
            bind_inv (load (s.tokens k.recipient_ata)) _ h3 λ d e4 h4.
              then_inv (require k.payer_signed constraint) _ h4 λ e5 h5.
                then_inv (require (bytes_eq k.token_program r.token_program) constraint) _ h5
                  λ e6 h6.
                    then_inv (require (bytes_eq k.system_program system_program) constraint) _ h6
                      λ ey hy.
                        let same = ok-injective _ _ hy in
                        record {
                          system = (bytes_eq_iff _ _).0 (require-eq-ok _ _ ey);
                          pool_found = ok_or-eq-ok _ _ e0 ∙ ap (λ (l : Loaded). some l.pool) same;
                          tree_found = require-eq-ok _ _ e1;
                          vault_found = ok_or-eq-ok _ _ e2 ∙ ap (λ (l : Loaded). some l.vault) same;
                          mint_found = ok_or-eq-ok _ _ e3 ∙ ap (λ (l : Loaded). some l.mint) same;
                          signed = require-eq-ok _ _ e5;
                          token = (bytes_eq_iff _ _).0 (require-eq-ok _ _ e6);
                          ata_found =
                              ok_or-eq-ok _ _ e4 ∙ ap (λ (l : Loaded). some l.recipient_ata) same;
                        }

  pub account_checks-Bound :
      (s : Chain r) (k : TransactAccounts) (a : Loaded)
      → account_checks r s k a ≡ ok tt
      → Bound r k.pool k.tree k.vault k.mint a.pool a.vault
        × (k.verifier_program ≡ a.pool.verifier)
        × (a.recipient_ata.mint ≡ k.mint)
        × (s.programs k.verifier_program ≡ true)
        × IsWritable k
  unfolding account_checks
  account_checks-Bound s k a e =
      then_inv
        (require
          (k.tree_writable
            && (k.vault_writable
                && (k.record_0_writable && (k.record_1_writable && k.recipient_ata_writable))))
          constraint)
        _ e
        λ ew hw. then_inv (pool_address_checks r k.pool a.pool) _ hw λ e7 h7.
          then_inv (tree_address_checks r k.pool k.tree) _ h7 λ e8 h8.
            then_inv (vault_checks r k.pool k.mint k.vault a.vault) _ h8 λ e9 h9.
              then_inv (require (bytes_eq k.mint a.pool.asset.mint) constraint) _ h9 λ e10 h10.
                then_inv (require (bytes_eq a.recipient_ata.mint k.mint) constraint) _ h10
                  λ e11 h11.
                    then_inv
                      (require (bytes_eq k.verifier_program a.pool.verifier)
                        (pool_error wrong_verifier))
                      _ h11
                      λ e12 h12.
                        then_inv (require (s.programs k.verifier_program) constraint) _ h12
                          λ e13 h13.
                            let (w0, w1, w2, w3, w4) = all_five _ _ _ _ _ (require-eq-ok _ _ ew) in
                            let (vm, vo, va) = vault_checks_inv k.pool k.mint k.vault a.vault e9 in
                            (
                              record {
                                derived = pool_address_checks_inv k.pool a.pool e7;
                                tree_address = tree_address_checks_inv k.pool k.tree e8;
                                vault_address = va;
                                vault_owner = vo;
                                vault_mint = vm;
                                mint_address = (bytes_eq_iff _ _).0 (require-eq-ok _ _ e10);
                              },
                              (bytes_eq_iff _ _).0 (require-eq-ok _ _ e12),
                              (bytes_eq_iff _ _).0 (require-eq-ok _ _ e11),
                              require-eq-ok _ _ e13,
                              record {
                                tree = w0;
                                vault = w1;
                                record_0 = w2;
                                record_1 = w3;
                                recipient_ata = w4;
                                payer = require-eq-ok _ _ h13;
                              },
                            )
