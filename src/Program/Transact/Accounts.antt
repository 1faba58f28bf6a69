-- ===== src/Program/Transact/Accounts.antt =====
-- Which accounts `transact` accepts.
use veil.Prelude.{◌≡◌, ◌≢◌, refl, ◌∙◌, Option, some, true, false, [], ◌∷◌, ◌++◌, replicate, arith}
use veil.Prelude.Res.{ok}
use veil.Bytes.{Bytes, bytes_eq, bytes_eq_iff}
use veil.Program.Runtime.{Pubkey, Runtime, system_program}
use veil.Program.Access.{IsWritable}
use veil.Program.State.{Chain, is_some, in_use, update, program_id}
use veil.Program.Initialize.{pool_seeds, tree_seeds, key_is}
use veil.Program.Shield.{pool_address_checks, tree_address_checks, vault_checks}
use veil.Program.Transact.{
  TransactAccounts, Loaded, load_accounts, init_nullifier, account_checks, transact_accounts,
}
use veil.Program.Transact.Effects.{record_address}

-- The accounts that are named are there, are the pool's, and the records are free.
pub record HasAccounts (r : Runtime) (s : Chain r) (k : TransactAccounts) (n : Bytes × Bytes)
    (a : Loaded) : Type 0 where
  pub pool_found : s.pools k.pool ≡ some a.pool
  pub tree_found : is_some (s.trees k.tree) ≡ true
  pub vault_found : s.tokens k.vault ≡ some a.vault
  pub mint_found : s.mints k.mint ≡ some a.mint
  pub ata_found : s.tokens k.recipient_ata ≡ some a.recipient_ata
  pub signed : k.payer_signed ≡ true
  pub token : k.token_program ≡ r.token_program
  pub system : k.system_program ≡ system_program
  pub writable : IsWritable k
  pub derived :
      r.create_program_address (pool_seeds ++ (a.pool.bump ∷ []) ∷ []) program_id ≡ some k.pool
  pub tree_address : k.tree ≡ (r.find_program_address (tree_seeds k.pool) program_id).0
  pub vault_mint : a.vault.mint ≡ k.mint
  pub vault_owner : a.vault.owner ≡ k.pool
  pub vault_address : k.vault ≡ r.get_associated_token_address k.pool k.mint
  pub mint_address : k.mint ≡ a.pool.asset.mint
  pub ata_mint : a.recipient_ata.mint ≡ k.mint
  pub verifier : k.verifier_program ≡ a.pool.verifier
  pub executable : s.programs k.verifier_program ≡ true
  pub record_0 : k.nullifier_0_record ≡ record_address r k.pool n.0
  pub record_1 : k.nullifier_1_record ≡ record_address r k.pool n.1
  pub free_0 : in_use s k.nullifier_0_record ≡ false
  pub free_1 : in_use s k.nullifier_1_record ≡ false
  pub apart : k.nullifier_0_record ≢ k.nullifier_1_record

pub same_bytes : (a b : Bytes) → a ≡ b → bytes_eq a b ≡ true
same_bytes a b e = (bytes_eq_iff a b).1 e

pub key_is-some : (o : Option Pubkey) (key : Pubkey) → o ≡ some key → key_is o key ≡ true
key_is-some o key e = ground arith

module _ (r : Runtime) where
  -- The chain with both records created.
  abbrev pub reserved : Chain r → TransactAccounts → Chain r
  reserved s k = record s {
    nullifiers =
        update k.nullifier_1_record (record { nullifier = replicate 32 0 })
          (update k.nullifier_0_record (record { nullifier = replicate 32 0 }) s.nullifiers);
  }

  load_accounts-HasAccounts :
      (s : Chain r) (k : TransactAccounts) (n : Bytes × Bytes) (a : Loaded)
      → HasAccounts r s k n a
      → load_accounts r s k ≡ ok a
  unfolding load_accounts
  load_accounts-HasAccounts s k n a h =
      rw
        (
          h.pool_found,
          h.tree_found,
          h.vault_found,
          h.mint_found,
          h.ata_found,
          h.signed,
          same_bytes k.token_program r.token_program h.token,
          same_bytes k.system_program system_program h.system,
        )
        refl

  account_checks-HasAccounts :
      (s : Chain r) (k : TransactAccounts) (n : Bytes × Bytes) (a : Loaded)
      → HasAccounts r s k n a
      → account_checks r (reserved s k) k a ≡ ok tt
  unfolding account_checks pool_address_checks tree_address_checks vault_checks
  account_checks-HasAccounts s k n a h =
      rw
        (
          h.writable.tree,
          h.writable.vault,
          h.writable.record_0,
          h.writable.record_1,
          h.writable.recipient_ata,
          key_is-some _ k.pool h.derived,
          same_bytes k.tree _ h.tree_address,
          same_bytes a.vault.mint k.mint h.vault_mint,
          same_bytes a.vault.owner k.pool h.vault_owner,
          same_bytes k.vault _ h.vault_address,
          same_bytes k.mint a.pool.asset.mint h.mint_address,
          same_bytes a.recipient_ata.mint k.mint h.ata_mint,
          same_bytes k.verifier_program a.pool.verifier h.verifier,
          h.executable,
          h.writable.payer,
        )
        refl

  init_nullifier_ok :
      (s : Chain r) (pool key : Pubkey) (nullifier : Bytes)
      → key ≡ record_address r pool nullifier
      → in_use s key ≡ false
      → init_nullifier r s pool key nullifier
        ≡ ok (record s {
          nullifiers = update key (record { nullifier = replicate 32 0 }) s.nullifiers;
        })
  unfolding init_nullifier
  init_nullifier_ok s pool key nullifier at free =
      rw (same_bytes key (record_address r pool nullifier) at, free) refl

  -- Another address is as free as before.
  pub in_use-update :
      (s : Chain r) (key other : Pubkey)
      → key ≢ other
      → in_use
          (record s {
            nullifiers = update key (record { nullifier = replicate 32 0 }) s.nullifiers;
          })
          other
        ≡ in_use s other
  in_use-update s key other h = ground arith

  pub transact_accounts-HasAccounts :
      (s : Chain r) (k : TransactAccounts) (n : Bytes × Bytes) (a : Loaded)
      → HasAccounts r s k n a
      → transact_accounts r s k n ≡ ok (a, reserved s k)
  unfolding transact_accounts
  transact_accounts-HasAccounts s k n a h =
      let first = init_nullifier_ok s k.pool k.nullifier_0_record n.0 h.record_0 h.free_0 in
      let s1 : Chain r = record s {
        nullifiers =
            update k.nullifier_0_record (record { nullifier = replicate 32 0 }) s.nullifiers;
      } in
      let second =
        init_nullifier_ok s1 k.pool k.nullifier_1_record n.1 h.record_1
          (in_use-update s k.nullifier_0_record k.nullifier_1_record h.apart ∙ h.free_1) in
      rw (load_accounts-HasAccounts s k n a h, first, second, account_checks-HasAccounts s k n a h)
        refl
