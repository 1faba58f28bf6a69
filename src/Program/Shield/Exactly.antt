-- ===== src/Program/Shield/Exactly.antt =====
-- Exactly when a deposit succeeds.
use veil.Prelude.{ℕ, ◌≤◌, ◌<◌, ◌≡◌, ◌↔◌, refl, some, true, [], length, ltb, leb, ltb_iff, leb_iff}
use veil.Prelude.Res.{ok, require, ok_or-eq-ok, then_inv, require-eq-ok}
use veil.Bytes.{Bytes}
use veil.Crypto.{IsScalar}
use veil.Program.Error.{pool_error, zero_amount, invalid_field, note_too_large}
use veil.Program.Field.{poseidon, is_canonical_field}
use veil.Program.Runtime.{Mint, Ledger, Runtime}
use veil.Program.Runtime.Laws.{IsRuntime}
use veil.Program.State.{Chain, Pool, max_encrypted_note_len}
use veil.Program.Tree.Room.{HasRoom, insert-HasRoom, insert-room}
use veil.Program.Access.{ShieldBound, shield_accounts-ShieldBound}
use veil.Program.Transact.Accounts.{same_bytes, key_is-some}
use veil.Program.Shield.{
  ShieldAccounts, shield_accounts, pool_address_checks, tree_address_checks, vault_checks,
  shield_guards, deposit, note_commitment, handle, shield,
}
use veil.Program.Shield.Effects.{shield-Deposited}

-- All that a deposit needs of the chain.
pub record IsShieldable (r : Runtime) (R : IsRuntime r) (s : Chain r) (k : ShieldAccounts)
    (npk : Bytes) (amount : ℕ) (note : Bytes) : Type 0 where
  pub pool : Pool
  pub mint : Mint
  pub after : Ledger
  pub commitment : Bytes
  pub accounts : ShieldBound r s k pool mint
  pub positive : 0 < amount
  pub canonical : is_canonical_field r.crypto npk ≡ true
  pub note_fits : length note ≤ 128
  pub moved :
      r.transfer_checked s.tokens
        (record {
          source = k.depositor_ata;
          mint = k.mint;
          destination = k.vault;
          authority = k.depositor;
        })
        []
        amount
        mint.decimals
      ≡ some after
  pub committed : note_commitment r pool npk amount ≡ ok commitment
  pub room : HasRoom r R 1 (s.trees k.tree)

module _ (r : Runtime) where
  shield_guards_inv :
      (npk : Bytes) (amount : ℕ) (note : Bytes)
      → shield_guards r npk amount note ≡ ok tt
      → (0 < amount) × (is_canonical_field r.crypto npk ≡ true) × (length note ≤ 128)
  unfolding shield_guards
  shield_guards_inv npk amount note e =
      then_inv (require (ltb 0 amount) (pool_error zero_amount)) _ e λ e0 h0.
        then_inv (require (is_canonical_field r.crypto npk) (pool_error invalid_field)) _ h0
          λ e1 h1. (
            (ltb_iff _ _).0 (require-eq-ok _ (pool_error zero_amount) e0),
            require-eq-ok _ (pool_error invalid_field) e1,
            (leb_iff _ _).0 (require-eq-ok _ (pool_error note_too_large) h1),
          )

  shield_guards_ok :
      (npk : Bytes) (amount : ℕ) (note : Bytes)
      → 0 < amount
      → is_canonical_field r.crypto npk ≡ true
      → length note ≤ 128
      → shield_guards r npk amount note ≡ ok tt
  unfolding shield_guards
  shield_guards_ok npk amount note positive canonical fits =
      let p : ltb 0 amount ≡ true = (ltb_iff _ _).1 positive in
      let f : leb (length note) max_encrypted_note_len ≡ true = (leb_iff _ _).1 fits in
      rw (p, canonical, f) refl

  shield_accounts_ok :
      (s : Chain r) (k : ShieldAccounts) {p : Pool} {m : Mint}
      → ShieldBound r s k p m
      → shield_accounts r s k ≡ ok (p, m)
  unfolding shield_accounts pool_address_checks tree_address_checks vault_checks
  shield_accounts_ok s k {p} {m} h =
      rw
        (
          h.pool_found,
          h.tree_found,
          h.vault_found,
          h.mint_found,
          h.ata_found,
          h.signed,
          same_bytes k.token_program r.token_program h.token,
          h.tree_writable,
          h.vault_writable,
          h.depositor_writable,
          h.ata_writable,
          key_is-some _ k.pool h.bound.derived,
          same_bytes k.tree _ h.bound.tree_address,
          same_bytes h.vault.mint k.mint h.bound.vault_mint,
          same_bytes h.vault.owner k.pool h.bound.vault_owner,
          same_bytes k.vault _ h.bound.vault_address,
          same_bytes k.mint p.asset.mint h.bound.mint_address,
          same_bytes h.ata.mint k.mint h.ata_mint,
          same_bytes h.ata.owner k.depositor h.ata_owner,
        )
        refl

module _ (r : Runtime) (R : IsRuntime r) where
  shield-IsShieldable :
      (s : Chain r) (k : ShieldAccounts) (npk : Bytes) (amount : ℕ) (note : Bytes) {t : Chain r}
      → shield r s k npk amount note ≡ ok t
      → IsShieldable r R s k npk amount note
  shield-IsShieldable s k npk amount note e =
      let d = shield-Deposited r s k npk amount note e in
      let (positive, canonical, fits) = shield_guards_inv r npk amount note d.guarded in
      record {
        pool = d.pool;
        mint = d.mint;
        after = d.tokens;
        commitment = d.commitment;
        accounts = shield_accounts-ShieldBound r s k d.accounts;
        positive = positive;
        canonical = canonical;
        note_fits = fits;
        moved = d.moved;
        committed = d.committed;
        room = insert-room r R (record s { tokens = d.tokens }) k.tree d.commitment note d.result;
      }

  commitment-IsScalar :
      (p : Pool) (npk : Bytes) (amount : ℕ) {h : Bytes}
      → note_commitment r p npk amount ≡ ok h
      → IsScalar h
  unfolding note_commitment poseidon
  commitment-IsScalar p npk amount e = R.is_crypto.poseidon-IsScalar _ (ok_or-eq-ok _ _ e)

  IsShieldable-shield :
      (s : Chain r) (k : ShieldAccounts) (npk : Bytes) (amount : ℕ) (note : Bytes)
      → IsShieldable r R s k npk amount note
      → (t : Chain r) × (shield r s k npk amount note ≡ ok t)
  unfolding shield handle deposit
  IsShieldable-shield s k npk amount note h =
      let (t, inserted, _) =
        insert-HasRoom r R (record s { tokens = h.after }) k.tree h.commitment note 0
          (commitment-IsScalar h.pool npk amount h.committed) h.room in
      (
        t,
        rw
            (
              shield_accounts_ok r s k h.accounts,
              shield_guards_ok r npk amount note h.positive h.canonical h.note_fits,
              h.moved,
              h.committed,
            )
            inserted,
      )

  -- A deposit succeeds exactly when the accounts it names are there, are the pool's, the depositor has
  -- signed, those that are written are passed as writable and the token program is SPL's, the
  -- depositor's token account is its own and of the mint, the amount is not zero, the note key is a
  -- canonical field element, the note has at most 128 bytes, the amount can be transferred to the vault,
  -- the commitment of the note is computed, and the tree has room for a leaf.
  pub shield_iff :
      (s : Chain r) (k : ShieldAccounts) (npk : Bytes) (amount : ℕ) (note : Bytes)
      → ((t : Chain r) × (shield r s k npk amount note ≡ ok t))
        ↔ IsShieldable r R s k npk amount note
  shield_iff s k npk amount note = (
    λ (t, e). shield-IsShieldable s k npk amount note e,
    λ h. IsShieldable-shield s k npk amount note h,
  )
