-- ===== src/Program/Vault.antt =====
-- The tokens in the vault: what a deposit and a withdrawal move, and the balance over any history.
pub mod Custody
pub mod Solvency
use veil.Prelude.{
  ℕ, suc, ◌+◌, ◌≤◌, ◌<◌, ◌≡◌, ◌≢◌, refl, sym, ap, ◌∙◌, Option, some, none, true, ltb, leb, length,
  List, [], ◌∷◌, ◌++◌, arith,
}
use veil.Prelude.Int.{ℤ, pos, negsuc, pos_part, neg_part, is_negative}
use veil.Prelude.Res.{ok, then_inv, require, require-eq-ok}
use veil.Bytes.{Bytes}
use veil.Program.Error.{pool_error, zero_amount}
use veil.Program.Runtime.{Pubkey, TokenAccount, Ledger, Runtime}
use veil.Program.Runtime.Laws.{balance, IsRuntime, IsToken}
use veil.Program.State.{Chain, program_id}
use veil.Program.State.Laws.{update_ne}
use veil.Program.Tree.Effects.{insert_frame}
use veil.Program.Initialize.{pool_seeds}
use veil.Program.Shield.{ShieldAccounts, shield_guards, shield}
use veil.Program.Shield.Effects.{Deposited, shield-Deposited}
use veil.Program.Access.{
  ShieldBound, shield_accounts-ShieldBound, Found, load_accounts-Found, Bound, account_checks-Bound,
}
use veil.Program.Transact.{TransactArgs, TransactAccounts, Loaded, spend, transact}
use veil.Program.Transact.Run.{Run, transact-Run}
use veil.Program.Transact.Guards.{IsAdmissible, transact_guards_iff}
use veil.Program.Transact.Effects.{
  init_nullifier_inv, Payment, unpaid, paid, pay-Payment, Payment-frame, insert_outputs_inv,
}

pub some-eq {ℓ} : {A : Type ℓ} (a b : A) → some a ≡ some b → a ≡ b
some-eq a b h = cc

ltb_sound : (a b : ℕ) → ltb a b ≡ true → a < b
ltb_sound a b h = ground arith

module _ (r : Runtime) where
  shield_positive :
      (npk : Bytes) (amount : ℕ) (note : Bytes)
      → shield_guards r npk amount note ≡ ok tt
      → 0 < amount
  unfolding shield_guards
  shield_positive npk amount note e =
      then_inv (require (ltb 0 amount) (pool_error zero_amount)) _ e
        λ e0 h0. ltb_sound 0 amount (require-eq-ok (ltb 0 amount) (pool_error zero_amount) e0)

  -- The ledger after a transaction is the ledger that its payment left.
  pub transact_tokens :
      (s : Chain r) (k : TransactAccounts) (x : TransactArgs) {t : Chain r} (run : Run r s k x t)
      → (t.tokens ≡ run.paid.tokens) × ((spend r run.second_init k x.nullifiers).tokens ≡ s.tokens)
  unfolding spend
  transact_tokens s k x run =
      let (u, e0, e1) =
        insert_outputs_inv r run.paid k.tree x.out_commitments x.ext_data.encrypted_notes
          run.outputs in
      let (_, _, same0) =
        init_nullifier_inv r s k.pool k.nullifier_0_record x.nullifiers.0 run.init_0 in
      let (_, _, same1) =
        init_nullifier_inv r run.first_init k.pool k.nullifier_1_record x.nullifiers.1 run.init_1 in
      (
        ap (λ (c : Chain r). c.tokens) run.result
            ∙ (insert_frame r u k.tree x.out_commitments.1 x.ext_data.encrypted_notes.1 e1).2
            ∙ (insert_frame r run.paid k.tree x.out_commitments.0 x.ext_data.encrypted_notes.0
                e0).2,
        ap (λ (c : Chain r). c.tokens) same1 ∙ ap (λ (c : Chain r). c.tokens) same0,
      )

  -- A transaction creates and changes no pool.
  pub transact_pools :
      (s : Chain r) (k : TransactAccounts) (x : TransactArgs) {t : Chain r}
      → Run r s k x t
      → t.pools ≡ s.pools
  unfolding spend
  transact_pools s k x run =
      let (u, e0, e1) =
        insert_outputs_inv r run.paid k.tree x.out_commitments x.ext_data.encrypted_notes
          run.outputs in
      let (_, _, same0) =
        init_nullifier_inv r s k.pool k.nullifier_0_record x.nullifiers.0 run.init_0 in
      let (_, _, same1) =
        init_nullifier_inv r run.first_init k.pool k.nullifier_1_record x.nullifiers.1 run.init_1 in
      let payment = pay-Payment r _ k run.accounts x.ext_amount x.ext_data.recipient run.payment in
      ap (λ (c : Chain r). c.pools) run.result
      ∙ (insert_frame r u k.tree x.out_commitments.1 x.ext_data.encrypted_notes.1 e1).0
      ∙ (insert_frame r run.paid k.tree x.out_commitments.0 x.ext_data.encrypted_notes.0 e0).0
      ∙ (Payment-frame r payment).0
      ∙ ap (λ (c : Chain r). c.pools) same1
      ∙ ap (λ (c : Chain r). c.pools) same0

module _ (r : Runtime) (R : IsRuntime r) where
  -- A deposit by anyone but the pool itself moves exactly its amount, which is not zero, from the
  -- depositor's account into the vault.
  pub shield_moves :
      (s : Chain r) (k : ShieldAccounts) (npk : Bytes) (amount : ℕ) (note : Bytes) {t : Chain r}
      → shield r s k npk amount note ≡ ok t
      → k.depositor ≢ k.pool
      → (0 < amount)
        × (balance t.tokens k.vault ≡ balance s.tokens k.vault + amount)
        × (balance t.tokens k.depositor_ata + amount ≡ balance s.tokens k.depositor_ata)
  shield_moves s k npk amount note e apart =
      let d = shield-Deposited r s k npk amount note e in
      let b = shield_accounts-ShieldBound r s k d.accounts in
      let different : k.depositor_ata ≢ k.vault = λ same. apart (
        sym b.ata_owner
        ∙ ap (λ (a : TokenAccount). a.owner)
            (some-eq _ _ (sym b.ata_found ∙ ap s.tokens same ∙ b.vault_found))
        ∙ b.bound.vault_owner) in
      let (out, in') = R.is_token.moves s.tokens _ [] amount d.mint.decimals d.moved different in
      let frame = (insert_frame r _ k.tree d.commitment note d.result).2 in
      (shield_positive r npk amount note d.guarded, rw frame in', rw frame out)

  Payment-moves :
      (s : Chain r) (k : TransactAccounts) (a : Loaded) (recipient : Pubkey) {t : Chain r}
      {amount : ℤ}
      → Payment r s k a recipient t amount
      → (is_negative amount ≡ true → k.recipient_ata ≢ k.vault)
      → (balance t.tokens k.vault + neg_part amount ≡ balance s.tokens k.vault)
        × (balance t.tokens k.recipient_ata ≡ balance s.tokens k.recipient_ata + neg_part amount)
        × (is_negative amount ≡ true → a.recipient_ata.owner ≡ recipient)
  Payment-moves s k a recipient (unpaid n e) apart =
      rw e (omega arith, omega arith, λ neg. absurd (cc))
  Payment-moves s k a recipient (paid n l covered owner moved e) apart =
      let (out, in') =
        R.is_token.moves s.tokens _ _ (suc n) a.mint.decimals moved
          (λ same. apart refl (sym same)) in
      rw e (out, in', λ neg. owner)

  -- A successful transaction deposits nothing, and a negative amount leaves the vault for a token
  -- account of the recipient that the proof is bound to; an amount of zero moves nothing.
  pub transact_moves :
      (s : Chain r) (k : TransactAccounts) (x : TransactArgs) {t : Chain r}
      → transact r s k x ≡ ok t
      → (pos_part x.ext_amount ≡ 0)
        × (balance t.tokens k.vault + neg_part x.ext_amount ≡ balance s.tokens k.vault)
        × (balance t.tokens k.recipient_ata
            ≡ balance s.tokens k.recipient_ata + neg_part x.ext_amount)
        × (is_negative x.ext_amount ≡ true
            → (a : TokenAccount) × (s.tokens k.recipient_ata ≡ some a)
              × (a.owner ≡ x.ext_data.recipient))
  transact_moves s k x {t} e =
      let run = transact-Run r s k x e in
      let v = (transact_guards_iff r k x).0 run.guarded in
      let (after, before) = transact_tokens r s k x run in
      let found = load_accounts-Found r s k run.loaded in
      let (out, in', to_recipient) =
        Payment-moves _ k run.accounts x.ext_data.recipient
          (pay-Payment r _ k run.accounts x.ext_amount x.ext_data.recipient run.payment)
          (λ neg same. v.to_another neg same) in
      (
        v.no_deposit,
        rw (after, ← before) out,
        rw (after, ← before) in',
        λ neg. (run.accounts.recipient_ata, found.ata_found, to_recipient neg),
      )
