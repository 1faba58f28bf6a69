-- ===== src/Program/Vault/Solvency.antt =====
-- The balance of the vault over any history.
use veil.Prelude.{ℕ, ◌+◌, ◌≤◌, ◌≡◌, sym, ap, ◌∙◌, some, arith}
use veil.Prelude.Int.{neg_part}
use veil.Program.Runtime.{Pubkey, TokenAccount, Ledger, Runtime}
use veil.Program.Runtime.Laws.{IsRuntime, balance}
use veil.Program.State.{Chain}
use veil.Program.Initialize.Effects.{init_pool_inv}
use veil.Program.Shield.Effects.{shield-Deposited}
use veil.Program.Access.{shield_accounts-ShieldBound, load_accounts-Found, account_checks-Bound}
use veil.Program.Transact.Run.{transact-Run}
use veil.Program.Steps.{Step, initializes, shields, transacts, elsewhere, Reach, here, next}
use veil.Program.Vault.{shield_moves, transact_moves}
use veil.Program.Vault.Custody.{HasVault, vault_address, named_vault, Step-HasVault}

-- What the shields of a history put in, and what its transactions took out.
abbrev deposited : {r : Runtime} {s t : Chain r} → Step r s t → ℕ
deposited (initializes k domain e) = 0
deposited (shields k npk amount note other e) = amount
deposited (transacts k x e) = 0
deposited (elsewhere f) = 0

abbrev withdrawn : {r : Runtime} {s t : Chain r} → Step r s t → ℕ
withdrawn (initializes k domain e) = 0
withdrawn (shields k npk amount note other e) = 0
withdrawn (transacts k x e) = neg_part x.ext_amount
withdrawn (elsewhere f) = 0

abbrev pub deposits : {r : Runtime} {s t : Chain r} → Reach r s t → ℕ
deposits here = 0
deposits (next past step) = deposits past + deposited step

abbrev pub withdrawals : {r : Runtime} {s t : Chain r} → Reach r s t → ℕ
withdrawals here = 0
withdrawals (next past step) = withdrawals past + withdrawn step

balance_found :
    (l : Ledger) (key : Pubkey) (a : TokenAccount) → l key ≡ some a → balance l key ≡ a.amount
balance_found l key a e = rw (e, balance)

module _ (r : Runtime) (R : IsRuntime r) (mint : Pubkey) where
  abbrev vault_balance : Chain r → ℕ
  vault_balance s = balance s.tokens (vault_address r mint)

  Step-balance :
      {s t : Chain r} (step : Step r s t)
      → HasVault r s mint
      → vault_balance s + deposited step ≤ vault_balance t + withdrawn step
  Step-balance {s} (initializes k domain e) h =
      let (_, _, created, _, _, _) = init_pool_inv r s k domain e in
      absurd (cc (sym created.pool_free ∙ ap s.pools created.pool_address ∙ h.pool_found))
  Step-balance {s} {t} (shields k npk amount note other e) h =
      let d = shield-Deposited r s k npk amount note e in
      let b = shield_accounts-ShieldBound r s k d.accounts in
      let (pool, vault) = named_vault r h k.pool k.tree k.vault k.mint b.pool_found b.bound in
      let (_, in', _) = shield_moves r R s k npk amount note e (λ p. other (p ∙ pool)) in
      omega (arith, rw vault at in')
  Step-balance {s} {t} (transacts k x e) h =
      let run = transact-Run r s k x e in
      let found = load_accounts-Found r s k run.loaded in
      let (bound, _, _, _, _) = account_checks-Bound r run.second_init k run.accounts run.checked in
      let (_, vault) = named_vault r h k.pool k.tree k.vault k.mint found.pool_found bound in
      let (_, out, _, _) = transact_moves r R s k x e in omega (arith, rw vault at out)
  Step-balance {s} {t} (elsewhere f) h =
      let (b, found, _, _, more) =
        f.kept (vault_address r mint) h.account h.account_found h.account_owner in
      omega (arith, balance_found s.tokens _ _ h.account_found, balance_found t.tokens _ _ found)

  -- Over any history of a pool, the vault gains at least what was shielded less what was withdrawn:
  -- nothing leaves it but by a transaction. The pool, its mint and its vault stay.
  pub solvency :
      {s t : Chain r}
      → HasVault r s mint
      → (past : Reach r s t)
      → HasVault r t mint
        × (balance s.tokens (vault_address r mint) + deposits past
            ≤ balance t.tokens (vault_address r mint) + withdrawals past)
  solvency h here = (h, omega arith)
  solvency h (next past step) =
      let (h', before) = solvency h past in
      (Step-HasVault r R step h', omega (arith, Step-balance step h'))
