-- ===== src/Program/Steps.antt =====
-- The chain over time: the program's instructions, and what the rest of the chain may do between
-- them. A failed instruction leaves no trace, so it is no step.
use veil.Prelude.{ℕ, ◌≡◌, ◌≢◌, ◌≤◌, some}
use veil.Prelude.Res.{ok}
use veil.Bytes.{Bytes}
use veil.Program.Runtime.{Pubkey, TokenAccount, Runtime}
use veil.Program.State.{Chain, program_id}
use veil.Program.Initialize.{InitPoolAccounts, init_pool, pool_seeds}
use veil.Program.Shield.{ShieldAccounts, shield}
use veil.Program.Transact.{TransactArgs, TransactAccounts, transact}

-- The address of the pool account, for which only the program can sign.
abbrev pub pool_address : Runtime → Pubkey
pool_address r = (r.find_program_address pool_seeds program_id).0

-- The pool's address has no private key, so it signs no instruction as a depositor.
-- Other programs do not write the program's accounts, and take no tokens from an account that the
-- pool owns: an account of the pool stays one, with the same mint and no less in it.
pub record IsForeign (r : Runtime) (s t : Chain r) : Type 0 where
  pub pools : t.pools ≡ s.pools
  pub trees : t.trees ≡ s.trees
  pub nullifiers : t.nullifiers ≡ s.nullifiers
  pub events : t.events ≡ s.events
  pub kept :
      (key : Pubkey) (a : TokenAccount)
      → s.tokens key ≡ some a
      → a.owner ≡ pool_address r
      → (b : TokenAccount) × (t.tokens key ≡ some b)
        × (b.owner ≡ a.owner)
        × (b.mint ≡ a.mint)
        × (a.amount ≤ b.amount)

pub data Step (r : Runtime) (s t : Chain r) : Type 0 where
  initializes : (k : InitPoolAccounts) (domain : Bytes) → init_pool r s k domain ≡ ok t → Step r s t
  shields :
      (k : ShieldAccounts) (npk : Bytes) (amount : ℕ) (note : Bytes)
      → k.depositor ≢ pool_address r
      → shield r s k npk amount note ≡ ok t
      → Step r s t
  transacts : (k : TransactAccounts) (x : TransactArgs) → transact r s k x ≡ ok t → Step r s t
  elsewhere : IsForeign r s t → Step r s t

pub data Reach (r : Runtime) (s : Chain r) : Chain r → Type 0 where
  here : Reach r s s
  next : {t u : Chain r} → Reach r s t → Step r t u → Reach r s u
