-- ===== src/Program/Shield/Effects.antt =====
-- What a successful deposit changes.
use veil.Prelude.{ℕ, ◌≡◌, some, []}
use veil.Prelude.Res.{ok, ok_or, ok-injective, ok_or-eq-ok, bind_inv, then_inv}
use veil.Bytes.{Bytes}
use veil.Program.Error.{token_failed}
use veil.Program.Runtime.{Mint, Ledger, Runtime}
use veil.Program.State.{Chain, Pool}
use veil.Program.Tree as Tree
use veil.Program.Shield.{
  ShieldAccounts, shield_accounts, shield_guards, deposit, note_commitment, handle, shield,
}

-- The stages of a successful call.
pub record Deposited (r : Runtime) (s : Chain r) (k : ShieldAccounts) (npk : Bytes) (amount : ℕ)
    (note : Bytes) (t : Chain r) : Type 0 where
  pub pool : Pool
  pub mint : Mint
  pub tokens : Ledger
  pub commitment : Bytes
  pub accounts : shield_accounts r s k ≡ ok (pool, mint)
  pub guarded : shield_guards r npk amount note ≡ ok tt
  pub moved :
      r.transfer_checked s.tokens
        (record {
          source = k.depositor_ata;
          mint = k.mint;
          destination = k.vault;
          authority = k.depositor;
        })
        []
        amount
        mint.decimals
      ≡ some tokens
  pub committed : note_commitment r pool npk amount ≡ ok commitment
  pub result : Tree.insert (record s { tokens = tokens }) k.tree commitment note ≡ ok t

module _ (r : Runtime) where
  pub shield-Deposited :
      (s : Chain r) (k : ShieldAccounts) (npk : Bytes) (amount : ℕ) (note : Bytes) {t : Chain r}
      → shield r s k npk amount note ≡ ok t
      → Deposited r s k npk amount note t
  unfolding shield handle deposit
  shield-Deposited s k npk amount note e = bind_inv (shield_accounts r s k) _ e λ a e0 h0.
      then_inv (shield_guards r npk amount note) _ h0 λ e1 h1.
        bind_inv (deposit r s k a.1 amount) _ h1 λ s' e2 h2.
          bind_inv (note_commitment r a.0 npk amount) _ h2 λ c e3 h3.
            bind_inv
              (ok_or
                (r.transfer_checked s.tokens
                  (record {
                    source = k.depositor_ata;
                    mint = k.mint;
                    destination = k.vault;
                    authority = k.depositor;
                  })
                  [] amount a.1.decimals)
                token_failed)
              _ e2
              λ l e4 h4. record {
                pool = a.0;
                mint = a.1;
                tokens = l;
                commitment = c;
                accounts = e0;
                guarded = e1;
                moved = ok_or-eq-ok _ _ e4;
                committed = e3;
                result = rw (← ok-injective _ _ h4) at h3;
              }
