-- ===== src/Program/Vault/Custody.antt =====
-- Once a pool exists it keeps its mint and its vault, whatever happens on the chain.
use veil.Prelude.{◌≡◌, ◌≢◌, refl, sym, ap, ◌∙◌, Option, some, none, arith}
use veil.Prelude.Int.{ℤ}
use veil.Prelude.Res.{ok}
use veil.Bytes.{Bytes, Bytes_discrete}
use veil.Program.Runtime.{Pubkey, TokenAccount, Runtime}
use veil.Program.Runtime.Laws.{IsRuntime}
use veil.Program.State.{Chain, Pool, program_id, update}
use veil.Program.State.Laws.{update_self}
use veil.Program.Field.{asset_id}
use veil.Program.Initialize.{InitPoolAccounts, init_pool, pool_seeds, empty_pool}
use veil.Program.Tree.Effects.{insert_frame, initialize_inv}
use veil.Program.Initialize.Effects.{init_pool_inv}
use veil.Program.Shield.Effects.{shield-Deposited}
use veil.Program.Access.{Bound}
use veil.Program.Transact.{TransactAccounts, Loaded}
use veil.Program.Transact.Run.{transact-Run}
use veil.Program.Transact.Effects.{Payment, unpaid, paid, pay-Payment}
use veil.Program.Steps.{pool_address, Step, initializes, shields, transacts, elsewhere}
use veil.Program.Vault.{some-eq, transact_tokens, transact_pools}

abbrev pub vault_address : Runtime → Pubkey → Pubkey
vault_address r mint = r.get_associated_token_address (pool_address r) mint

-- There is one pool, for this mint, and it owns its vault.
pub record HasVault (r : Runtime) (s : Chain r) (mint : Pubkey) : Type 0 where
  pub pool : Pool
  pub account : TokenAccount
  pub pool_found : s.pools (pool_address r) ≡ some pool
  pub pool_mint : pool.asset.mint ≡ mint
  pub account_found : s.tokens (vault_address r mint) ≡ some account
  pub account_owner : account.owner ≡ pool_address r
  pub only : (key : Pubkey) → s.pools key ≢ none → key ≡ pool_address r

module _ (r : Runtime) where
  -- The program's instructions name this pool's vault.
  pub named_vault :
      {s : Chain r} {mint : Pubkey} (h : HasVault r s mint) (k_pool k_tree k_vault k_mint : Pubkey)
      {p : Pool} {a : TokenAccount}
      → s.pools k_pool ≡ some p
      → Bound r k_pool k_tree k_vault k_mint p a
      → (k_pool ≡ pool_address r) × (k_vault ≡ vault_address r mint)
  named_vault {s} {mint} h k_pool k_tree k_vault k_mint {p} {a} found b =
      let here : k_pool ≡ pool_address r = h.only k_pool (λ none'. cc) in
      let same : p ≡ h.pool = some-eq _ _ (sym found ∙ ap s.pools here ∙ h.pool_found) in
      let minted : k_mint ≡ mint =
        b.mint_address ∙ ap (λ (q : Pool). q.asset.mint) same ∙ h.pool_mint in
      (here, b.vault_address ∙ rw (here, minted))

  -- A chain with the same pools, and an account of the same owner as vault, still has the vault.
  same_pools :
      {s t : Chain r} {mint : Pubkey} (h : HasVault r s mint) (b : TokenAccount)
      → t.pools ≡ s.pools
      → t.tokens (vault_address r mint) ≡ some b
      → b.owner ≡ h.account.owner
      → HasVault r t mint
  same_pools h b pools found owner = record {
    pool = h.pool;
    account = b;
    pool_found = rw pools h.pool_found;
    pool_mint = h.pool_mint;
    account_found = found;
    account_owner = owner ∙ h.account_owner;
    only = λ key there. h.only key (rw pools at there);
  }

module _ (r : Runtime) (R : IsRuntime r) where
  Payment-keeps :
      {s : Chain r} {k : TransactAccounts} {a : Loaded} {recipient : Pubkey} {t : Chain r}
      {amount : ℤ} (key : Pubkey) (c : TokenAccount)
      → Payment r s k a recipient t amount
      → s.tokens key ≡ some c
      → (b : TokenAccount) × (t.tokens key ≡ some b) × (b.owner ≡ c.owner)
  Payment-keeps key c (unpaid n e) found = (c, rw e found, refl)
  Payment-keeps {s} key c (paid n l covered owner moved e) found =
      let (b, found', owner', _) = R.is_token.keeps s.tokens _ _ _ _ key c moved found in
      (b, rw e found', owner')

  pub Step-HasVault :
      {s t : Chain r} {mint : Pubkey} → Step r s t → HasVault r s mint → HasVault r t mint
  Step-HasVault {s} (initializes k domain e) h =
      let (_, _, created, _, _, _) = init_pool_inv r s k domain e in
      absurd (cc (sym created.pool_free ∙ ap s.pools created.pool_address ∙ h.pool_found))
  Step-HasVault {s} {t} {mint} (shields k npk amount note other e) h =
      let d = shield-Deposited r s k npk amount note e in
      let (pools, _, tokens) = insert_frame r _ k.tree d.commitment note d.result in
      let (b, found, owner, _) =
        R.is_token.keeps s.tokens _ _ _ _ (vault_address r mint) h.account d.moved
          h.account_found in
      same_pools r h b pools (rw tokens found) owner
  Step-HasVault {s} {t} {mint} (transacts k x e) h =
      let run = transact-Run r s k x e in
      let (after, before) = transact_tokens r s k x run in
      let (b, found, owner) =
        Payment-keeps (vault_address r mint) h.account
          (pay-Payment r _ k run.accounts x.ext_amount x.ext_data.recipient run.payment)
          (rw before h.account_found) in
      same_pools r h b (transact_pools r s k x run) (rw after found) owner
  Step-HasVault {s} {t} {mint} (elsewhere f) h =
      let (b, found, owner, _, _) =
        f.kept (vault_address r mint) h.account h.account_found h.account_owner in
      same_pools r h b f.pools found owner

update_found {ℓ} :
    {A : Type ℓ} (k : Pubkey) (a b : A) (f g : Pubkey → Option A) (key : Pubkey)
    → g ≡ update k b (update k a f)
    → key ≡ k
    → g key ≡ some b
update_found k a b f g key e same = rw (e, same) (ground arith)

update_only {ℓ} :
    {A : Type ℓ} (k : Pubkey) (a b : A) (f g : Pubkey → Option A)
    → g ≡ update k b (update k a f)
    → ((key : Pubkey) → f key ≡ none)
    → (key : Pubkey) → g key ≢ none
    → key ≡ k
update_only k a b f g e none' key there = elim (Bytes_discrete key k) [
  | yes same ↦ same
  | no other ↦ absurd (there (rw e (ground (arith, none' key))))
]

module _ (r : Runtime) where
  -- On a chain without a pool, initialisation sets up the pool of its mint, with an empty vault that
  -- it owns, and stores the verifier, the domain and the asset identifier of the mint.
  pub init-HasVault :
      (s : Chain r) (k : InitPoolAccounts) (domain : Bytes) {t : Chain r}
      → init_pool r s k domain ≡ ok t
      → ((key : Pubkey) → s.pools key ≡ none)
      → (h : HasVault r t k.mint) × (h.pool.verifier ≡ k.verifier_program)
        × (h.pool.domain ≡ domain)
        × (asset_id r.crypto k.mint ≡ ok h.pool.asset.id)
        × (h.account.amount ≡ 0)
  init-HasVault s k domain {t} e no_pools =
      let (u, id, created, _, asset, e1) = init_pool_inv r s k domain e in
      let (_, _, _, _, _, same) = initialize_inv r _ k.tree e1 in
      let p : Pool = record {
        verifier = k.verifier_program;
        asset = record { mint = k.mint; id = id };
        domain = domain;
        bump = (r.find_program_address pool_seeds program_id).1;
      } in
      let pools : t.pools ≡ update k.pool p (update k.pool (empty_pool r) s.pools) =
        ap (λ (c : Chain r). c.pools) same
        ∙ ap (λ (c : Chain r). update k.pool p c.pools) created.result in
      let tokens : t.tokens ≡ update k.vault created.vault s.tokens =
        ap (λ (c : Chain r). c.tokens) same ∙ ap (λ (c : Chain r). c.tokens) created.result in
      let vault : vault_address r k.mint ≡ k.vault = sym (
        created.vault_address
        ∙ ap (λ (key : Pubkey). r.get_associated_token_address key k.mint) created.pool_address) in
      (
        record {
          pool = p;
          account = created.vault;
          pool_found =
              update_found k.pool (empty_pool r) p s.pools t.pools _ pools
                (sym created.pool_address);
          pool_mint = refl;
          account_found = rw (tokens, vault) (update_self k.vault created.vault s.tokens);
          account_owner =
              ap (λ (a : TokenAccount). a.owner) created.vault_eq ∙ created.pool_address;
          only = λ key there.
              update_only k.pool (empty_pool r) p s.pools t.pools pools no_pools key there
              ∙ created.pool_address;
        },
        refl,
        refl,
        asset,
        ap (λ (a : TokenAccount). a.amount) created.vault_eq,
      )
