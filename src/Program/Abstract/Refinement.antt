-- ===== src/Program/Abstract/Refinement.antt =====
-- The program's histories are abstract ones.
use mathlib.Core.Path.{fun_ext}
use mathlib.Core.List.{append-nil, append_assoc}
use veil.Prelude.{
  ◌≡◌, refl, sym, ap, ◌∙◌, Bool, false, Option, none, some, List, [], ◌∷◌, ◌++◌, arith,
}
use veil.Prelude.Int.{neg_part}
use veil.Prelude.Res.{ok}
use veil.Bytes.{Bytes}
use veil.Program.Runtime.{Pubkey, TokenAccount, Runtime}
use veil.Program.Runtime.Laws.{IsRuntime, balance}
use veil.Program.State.{Chain, Event, new_commitment, new_nullifier, is_some, update, emit}
use veil.Program.Tree.{insert}
use veil.Program.Tree.Effects.{insert-Appended, insert_frame}
use veil.Program.Initialize.Effects.{init_pool_inv}
use veil.Program.Shield.Effects.{shield-Deposited}
use veil.Program.Access.{shield_accounts-ShieldBound, load_accounts-Found, account_checks-Bound}
use veil.Program.Transact.{TransactAccounts, TransactArgs}
use veil.Program.Transact.Run.{Run, transact-Run}
use veil.Program.Transact.Effects.{insert_outputs_inv}
use veil.Program.Steps.{Step, initializes, shields, transacts, elsewhere, Reach, here, next}
use veil.Program.EventLog.Synced.{paid_trees}
use veil.Program.DoubleSpend.{transact_records}
use veil.Program.Vault.{shield_moves, transact_moves}
use veil.Program.Vault.Custody.{HasVault, vault_address, named_vault, Step-HasVault}
use veil.Program.Abstract.{
  View, Move, rests, deposits, spends, Moves, still, moved, mark, reported, view,
}

reported-append : (es fs : List Event) → reported (es ++ fs) ≡ reported es ++ reported fs
reported-append [] fs = refl
reported-append (new_commitment c i note ∷ es) fs = rw (reported-append es fs)
reported-append (new_nullifier n ∷ es) fs = reported-append es fs

nullifiers_unreported :
    (es : List Event) (m n : Bytes)
    → reported ((es ++ new_nullifier m ∷ []) ++ new_nullifier n ∷ []) ≡ reported es
nullifiers_unreported es m n =
    reported-append (es ++ new_nullifier m ∷ []) (new_nullifier n ∷ [])
    ∙ append-nil _
    ∙ reported-append es (new_nullifier m ∷ [])
    ∙ append-nil _

marked :
    {A : Type 0} (k0 k1 : Pubkey) (a b : A) (f g : Pubkey → Option A)
    → g ≡ update k1 b (update k0 a f)
    → ◌≡◌ {A = Pubkey → Bool} (λ key. is_some (g key)) (mark k1 (mark k0 (λ key. is_some (f key))))
marked k0 k1 a b f g e = fun_ext λ key. rw e (ground arith)

module _ (r : Runtime) where
  insert-reported :
      (s : Chain r) (account : Pubkey) (c note : Bytes) {t : Chain r}
      → insert s account c note ≡ ok t
      → reported t.events ≡ reported s.events ++ c ∷ []
  insert-reported s account c note e =
      let (index, u, a, same) = insert-Appended r s account c note e in
      ap (λ (x : Chain r). reported x.events) (same ∙ ap (emit _) a.result)
      ∙ reported-append s.events (new_commitment c index note ∷ [])

balance_found :
    (l : Pubkey → Option TokenAccount) (key : Pubkey) (a : TokenAccount)
    → l key ≡ some a
    → balance l key ≡ a.amount
balance_found l key a e = rw (e, balance)

none-free {ℓ} : {A : Type ℓ} (o : Option A) → o ≡ none → is_some o ≡ false
none-free o e = rw e refl

module _ (r : Runtime) (R : IsRuntime r) where
  transact-reported :
      (s : Chain r) (k : TransactAccounts) (x : TransactArgs) {t : Chain r}
      → Run r s k x t
      → reported t.events ≡ reported s.events ++ x.out_commitments.0 ∷ x.out_commitments.1 ∷ []
  transact-reported s k x {t} run =
      let (u, e0, e1) =
        insert_outputs_inv r run.paid k.tree x.out_commitments x.ext_data.encrypted_notes
          run.outputs in
      let first =
        insert-reported r run.paid k.tree x.out_commitments.0 x.ext_data.encrypted_notes.0 e0 in
      let second = insert-reported r u k.tree x.out_commitments.1 x.ext_data.encrypted_notes.1 e1 in
      ap (λ (c : Chain r). reported c.events) run.result
      ∙ nullifiers_unreported run.inserted.events x.nullifiers.0 x.nullifiers.1
      ∙ second
      ∙ ap (λ (es : List Bytes). es ++ x.out_commitments.1 ∷ []) first
      ∙ append_assoc (reported run.paid.events) (x.out_commitments.0 ∷ [])
          (x.out_commitments.1 ∷ [])
      ∙ ap (λ (es : List Event). reported es ++ x.out_commitments.0 ∷ x.out_commitments.1 ∷ [])
          (paid_trees r R s k x run).1

module _ (r : Runtime) (R : IsRuntime r) (mint : Pubkey) where
  abbrev the_view : Chain r → View
  the_view = view (vault_address r mint)

  Step-Move : {s t : Chain r} → HasVault r s mint → Step r s t → Move (the_view s) (the_view t)
  Step-Move {s} h (initializes k domain e) =
      let (_, _, created, _, _, _) = init_pool_inv r s k domain e in
      absurd (cc (sym created.pool_free ∙ ap s.pools created.pool_address ∙ h.pool_found))
  Step-Move {s} {t} h (shields k npk amount note other e) =
      let d = shield-Deposited r s k npk amount note e in
      let b = shield_accounts-ShieldBound r s k d.accounts in
      let (pool, vault) = named_vault r h k.pool k.tree k.vault k.mint b.pool_found b.bound in
      let (positive, more, _) = shield_moves r R s k npk amount note e (λ p. other (p ∙ pool)) in
      let (_, records, _) = insert_frame r _ k.tree d.commitment note d.result in
      deposits d.commitment amount positive (insert-reported r _ k.tree d.commitment note d.result)
        (ap (λ f key. is_some (f key)) records) (rw vault at more)
  Step-Move {s} {t} h (transacts k x e) =
      let run = transact-Run r s k x e in
      let found = load_accounts-Found r s k run.loaded in
      let (bound, _, _, _, _) = account_checks-Bound r run.second_init k run.accounts run.checked in
      let (_, vault) = named_vault r h k.pool k.tree k.vault k.mint found.pool_found bound in
      let (_, out, _, _) = transact_moves r R s k x e in
      let (_, _, free0, free1, apart, records) = transact_records r s k x e in
      spends k.nullifier_0_record k.nullifier_1_record x.out_commitments (neg_part x.ext_amount)
        (none-free _ free0) (none-free _ free1) apart (transact-reported r R s k x run)
        (marked _ _ _ _ s.nullifiers t.nullifiers records) (rw vault at out)
  Step-Move {s} {t} h (elsewhere f) =
      let (b, found, _, _, more) =
        f.kept (vault_address r mint) h.account h.account_found h.account_owner in
      rests (ap reported f.events) (ap (λ g key. is_some (g key)) f.nullifiers) (
        omega (
          arith,
          more,
          balance_found s.tokens _ _ h.account_found,
          balance_found t.tokens _ _ found,
        ))

  -- Any history of a chain that has the pool and its vault is one of the abstract ledger: deposits append a
  -- commitment and add to the vault, transactions spend two different records that are not yet spent, append
  -- two commitments and take from the vault, and nothing else changes but that the vault may grow.
  pub Reach-Moves :
      {s t : Chain r}
      → HasVault r s mint
      → Reach r s t
      → HasVault r t mint × Moves (view (vault_address r mint) s) (view (vault_address r mint) t)
  Reach-Moves h here = (h, still)
  Reach-Moves h (next past step) =
      let (h', before) = Reach-Moves h past in
      (Step-HasVault r R step h', moved before (Step-Move h' step))
