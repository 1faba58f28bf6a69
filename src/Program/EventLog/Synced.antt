-- ===== src/Program/EventLog/Synced.antt =====
-- The agreement of log and tree in every reachable state.
use mathlib.Core.List.{append-nil}
use veil.Prelude.{
  ℕ, ◌≡◌, ◌≢◌, ◌⊎◌, inl, inr, refl, sym, ap, ◌∙◌, Option, some, none, List, [], ◌∷◌, ◌++◌, length,
  arith,
}
use veil.Bytes.{Bytes}
use veil.Program.Runtime.{Pubkey, TokenAccount, Runtime}
use veil.Program.Runtime.Laws.{IsRuntime}
use veil.Program.State.{Chain, Event, Pool, new_nullifier, program_id, update}
use veil.Program.State.Laws.{update_self}
use veil.Program.Tree.Effects.{insert_frame, initialize_inv}
use veil.Program.Initialize.{tree_seeds}
use veil.Program.Initialize.Effects.{init_pool_inv}
use veil.Program.Shield.Effects.{shield-Deposited}
use veil.Program.Access.{
  shield_accounts-ShieldBound, load_accounts-Found, account_checks-Bound, Bound,
}
use veil.Program.Transact.{TransactAccounts, TransactArgs, spend}
use veil.Program.Transact.Run.{Run, transact-Run}
use veil.Program.Transact.Effects.{
  init_nullifier_inv, pay-Payment, Payment-frame, insert_outputs_inv,
}
use veil.Program.Steps.{
  pool_address, Step, initializes, shields, transacts, elsewhere, Reach, here, next,
}
use veil.Program.Vault.{transact_pools}
use veil.Program.EventLog.{committed, committed-append, number_from, Agrees, insert-Agrees}

abbrev pub tree_address : Runtime → Pubkey
tree_address r = (r.find_program_address (tree_seeds (pool_address r)) program_id).0

-- The only pool is at the pool's address, and its tree agrees with the log.
pub record Synced (r : Runtime) (R : IsRuntime r) (s : Chain r) : Type 0 where
  pub only : (key : Pubkey) → s.pools key ≢ none → key ≡ pool_address r
  pub agrees : Agrees r R (s.trees (tree_address r)) (committed s.events)

update_only {ℓ} :
    {A : Type ℓ} (k : Pubkey) (a b : A) (f : Pubkey → Option A) (key : Pubkey)
    → update k b (update k a f) key ≢ none
    → (key ≡ k) ⊎ (f key ≢ none)
update_only k a b f key h = ground arith

module _ (r : Runtime) (R : IsRuntime r) where
  -- The tree that an instruction names is the pool's.
  named_tree :
      {s : Chain r} (h : Synced r R s) (k_pool k_tree k_vault k_mint : Pubkey) {p : Pool}
      {a : TokenAccount}
      → s.pools k_pool ≡ some p
      → Bound r k_pool k_tree k_vault k_mint p a
      → k_tree ≡ tree_address r
  named_tree h k_pool k_tree k_vault k_mint found b =
      b.tree_address
      ∙ ap (λ (key : Pubkey). (r.find_program_address (tree_seeds key) program_id).0)
          (h.only k_pool (λ none'. cc))

  nullifier_events :
      (es : List Event) (m n : Bytes)
      → committed ((es ++ new_nullifier m ∷ []) ++ new_nullifier n ∷ []) ≡ committed es
  nullifier_events es m n =
      committed-append (es ++ new_nullifier m ∷ []) (new_nullifier n ∷ [])
      ∙ append-nil _
      ∙ committed-append es (new_nullifier m ∷ [])
      ∙ append-nil _

  -- Up to its insertions a transaction leaves the tree and the log alone.
  pub paid_trees :
      (s : Chain r) (k : TransactAccounts) (x : TransactArgs) {t : Chain r} (run : Run r s k x t)
      → (run.paid.trees ≡ s.trees) × (run.paid.events ≡ s.events)
  unfolding spend
  paid_trees s k x run =
      let (_, _, same0) =
        init_nullifier_inv r s k.pool k.nullifier_0_record x.nullifiers.0 run.init_0 in
      let (_, _, same1) =
        init_nullifier_inv r run.first_init k.pool k.nullifier_1_record x.nullifiers.1 run.init_1 in
      let frame =
        Payment-frame r
          (pay-Payment r _ k run.accounts x.ext_amount x.ext_data.recipient run.payment) in
      (
        frame.1 ∙ ap (λ (c : Chain r). c.trees) same1 ∙ ap (λ (c : Chain r). c.trees) same0,
        frame.3 ∙ ap (λ (c : Chain r). c.events) same1 ∙ ap (λ (c : Chain r). c.events) same0,
      )

  transact-Agrees :
      (s : Chain r) (k : TransactAccounts) (x : TransactArgs) {t : Chain r} (run : Run r s k x t)
      → Agrees r R (s.trees k.tree) (committed s.events)
      → Agrees r R (t.trees k.tree) (committed t.events)
  transact-Agrees s k x {t} run h =
      let (u, e0, e1) =
        insert_outputs_inv r run.paid k.tree x.out_commitments x.ext_data.encrypted_notes
          run.outputs in
      let (trees, events) = paid_trees s k x run in
      let start : Agrees r R (run.paid.trees k.tree) (committed run.paid.events) =
        rw (trees, events) h in
      let done = insert-Agrees r R u k.tree x.out_commitments.1 x.ext_data.encrypted_notes.1 e1 (
        insert-Agrees r R run.paid k.tree x.out_commitments.0 x.ext_data.encrypted_notes.0 e0
          start) in
      rw
        (
          ap (λ (c : Chain r). c.trees) run.result,
          ap (λ (c : Chain r). committed c.events) run.result,
          nullifier_events run.inserted.events x.nullifiers.0 x.nullifiers.1,
        )
        done

  Step-Synced : {s t : Chain r} → Step r s t → Synced r R s → Synced r R t
  Step-Synced {s} {t} (initializes k domain e) h =
      let (u, id, created, _, _, e1) = init_pool_inv r s k domain e in
      let (a, v, w, opened, started, same) = initialize_inv r _ k.tree e1 in
      let (empty, high) = R.is_tree.initial _ _ _ _ a opened started in
      let at_tree : k.tree ≡ tree_address r =
        created.tree_address
        ∙ ap (λ (key : Pubkey). (r.find_program_address (tree_seeds key) program_id).0)
            created.pool_address in
      let unreported : committed s.events ≡ [] = rw (rw at_tree at created.tree_free) at h.agrees in
      let events : committed t.events ≡ [] =
        ap (λ (c : Chain r). committed c.events) same
        ∙ ap (λ (c : Chain r). committed c.events) created.result
        ∙ unreported in
      let trees : t.trees (tree_address r) ≡ some (r.tree.bytes w) =
        ap (λ (c : Chain r). c.trees (tree_address r)) same
        ∙ rw at_tree (update_self (tree_address r) (r.tree.bytes w) u.trees) in
      record {
        only = λ key there.
            elim (update_only k.pool _ _ s.pools key (
              rw (ap (λ (c : Chain r). c.pools) same, ap (λ (c : Chain r). c.pools) created.result)
                at there)) [ inl p ↦ p ∙ created.pool_address | inr p ↦ h.only key p ];
        agrees =
            rw (trees, events)
              (
                w,
                ap (λ (n : ℕ). r.tree.from_bytes_zero_copy_mut n (r.tree.bytes w)) (sym high)
                    ∙ R.is_tree.opens w,
                rw (empty, number_from),
                omega (arith, ap length empty),
              );
      }
  Step-Synced {s} {t} (shields k npk amount note other e) h =
      let d = shield-Deposited r s k npk amount note e in
      let b = shield_accounts-ShieldBound r s k d.accounts in
      let at_tree = named_tree h k.pool k.tree k.vault k.mint b.pool_found b.bound in
      let pools = (insert_frame r _ k.tree d.commitment note d.result).0 in
      record {
        only = λ key there. h.only key (rw pools at there);
        agrees = rw at_tree at (
            insert-Agrees r R (record s { tokens = d.tokens }) k.tree d.commitment note d.result
              (rw at_tree h.agrees));
      }
  Step-Synced {s} {t} (transacts k x e) h =
      let run = transact-Run r s k x e in
      let found = load_accounts-Found r s k run.loaded in
      let (bound, _, _, _, _) = account_checks-Bound r run.second_init k run.accounts run.checked in
      let at_tree = named_tree h k.pool k.tree k.vault k.mint found.pool_found bound in
      record {
        only = λ key there. h.only key (rw (transact_pools r s k x run) at there);
        agrees = rw at_tree at (transact-Agrees s k x run (rw at_tree h.agrees));
      }
  Step-Synced (elsewhere f) h = record {
    only = λ key there. h.only key (rw f.pools at there);
    agrees = rw (f.trees, f.events) h.agrees;
  }

  Reach-Synced : {s t : Chain r} → Synced r R s → Reach r s t → Synced r R t
  Reach-Synced h here = h
  Reach-Synced h (next past step) = Step-Synced step (Reach-Synced h past)

-- A chain on which the program has not run yet.
pub record IsFresh (r : Runtime) (s : Chain r) : Type 0 where
  pub no_pools : (key : Pubkey) → s.pools key ≡ none
  pub no_trees : (key : Pubkey) → s.trees key ≡ none
  pub no_events : s.events ≡ []

module _ (r : Runtime) (R : IsRuntime r) where
  fresh-Synced : (s : Chain r) → IsFresh r s → Synced r R s
  fresh-Synced s h = record {
    only = λ key there. absurd (there (h.no_pools key));
    agrees = rw (h.no_trees (tree_address r), h.no_events) refl;
  }

  -- From a fresh chain on, in every state that is reached, the commitments in the log are the leaves
  -- of the pool's tree in order, numbered from zero without a gap, and at most 2^20.
  pub log_matches_tree :
      (s t : Chain r)
      → IsFresh r s
      → Reach r s t
      → Agrees r R (t.trees (tree_address r)) (committed t.events)
  log_matches_tree s t fresh past = (Reach-Synced r R (fresh-Synced s fresh) past).agrees
