-- ===== src/Program/Transact/Run.antt =====
-- A transaction that succeeds, taken apart into the results of its stages.
use veil.Prelude.{◌≡◌, sym}
use veil.Prelude.Res.{ok, ok-injective, bind_inv, then_inv}
use veil.Program.Runtime.{Runtime}
use veil.Program.State.{Chain, new_nullifier, emit}
use veil.Program.Transact.{
  TransactArgs, TransactAccounts, Loaded, transact_accounts, load_accounts, init_nullifier,
  account_checks, transact_guards, check_proof, spend, pay, insert_outputs, handle, transact,
}

-- The stages of a successful call, with the chain between them.
pub record Run (r : Runtime) (s : Chain r) (k : TransactAccounts) (x : TransactArgs) (t : Chain r)
    : Type 0 where
  pub accounts : Loaded
  pub first_init : Chain r
  pub second_init : Chain r
  pub paid : Chain r
  pub inserted : Chain r
  pub loaded : load_accounts r s k ≡ ok accounts
  pub init_0 : init_nullifier r s k.pool k.nullifier_0_record x.nullifiers.0 ≡ ok first_init
  pub init_1 :
      init_nullifier r first_init k.pool k.nullifier_1_record x.nullifiers.1 ≡ ok second_init
  pub checked : account_checks r second_init k accounts ≡ ok tt
  pub guarded : transact_guards r k x ≡ ok tt
  pub proved : check_proof r second_init k accounts x ≡ ok tt
  pub payment :
      pay r (spend r second_init k x.nullifiers) k accounts x.ext_amount x.ext_data.recipient
      ≡ ok paid
  pub outputs :
      insert_outputs r paid k.tree x.out_commitments x.ext_data.encrypted_notes ≡ ok inserted
  pub result :
      t ≡ emit (new_nullifier x.nullifiers.1) (emit (new_nullifier x.nullifiers.0) inserted)

module _ (r : Runtime) (s : Chain r) (k : TransactAccounts) (x : TransactArgs) where
  -- The rest of the call, from validated accounts on.
  handle-Run :
      {t : Chain r} (a : Loaded) (s1 s2 : Chain r)
      → load_accounts r s k ≡ ok a
      → init_nullifier r s k.pool k.nullifier_0_record x.nullifiers.0 ≡ ok s1
      → init_nullifier r s1 k.pool k.nullifier_1_record x.nullifiers.1 ≡ ok s2
      → account_checks r s2 k a ≡ ok tt
      → handle r s2 k a x ≡ ok t
      → Run r s k x t
  unfolding handle
  handle-Run {t} a s1 s2 e1 e2 e3 e4 e = then_inv (transact_guards r k x) _ e λ e5 h5.
      then_inv (check_proof r s2 k a x) _ h5 λ e6 h6.
        bind_inv (pay r (spend r s2 k x.nullifiers) k a x.ext_amount x.ext_data.recipient) _ h6
          λ s3 e7 h7.
            bind_inv (insert_outputs r s3 k.tree x.out_commitments x.ext_data.encrypted_notes) _ h7
              λ s4 e8 h8. record {
                accounts = a;
                first_init = s1;
                second_init = s2;
                paid = s3;
                inserted = s4;
                loaded = e1;
                init_0 = e2;
                init_1 = e3;
                checked = e4;
                guarded = e5;
                proved = e6;
                payment = e7;
                outputs = e8;
                result = sym (ok-injective _ _ h8);
              }

  pub transact-Run : {t : Chain r} → transact r s k x ≡ ok t → Run r s k x t
  unfolding transact transact_accounts
  transact-Run {t} e = bind_inv (transact_accounts r s k x.nullifiers) _ e λ accounts e0 h0.
      bind_inv (load_accounts r s k) _ e0 λ a e1 h1.
        bind_inv (init_nullifier r s k.pool k.nullifier_0_record _) _ h1 λ s1 e2 h2.
          bind_inv (init_nullifier r s1 k.pool k.nullifier_1_record _) _ h2 λ s2 e3 h3.
            then_inv (account_checks r s2 k a) _ h3
              λ e4 h4. handle-Run a s1 s2 e1 e2 e3 e4 (rw (← ok-injective _ _ h4) at h0)
