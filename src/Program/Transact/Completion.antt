-- ===== src/Program/Transact/Completion.antt =====
-- When a transaction succeeds.
use veil.Prelude.{suc, ◌≡◌, refl, sym, ap, ◌∙◌, true, leb, leb_iff}
use veil.Prelude.Int.{ℤ}
use veil.Prelude.Res.{ok, bind_inv, then_inv, bind_ok, ok-injective}
use veil.Bytes.{Bytes, bytes_eq_iff}
use veil.Crypto.{IsScalar}
use veil.Program.Field.Canonical.{is_canonical_field-IsScalar}
use veil.Program.Runtime.{Pubkey, Runtime}
use veil.Program.Runtime.Laws.{IsRuntime}
use veil.Program.State.{Chain, new_nullifier, emit}
use veil.Program.Tree.{insert}
use veil.Program.Transact.{
  TransactAccounts, TransactArgs, Loaded, load_accounts, init_nullifier, account_checks,
  transact_accounts, transact_guards, check_proof, spend, pay, insert_outputs, handle, transact,
}
use veil.Program.Tree.Room.{HasRoom, insert-HasRoom}
use veil.Program.Transact.Guards.{transact_guards_iff}
use veil.Program.Transact.Effects.{Payment, unpaid, paid, Payment-frame, init_nullifier_inv}

module _ (r : Runtime) where
  pay-Payment-complete :
      {s : Chain r} {k : TransactAccounts} {a : Loaded} {recipient : Pubkey} {t : Chain r}
      {amount : ℤ}
      → Payment r s k a recipient t amount
      → pay r s k a amount recipient ≡ ok t
  unfolding pay
  pay-Payment-complete (unpaid n e) = ap ok (sym e)
  pay-Payment-complete {a = a} (paid n l covered owner moved e) =
      let enough : leb (suc n) a.vault.amount ≡ true = (leb_iff _ _).1 covered in
      let right = (bytes_eq_iff a.recipient_ata.owner _).1 owner in
      rw (enough, right, moved, e) refl

  -- Account validation leaves the trees alone.
  transact_accounts_trees :
      (s : Chain r) (k : TransactAccounts) (nullifiers : Bytes × Bytes) {a : Loaded} {t : Chain r}
      → transact_accounts r s k nullifiers ≡ ok (a, t)
      → t.trees ≡ s.trees
  unfolding transact_accounts
  transact_accounts_trees s k nullifiers e = bind_inv (load_accounts r s k) _ e λ a e0 h0.
      bind_inv (init_nullifier r s k.pool k.nullifier_0_record nullifiers.0) _ h0 λ s1 e1 h1.
        bind_inv (init_nullifier r s1 k.pool k.nullifier_1_record nullifiers.1) _ h1 λ s2 e2 h2.
          then_inv (account_checks r s2 k a) _ h2 λ e3 h3.
            let (_, _, same1) =
              init_nullifier_inv r s k.pool k.nullifier_0_record nullifiers.0 e1 in
            let (_, _, same2) =
              init_nullifier_inv r s1 k.pool k.nullifier_1_record nullifiers.1 e2 in
            ap (λ (x : Loaded × Chain r). x.1.trees) (sym (ok-injective _ _ h3))
            ∙ ap (λ (c : Chain r). c.trees) same2
            ∙ ap (λ (c : Chain r). c.trees) same1

module _ (r : Runtime) (R : IsRuntime r) where
  insert_outputs-HasRoom :
      (s : Chain r) (tree : Pubkey) (commitments notes : Bytes × Bytes)
      → IsScalar commitments.0
      → IsScalar commitments.1
      → HasRoom r R 2 (s.trees tree)
      → (t : Chain r) × (insert_outputs r s tree commitments notes ≡ ok t)
  unfolding insert_outputs
  insert_outputs-HasRoom s tree commitments notes c0 c1 h =
      let (u, first, left) = insert-HasRoom r R s tree commitments.0 notes.0 1 c0 h in
      let (t, second, _) = insert-HasRoom r R u tree commitments.1 notes.1 0 c1 left in
      (
        t,
        bind_ok (insert s tree commitments.0 notes.0) (λ s1. insert s1 tree commitments.1 notes.1)
            first second,
      )

  -- A transaction succeeds if its accounts are valid and its records free, its arguments pass the guards, the
  -- proof is accepted for a known root, the payment can be made, and the tree has room for two leaves.
  pub transact_completes :
      (s : Chain r) (k : TransactAccounts) (x : TransactArgs) (a : Loaded) {s' paid' : Chain r}
      → transact_accounts r s k x.nullifiers ≡ ok (a, s')
      → transact_guards r k x ≡ ok tt
      → check_proof r s' k a x ≡ ok tt
      → Payment r (spend r s' k x.nullifiers) k a x.ext_data.recipient paid' x.ext_amount
      → HasRoom r R 2 (s.trees k.tree)
      → (t : Chain r) × (transact r s k x ≡ ok t)
  unfolding transact handle spend
  transact_completes s k x a {s'} {paid'} validated guarded proved payment room =
      let v = (transact_guards_iff r k x).0 guarded in
      let trees : paid'.trees ≡ s.trees =
        (Payment-frame r payment).1 ∙ transact_accounts_trees r s k x.nullifiers validated in
      let room' : HasRoom r R 2 (paid'.trees k.tree) = rw trees room in
      let (inserted, outputs) =
        insert_outputs-HasRoom paid' k.tree x.out_commitments x.ext_data.encrypted_notes
          (is_canonical_field-IsScalar r.crypto R.is_crypto x.out_commitments.0
            v.commitment_0_canonical)
          (is_canonical_field-IsScalar r.crypto R.is_crypto x.out_commitments.1
            v.commitment_1_canonical)
          room' in
      (
        emit (new_nullifier x.nullifiers.1) (emit (new_nullifier x.nullifiers.0) inserted),
        rw (validated, guarded, proved, pay-Payment-complete r payment, outputs) refl,
      )
