-- ===== src/Program/Transact/Exactly.antt =====
-- Exactly when a transaction succeeds.
use veil.Prelude.{◌≡◌, ◌↔◌, refl, sym, ap, ◌∙◌, true, false, not, ◌++◌}
use veil.Prelude.Int.{ℤ}
use veil.Prelude.Res.{ok, require, bind_inv, then_inv, require-eq-ok}
use veil.Bytes.{Bytes, bytes_eq}
use veil.Program.Error.{pool_error, unknown_root, invalid_proof, constraint, account_in_use}
use veil.Program.Field.{public_amount_field}
use veil.Program.Runtime.{Pubkey, Runtime}
use veil.Program.Runtime.Laws.{IsRuntime}
use veil.Program.State.{Chain, in_use}
use veil.Program.State.Laws.{not-true}
use veil.Program.Tree as Tree
use veil.Program.Tree.{tree_height}
use veil.Program.Verifier.{verify, encode}
use veil.Program.DoubleSpend.{transact_records}
use veil.Program.Access.{load_accounts-Found, account_checks-Bound}
use veil.Program.Transact.{
  TransactAccounts, TransactArgs, Loaded, ext_data_hash, init_nullifier, check_proof, spend,
  transact,
}
use veil.Program.Transact.Run.{Run, transact-Run}
use veil.Program.Transact.Guards.{IsAdmissible, transact_guards_iff}
use veil.Program.Transact.Effects.{
  record_address, Payment, unpaid, paid, pay-Payment, Payment-frame, init_nullifier_inv,
  insert_outputs_inv,
}
use veil.Program.Transact.Accounts.{
  HasAccounts, reserved, in_use-update, transact_accounts-HasAccounts,
}
use veil.Program.Tree.Room.{HasRoom, insert_outputs-room}
use veil.Program.Transact.Completion.{transact_completes}

-- The verifier accepts the proof for a known root and the inputs that the arguments give.
pub record IsProven (r : Runtime) (s : Chain r) (k : TransactAccounts) (a : Loaded)
    (x : TransactArgs) : Type 0 where
  pub hash : Bytes
  pub known : Tree.contains_root s k.tree x.root ≡ ok true
  pub hashed :
      ext_data_hash r x.ext_data a.pool.domain k.pool a.pool.asset.mint a.pool.verifier x.ext_amount
      ≡ ok hash
  pub verified :
      r.invoke k.verifier_program (
        x.proof
        ++ encode (record {
          root = x.root;
          nullifiers = x.nullifiers;
          commitments = x.out_commitments;
          amount = public_amount_field r.crypto x.ext_amount;
          external_data_hash = hash;
        }))
      ≡ true

-- All that a transaction needs of the chain.
pub record IsExecutable (r : Runtime) (R : IsRuntime r) (s : Chain r) (k : TransactAccounts)
    (x : TransactArgs) : Type 0 where
  pub loaded : Loaded
  pub accounts : HasAccounts r s k x.nullifiers loaded
  pub admissible : IsAdmissible r k x
  pub proven : IsProven r s k loaded x
  pub after : Chain r
  pub payment : Payment r s k loaded x.ext_data.recipient after x.ext_amount
  pub room : HasRoom r R 2 (s.trees k.tree)

module _ (r : Runtime) where
  -- Only the tokens matter to a payment.
  Payment-elsewhere :
      (s u : Chain r) (k : TransactAccounts) (a : Loaded) (recipient : Pubkey) (t : Chain r)
      {amount : ℤ}
      → u.tokens ≡ s.tokens
      → Payment r s k a recipient t amount
      → (t' : Chain r) × Payment r u k a recipient t' amount
  Payment-elsewhere s u k a recipient t same (unpaid n e) = (u, unpaid n refl)
  Payment-elsewhere s u k a recipient t same (paid n l covered owner moved e) =
      (record u { tokens = l }, paid n l covered owner (rw same moved) refl)

  check_proof-IsProven :
      (s : Chain r) (k : TransactAccounts) (a : Loaded) (x : TransactArgs)
      → check_proof r s k a x ≡ ok tt
      → IsProven r s k a x
  unfolding check_proof verify
  check_proof-IsProven s k a x e = bind_inv (Tree.contains_root s k.tree x.root) _ e λ known e0 h0.
      then_inv (require known (pool_error unknown_root)) _ h0 λ e1 h1.
        bind_inv
          (ext_data_hash r x.ext_data a.pool.domain k.pool a.pool.asset.mint a.pool.verifier
            x.ext_amount)
          _ h1
          λ hash e2 h2. record {
            hash = hash;
            known = e0 ∙ ap ok (require-eq-ok known (pool_error unknown_root) e1);
            hashed = e2;
            verified = require-eq-ok _ (pool_error invalid_proof) h2;
          }

  IsProven-check_proof :
      (s : Chain r) (k : TransactAccounts) (a : Loaded) (x : TransactArgs)
      → IsProven r s k a x
      → check_proof r s k a x ≡ ok tt
  unfolding check_proof verify
  IsProven-check_proof s k a x h = rw (h.known, h.hashed, h.verified) refl

  free_of :
      (s : Chain r) (pool key : Pubkey) (nullifier : Bytes) {t : Chain r}
      → init_nullifier r s pool key nullifier ≡ ok t
      → in_use s key ≡ false
  unfolding init_nullifier
  free_of s pool key nullifier e =
      then_inv (require (bytes_eq key (record_address r pool nullifier)) constraint) _ e λ e0 h0.
        then_inv (require (not (in_use s key)) account_in_use) _ h0
          λ e1 h1. not-true _ (require-eq-ok _ account_in_use e1)

module _ (r : Runtime) (R : IsRuntime r) where
  -- What a transaction that succeeds has found.
  transact-HasAccounts :
      (s : Chain r) (k : TransactAccounts) (x : TransactArgs) {t : Chain r}
      → transact r s k x ≡ ok t
      → (run : Run r s k x t) → HasAccounts r s k x.nullifiers run.accounts
  transact-HasAccounts s k x e run =
      let (record_0, record_1, _, _, apart, _) = transact_records r s k x e in
      let found = load_accounts-Found r s k run.loaded in
      let (bound, verifier, ata_mint, executable, writable) =
        account_checks-Bound r run.second_init k run.accounts run.checked in
      let (_, _, same0) =
        init_nullifier_inv r s k.pool k.nullifier_0_record x.nullifiers.0 run.init_0 in
      let (_, _, same1) =
        init_nullifier_inv r run.first_init k.pool k.nullifier_1_record x.nullifiers.1 run.init_1 in
      let free_1 = free_of r run.first_init k.pool k.nullifier_1_record x.nullifiers.1 run.init_1 in
      record {
        pool_found = found.pool_found;
        tree_found = found.tree_found;
        vault_found = found.vault_found;
        mint_found = found.mint_found;
        ata_found = found.ata_found;
        signed = found.signed;
        token = found.token;
        system = found.system;
        writable = writable;
        derived = bound.derived;
        tree_address = bound.tree_address;
        vault_mint = bound.vault_mint;
        vault_owner = bound.vault_owner;
        vault_address = bound.vault_address;
        mint_address = bound.mint_address;
        ata_mint = ata_mint;
        verifier = verifier;
        executable =
            ap (λ (c : Chain r). c.programs k.verifier_program) (sym same0)
            ∙ ap (λ (c : Chain r). c.programs k.verifier_program) (sym same1)
            ∙ executable;
        record_0 = record_0;
        record_1 = record_1;
        free_0 = free_of r s k.pool k.nullifier_0_record x.nullifiers.0 run.init_0;
        free_1 =
            sym (in_use-update r s k.nullifier_0_record k.nullifier_1_record apart)
            ∙ (rw same0 at free_1);
        apart = apart;
      }

  -- The records that are created change neither the trees nor the tokens.
  created_frame :
      (s : Chain r) (k : TransactAccounts) (x : TransactArgs) {t : Chain r}
      → (run : Run r s k x t)
      → (run.second_init.trees ≡ s.trees) × (run.second_init.tokens ≡ s.tokens)
  created_frame s k x run =
      let (_, _, same0) =
        init_nullifier_inv r s k.pool k.nullifier_0_record x.nullifiers.0 run.init_0 in
      let (_, _, same1) =
        init_nullifier_inv r run.first_init k.pool k.nullifier_1_record x.nullifiers.1 run.init_1 in
      (
        ap (λ (c : Chain r). c.trees) same1 ∙ ap (λ (c : Chain r). c.trees) same0,
        ap (λ (c : Chain r). c.tokens) same1 ∙ ap (λ (c : Chain r). c.tokens) same0,
      )

  -- A root is looked up in the trees alone.
  contains_root-trees :
      (s u : Chain r) (account : Pubkey) (root : Bytes)
      → u.trees ≡ s.trees
      → Tree.contains_root u account root ≡ Tree.contains_root s account root
  unfolding Tree.contains_root
  contains_root-trees s u account root same = rw same refl

  transact-IsExecutable :
      (s : Chain r) (k : TransactAccounts) (x : TransactArgs) {t : Chain r}
      → transact r s k x ≡ ok t
      → IsExecutable r R s k x
  unfolding spend
  transact-IsExecutable s k x e =
      let run = transact-Run r s k x e in
      let (trees, tokens) = created_frame s k x run in
      let proven = check_proof-IsProven r run.second_init k run.accounts x run.proved in
      let payment = pay-Payment r _ k run.accounts x.ext_amount x.ext_data.recipient run.payment in
      let (after, paid_here) =
        Payment-elsewhere r (spend r run.second_init k x.nullifiers) s k run.accounts
          x.ext_data.recipient run.paid (sym tokens) payment in
      let (u, e0, e1) =
        insert_outputs_inv r run.paid k.tree x.out_commitments x.ext_data.encrypted_notes
          run.outputs in
      let room = insert_outputs-room r R run.paid u run.inserted k.tree _ _ _ _ e0 e1 in
      let paid_trees : run.paid.trees ≡ s.trees = (Payment-frame r payment).1 ∙ trees in
      record {
        loaded = run.accounts;
        accounts = transact-HasAccounts s k x e run;
        admissible = (transact_guards_iff r k x).0 run.guarded;
        proven = record {
          hash = proven.hash;
          known = sym (contains_root-trees s run.second_init k.tree x.root trees) ∙ proven.known;
          hashed = proven.hashed;
          verified = proven.verified;
        };
        after = after;
        payment = paid_here;
        room = rw paid_trees at room;
      }

  IsExecutable-transact :
      (s : Chain r) (k : TransactAccounts) (x : TransactArgs)
      → IsExecutable r R s k x
      → (t : Chain r) × (transact r s k x ≡ ok t)
  unfolding spend
  IsExecutable-transact s k x h =
      let proven : IsProven r (reserved r s k) k h.loaded x = record {
        hash = h.proven.hash;
        known = contains_root-trees s (reserved r s k) k.tree x.root refl ∙ h.proven.known;
        hashed = h.proven.hashed;
        verified = h.proven.verified;
      } in
      let (after, payment) =
        Payment-elsewhere r s (spend r (reserved r s k) k x.nullifiers) k h.loaded
          x.ext_data.recipient h.after refl h.payment in
      transact_completes r R s k x h.loaded
        (transact_accounts-HasAccounts r s k x.nullifiers h.loaded h.accounts)
        ((transact_guards_iff r k x).1 h.admissible)
        (IsProven-check_proof r (reserved r s k) k h.loaded x proven) payment h.room

  -- A transaction succeeds exactly when the accounts it names are there, are the pool's, the payer has
  -- signed, those that are written are passed as writable and the token and system programs are the right
  -- ones, the two records are free and apart, its arguments are admissible, its root is known and the
  -- verifier accepts the proof with the public inputs that they give, a withdrawal is covered, goes to the
  -- recipient's account and can be transferred, and the tree has room for two leaves.
  pub transact_iff :
      (s : Chain r) (k : TransactAccounts) (x : TransactArgs)
      → ((t : Chain r) × (transact r s k x ≡ ok t)) ↔ IsExecutable r R s k x
  transact_iff s k x = (λ (t, e). transact-IsExecutable s k x e, λ h. IsExecutable-transact s k x h)
