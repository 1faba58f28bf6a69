-- ===== src/Program/Transact/Effects.antt =====
-- What a successful transaction changes.
use veil.Prelude.{
  ℕ, suc, ◌≡◌, refl, sym, some, none, true, not, [], ◌∷◌, ◌++◌, arith, replicate, leb, ◌≤◌,
}
use veil.Prelude.Int.{ℤ, pos, negsuc}
use veil.Prelude.Res.{
  ok, ok-injective, bind_inv, then_inv, ok_or, ok_or-eq-ok, require, require-eq-ok,
}
use veil.Bytes.{Bytes, bytes_eq, bytes_eq_iff}
use veil.Program.Error.{
  pool_error, insufficient_vault, recipient_mismatch, constraint, account_in_use, token_failed,
}
use veil.Program.Runtime.{Pubkey, Ledger, Runtime}
use veil.Program.State.{Chain, program_id, update, in_use}
use veil.Program.State.Laws.{not-true, in_use_free}
use veil.Program.Tree as Tree
use veil.Program.Initialize.{pool_seeds}
use veil.Program.Transact.{
  TransactAccounts, Loaded, nullifier_seeds, init_nullifier, pay, insert_outputs,
}

-- The address of the record of a nullifier.
abbrev pub record_address : Runtime → Pubkey → Bytes → Pubkey
record_address r pool nullifier =
    (r.find_program_address (nullifier_seeds pool nullifier) program_id).0

module _ (r : Runtime) where
  -- A record is created at the nullifier's address, where none was.
  pub init_nullifier_inv :
      (s : Chain r) (pool key : Pubkey) (nullifier : Bytes) {t : Chain r}
      → init_nullifier r s pool key nullifier ≡ ok t
      → (key ≡ record_address r pool nullifier)
        × (s.nullifiers key ≡ none)
        × (t ≡ record s {
          nullifiers = update key (record { nullifier = replicate 32 0 }) s.nullifiers;
        })
  unfolding init_nullifier
  init_nullifier_inv s pool key nullifier e =
      then_inv (require (bytes_eq key (record_address r pool nullifier)) constraint) _ e λ e0 h0.
        then_inv (require (not (in_use s key)) account_in_use) _ h0 λ e1 h1. (
          (bytes_eq_iff _ _).0 (require-eq-ok _ _ e0),
          (in_use_free r s key (not-true _ (require-eq-ok _ _ e1))).2,
          sym (ok-injective _ _ h1),
        )

  -- A payment is made when the amount is negative, out of a vault that covers it and to an account
  -- of the recipient; otherwise nothing happens.
  pub data Payment (s : Chain r) (k : TransactAccounts) (a : Loaded) (recipient : Pubkey)
      (t : Chain r) : ℤ → Type 0 where
    unpaid : (n : ℕ) → t ≡ s → Payment s k a recipient t (pos n)
    paid :
        (n : ℕ) (l : Ledger)
        → suc n ≤ a.vault.amount
        → a.recipient_ata.owner ≡ recipient
        → r.transfer_checked s.tokens
            (record {
              source = k.vault;
              mint = k.mint;
              destination = k.recipient_ata;
              authority = k.pool;
            })
            (pool_seeds ++ (a.pool.bump ∷ []) ∷ [])
            (suc n)
            a.mint.decimals
          ≡ some l
        → t ≡ record s { tokens = l }
        → Payment s k a recipient t (negsuc n)

  leb_sound : (m n : ℕ) → leb m n ≡ true → m ≤ n
  leb_sound m n h = ground arith

  pub pay-Payment :
      (s : Chain r) (k : TransactAccounts) (a : Loaded) (amount : ℤ) (recipient : Pubkey)
      {t : Chain r}
      → pay r s k a amount recipient ≡ ok t
      → Payment s k a recipient t amount
  unfolding pay
  pay-Payment s k a (pos n) recipient e = unpaid n (sym (ok-injective _ _ e))
  pay-Payment s k a (negsuc n) recipient e =
      then_inv (require (leb (suc n) a.vault.amount) (pool_error insufficient_vault)) _ e λ e0 h0.
        then_inv
          (require (bytes_eq a.recipient_ata.owner recipient) (pool_error recipient_mismatch)) _ h0
          λ e1 h1.
            bind_inv
              (ok_or
                (r.transfer_checked s.tokens
                  (record {
                    source = k.vault;
                    mint = k.mint;
                    destination = k.recipient_ata;
                    authority = k.pool;
                  })
                  (pool_seeds ++ (a.pool.bump ∷ []) ∷ []) (suc n) a.mint.decimals)
                token_failed)
              _ h1
              λ l e2 h2.
                paid n l (leb_sound _ _ (require-eq-ok _ _ e0))
                  ((bytes_eq_iff _ _).0 (require-eq-ok _ _ e1)) (ok_or-eq-ok _ _ e2)
                  (sym (ok-injective _ _ h2))

  -- The payment leaves all but the token accounts alone.
  pub Payment-frame :
      {s : Chain r} {k : TransactAccounts} {a : Loaded} {recipient : Pubkey} {t : Chain r}
      {amount : ℤ}
      → Payment s k a recipient t amount
      → (t.pools ≡ s.pools)
        × (t.trees ≡ s.trees)
        × (t.nullifiers ≡ s.nullifiers)
        × (t.events ≡ s.events)
  Payment-frame (unpaid n e) = rw e (refl, refl, refl, refl)
  Payment-frame (paid n l h o m e) = rw e (refl, refl, refl, refl)

  pub insert_outputs_inv :
      (s : Chain r) (tree : Pubkey) (commitments notes : Bytes × Bytes) {t : Chain r}
      → insert_outputs r s tree commitments notes ≡ ok t
      → (u : Chain r) × (Tree.insert s tree commitments.0 notes.0 ≡ ok u)
        × (Tree.insert u tree commitments.1 notes.1 ≡ ok t)
  unfolding insert_outputs
  insert_outputs_inv s tree commitments notes e =
      bind_inv (Tree.insert s tree commitments.0 notes.0) _ e λ u e0 h0. (u, e0, h0)
