-- ===== src/Program/Tree/Effects.antt =====
-- What the operations on the tree account change.
use veil.Prelude.{ℕ, ◌^◌, ◌<◌, ◌≡◌, sym, ap, some, true, arith, ltb, refl}
use veil.Prelude.Res.{
  ok, ok-injective, bind_inv, then_inv, ok_or, ok_or-eq-ok, require, require-eq-ok,
}
use veil.Bytes.{Bytes}
use veil.Program.Error.{pool_error, tree_error}
use veil.Program.Runtime.{Pubkey, Runtime}
use veil.Program.State.{Chain, new_commitment, update, load, emit}
use veil.Program.Tree.{
  tree_height, initialize_with_height, initialize, append_with_height, append, insert, canopy,
  changelog_size, roots_size,
}

-- What a successful append read, and the chain that it left.
pub record Appended (r : Runtime) (height : ℕ) (s : Chain r) (account : Pubkey) (leaf : Bytes)
    (index : ℕ) (t : Chain r) : Type 0 where
  pub stored : r.tree.Account
  pub before : r.tree.Tree
  pub after : r.tree.Tree
  pub found : s.trees account ≡ some stored
  pub opened : r.tree.from_bytes_zero_copy_mut height stored ≡ some before
  pub index_eq : index ≡ r.tree.next_index before
  pub appended : r.tree.append before leaf ≡ some after
  pub fits : index < 2 ^ 64
  pub result : t ≡ record s { trees = update account (r.tree.bytes after) s.trees }

module _ (r : Runtime) where
  ltb_sound : (a b : ℕ) → ltb a b ≡ true → a < b
  ltb_sound a b h = ground arith

  append_with_height-Appended :
      (height : ℕ) (s : Chain r) (account : Pubkey) (leaf : Bytes) {index : ℕ} {t : Chain r}
      → append_with_height height s account leaf ≡ ok (index, t)
      → Appended r height s account leaf index t
  unfolding append_with_height
  append_with_height-Appended height s account leaf {index} {t} e =
      bind_inv (load (s.trees account)) _ e λ stored e0 h0.
        bind_inv (ok_or (r.tree.from_bytes_zero_copy_mut height stored) (pool_error tree_error)) _
          h0
          λ v e1 h1. bind_inv (ok_or (r.tree.append v leaf) (pool_error tree_error)) _ h1 λ w e2 h2.
            then_inv (require (ltb (r.tree.next_index v) (2 ^ 64)) (pool_error tree_error)) _ h2
              λ e3 h3. record {
                stored = stored;
                before = v;
                after = w;
                found = ok_or-eq-ok _ _ e0;
                opened = ok_or-eq-ok _ _ e1;
                index_eq = sym (ap (λ (p : ℕ × Chain r). p.0) (ok-injective _ _ h3));
                appended = ok_or-eq-ok _ _ e2;
                fits =
                    rw (← ap (λ (p : ℕ × Chain r). p.0) (ok-injective _ _ h3))
                      (ltb_sound _ _ (require-eq-ok _ _ e3));
                result = sym (ap (λ (p : ℕ × Chain r). p.1) (ok-injective _ _ h3));
              }

  -- An insertion is an append with the event that reports it.
  pub insert-Appended :
      (s : Chain r) (account : Pubkey) (commitment note : Bytes) {t : Chain r}
      → insert s account commitment note ≡ ok t
      → (index : ℕ) × (u : Chain r) × Appended r tree_height s account commitment index u
        × (t ≡ emit (new_commitment commitment index note) u)
  unfolding insert append
  insert-Appended s account commitment note e =
      bind_inv (append s account commitment) _ e λ p e0 h0. (
        p.0,
        p.1,
        append_with_height-Appended tree_height s account commitment e0,
        sym (ok-injective _ _ h0),
      )

  -- An insertion changes the tree account and the log, and nothing else.
  pub insert_frame :
      (s : Chain r) (account : Pubkey) (commitment note : Bytes) {t : Chain r}
      → insert s account commitment note ≡ ok t
      → (t.pools ≡ s.pools) × (t.nullifiers ≡ s.nullifiers) × (t.tokens ≡ s.tokens)
  insert_frame s account commitment note e =
      let (index, u, a, same) = insert-Appended s account commitment note e in
      rw (same, a.result) (refl, refl, refl)

  -- A tree that is initialised replaces what the account held.
  pub initialize_inv :
      (s : Chain r) (account : Pubkey) {t : Chain r}
      → initialize s account ≡ ok t
      → (a : r.tree.Account) × (v : r.tree.Tree) × (w : r.tree.Tree)
        × (r.tree.from_bytes_zero_copy_init tree_height canopy changelog_size roots_size a ≡ some v)
        × (r.tree.init v ≡ some w)
        × (t ≡ record s { trees = update account (r.tree.bytes w) s.trees })
  unfolding initialize initialize_with_height
  initialize_inv s account e = bind_inv (load (s.trees account)) _ e λ a e0 h0.
      bind_inv
        (ok_or (r.tree.from_bytes_zero_copy_init tree_height canopy changelog_size roots_size a)
          (pool_error tree_error))
        _ h0
        λ v e1 h1.
          bind_inv (ok_or (r.tree.init v) (pool_error tree_error)) _ h1
            λ w e2 h2. (a, v, w, ok_or-eq-ok _ _ e1, ok_or-eq-ok _ _ e2, sym (ok-injective _ _ h2))
