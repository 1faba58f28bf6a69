-- ===== src/Program/Tree/Room.antt =====
-- The places that are left in the tree of an account.
use mathlib.Core.Option.{some-injective}
use veil.Prelude.{
  ℕ, suc, ◌+◌, ◌^◌, ◌≤◌, ◌<◌, ◌≡◌, ◌⊎◌, inl, inr, dec_lt, refl, sym, ap, ◌∙◌, Option, some, [], ◌∷◌,
  length, length-append, true, ltb, ltb_iff, arith,
}
use veil.Prelude.Res.{ok}
use veil.Bytes.{Bytes}
use veil.Crypto.{IsScalar}
use veil.Program.Runtime.{Pubkey, Runtime}
use veil.Program.Runtime.Laws.{IsRuntime}
use veil.Program.State.{Chain, new_commitment, update, emit}
use veil.Program.State.Laws.{update_self}
use veil.Program.Tree.{tree_height, append_with_height, append, insert}
use veil.Program.Tree.Effects.{insert-Appended}

lt_or_le : (m n : ℕ) → (m < n) ⊎ (n ≤ m)
lt_or_le m n = elim (dec_lt m n) [ yes h ↦ inl h | no h ↦ inr (omega (arith, h)) ]

module _ (r : Runtime) (R : IsRuntime r) where
  -- The tree in an account has room for this many leaves more.
  pub record HasRoom (n : ℕ) (o : Option r.tree.Account) : Type 0 where
    pub account : r.tree.Account
    pub tree : r.tree.Tree
    pub found : o ≡ some account
    pub opened : r.tree.from_bytes_zero_copy_mut tree_height account ≡ some tree
    pub room : length (R.is_tree.leaves tree) + n ≤ 2 ^ tree_height

  -- An insertion of a field element into a tree with room succeeds, and takes one place.
  pub insert-HasRoom :
      (s : Chain r) (account : Pubkey) (leaf note : Bytes) (n : ℕ)
      → IsScalar leaf
      → HasRoom (suc n) (s.trees account)
      → (t : Chain r) × (insert s account leaf note ≡ ok t) × HasRoom n (t.trees account)
  unfolding insert append append_with_height
  insert-HasRoom s account leaf note n scalar h =
      let tall : R.is_tree.height h.tree ≡ tree_height =
        R.is_tree.opens_as tree_height h.account h.opened in
      let size : length (R.is_tree.leaves h.tree) < 2 ^ R.is_tree.height h.tree =
        rw tall (omega (arith, h.room)) in
      let (after, appended) = R.is_tree.append_room h.tree leaf scalar size in
      let (grown, kept) = R.is_tree.append_leaves h.tree leaf appended in
      let fits : ltb (r.tree.next_index h.tree) (2 ^ 64) ≡ true =
        (ltb_iff _ _).1 (omega (arith, R.is_tree.next_index_lem h.tree, h.room)) in
      (
        emit (new_commitment leaf (r.tree.next_index h.tree) note)
            (record s { trees = update account (r.tree.bytes after) s.trees }),
        rw (h.found, h.opened, appended, fits) refl,
        record {
          account = r.tree.bytes after;
          tree = after;
          found = update_self account (r.tree.bytes after) s.trees;
          opened =
              ap (λ (k : ℕ). r.tree.from_bytes_zero_copy_mut k (r.tree.bytes after))
                (sym (kept ∙ tall))
              ∙ R.is_tree.opens after;
          room =
              omega (
                arith,
                h.room,
                ap length grown,
                length-append (R.is_tree.leaves h.tree) (leaf ∷ []),
              );
        },
      )

  -- A leaf is appended only where there is room.
  append-room :
      (v : r.tree.Tree) (leaf : Bytes) {w : r.tree.Tree}
      → r.tree.append v leaf ≡ some w
      → length (R.is_tree.leaves v) < 2 ^ R.is_tree.height v
  append-room v leaf e = elim (lt_or_le (length (R.is_tree.leaves v)) (2 ^ R.is_tree.height v)) [
    | inl room ↦ room
    | inr full ↦ absurd (cc (e, R.is_tree.append_full v leaf full))
  ]

  -- An insertion that succeeds had room.
  pub insert-room :
      (s : Chain r) (tree : Pubkey) (commitment note : Bytes) {t : Chain r}
      → insert s tree commitment note ≡ ok t
      → HasRoom 1 (s.trees tree)
  insert-room s tree commitment note e =
      let (_, _, a, _) = insert-Appended r s tree commitment note e in
      let tall = R.is_tree.opens_as tree_height a.stored a.opened in
      let room = append-room a.before commitment a.appended in
      record {
        account = a.stored;
        tree = a.before;
        found = a.found;
        opened = a.opened;
        room = omega (arith, rw tall at room);
      }

  -- Two insertions that succeed had room.
  pub insert_outputs-room :
      (s u t : Chain r) (tree : Pubkey) (c0 c1 n0 n1 : Bytes)
      → insert s tree c0 n0 ≡ ok u
      → insert u tree c1 n1 ≡ ok t
      → HasRoom 2 (s.trees tree)
  insert_outputs-room s u t tree c0 c1 n0 n1 e0 e1 =
      let (i0, u0, a0, same0) = insert-Appended r s tree c0 n0 e0 in
      let (i1, u1, a1, same1) = insert-Appended r u tree c1 n1 e1 in
      let tall : R.is_tree.height a0.before ≡ tree_height =
        R.is_tree.opens_as tree_height a0.stored a0.opened in
      let (grown, kept) = R.is_tree.append_leaves a0.before c0 a0.appended in
      let stored : a1.stored ≡ r.tree.bytes a0.after = some-injective _ _ (
        sym a1.found
        ∙ ap (λ (c : Chain r). c.trees tree) same0
        ∙ ap (λ (c : Chain r). c.trees tree) a0.result
        ∙ update_self tree (r.tree.bytes a0.after) s.trees) in
      let second : a1.before ≡ a0.after = some-injective _ _ (
        sym (rw stored at a1.opened)
        ∙ ap (λ (k : ℕ). r.tree.from_bytes_zero_copy_mut k (r.tree.bytes a0.after))
            (sym (kept ∙ tall))
        ∙ R.is_tree.opens a0.after) in
      let tall1 : R.is_tree.height a1.before ≡ tree_height =
        R.is_tree.opens_as tree_height a1.stored a1.opened in
      let size : length (R.is_tree.leaves a1.before) ≡ length (R.is_tree.leaves a0.before) + 1 =
        ap (λ (v : r.tree.Tree). length (R.is_tree.leaves v)) second
        ∙ ap length grown
        ∙ length-append (R.is_tree.leaves a0.before) (c0 ∷ []) in
      let room = append-room a1.before c1 a1.appended in
      record {
        account = a0.stored;
        tree = a0.before;
        found = a0.found;
        opened = a0.opened;
        room = omega (arith, size, rw tall1 at room);
      }
