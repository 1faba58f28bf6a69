-- ===== src/Sdk/Note/Merkle.antt =====
-- `merkle_root` of crates/veil402-sdk/src/protocol/note.rs against a Merkle tree.
use native.Mathlib.Nat.{pow-suc, add-mul-div_left, div-eq_of_lt, mul_assoc}
use veil.Prelude.{
  ℕ, suc, ◌+◌, ◌*◌, ◌/◌, ◌%◌, ◌^◌, ◌<◌, ◌≡◌, refl, sym, ap, ◌∙◌, true, false, List, [], ◌∷◌, ◌++◌,
  ◌==◌, length, length-append, ==_iff, arith,
}
use veil.Prelude.Res.{ok, err, ◌>>=◌, bind_inv, ok-injective}
use veil.Crypto.{Crypto}
use veil.Sdk.Error.{Res}
use veil.Sdk.Field.{Field}
use veil.Sdk.Note as Note
use veil.Sdk.Note.{parent, merkle_root_from, merkle_root}

quotient : (d k i : ℕ) → i < 2 ^ d → (i + 2 ^ d * k) / 2 ^ d ≡ k
quotient d k i h = add-mul-div_left i k (omega (arith, h)) ∙ omega (arith, div-eq_of_lt h)

even : (k : ℕ) → ((2 * k) % 2 == 0) ≡ true
even k = (==_iff ((2 * k) % 2) 0).1 (omega arith)

odd : (k : ℕ) → ((2 * k + 1) % 2 == 0) ≡ false
odd k = let one : (2 * k + 1) % 2 ≡ 1 = omega arith in rw one refl

left_index : (d i q : ℕ) → i + 2 ^ suc d * q ≡ i + 2 ^ d * (2 * q)
left_index d i q = rw (pow-suc 2 d) (ap (λ x. i + x) (mul_assoc (2 ^ d) 2 q))

right_index : (d i q : ℕ) → 2 ^ d + i + 2 ^ suc d * q ≡ i + 2 ^ d * (2 * q + 1)
right_index d i q = rw (pow-suc 2 d) (grind arith)

bind_ok : (m : Res Field) → (m >>= λ a. ok a) ≡ m
bind_ok (ok a) = refl
bind_ok (err e) = refl

-- A binary tree of notes' commitments.
pub data Tree : Type 0 where
  leaf : Field → Tree
  node : Tree → Tree → Tree

module _ (c : Crypto) where
  -- The hash of a tree.
  unfoldable pub tree_root : Tree → Res Field
  tree_root (leaf f) = ok f
  tree_root (node l r) = do a ← tree_root l; b ← tree_root r; Note.poseidon c (a ∷ b ∷ [])

  -- Siblings from the leaf at an index up to the root: at each node the other child's hash.
  pub data Opening : ℕ → Tree → ℕ → Field → List Field → Type 0 where
    at_leaf : (f : Field) → Opening 0 (leaf f) 0 f []
    go_left :
        (d : ℕ) (l r : Tree) (i : ℕ) (f s : Field) (ss : List Field)
        → Opening d l i f ss
        → tree_root r ≡ ok s
        → Opening (suc d) (node l r) i f (ss ++ s ∷ [])
    go_right :
        (d : ℕ) (l r : Tree) (i : ℕ) (f s : Field) (ss : List Field)
        → Opening d r i f ss
        → tree_root l ≡ ok s
        → Opening (suc d) (node l r) (2 ^ d + i) f (ss ++ s ∷ [])

  path_facts :
      {d : ℕ} {t : Tree} {i : ℕ} {f : Field} {ss : List Field}
      → Opening d t i f ss
      → (i < 2 ^ d) × (length ss ≡ d)
  path_facts (at_leaf f) = (omega arith, refl)
  path_facts (go_left d l r i f s ss p e) =
      let (lt, len) = path_facts p in
      (omega (arith, pow-suc 2 d), omega (arith, length-append ss (s ∷ [])))
  path_facts (go_right d l r i f s ss p e) =
      let (lt, len) = path_facts p in
      (omega (arith, pow-suc 2 d), omega (arith, length-append ss (s ∷ [])))

  -- The last sibling is hashed with what the others give.
  merkle_root_from-append :
      (level : ℕ) (n : Field) (index : ℕ) (ss : List Field) (s : Field) {m : Field}
      → merkle_root_from c level n index ss ≡ ok m
      → merkle_root_from c level n index (ss ++ s ∷ []) ≡ parent c index (level + length ss) m s
  unfolding merkle_root_from
  merkle_root_from-append level n index [] s {m} e =
      bind_ok (parent c index level n s)
      ∙ rw (ok-injective n m e) (ap (λ k. parent c index k m s) (omega arith))
  merkle_root_from-append level n index (x ∷ ss) s {m} e =
      bind_inv (parent c index level n x) _ e λ n' e0 e1. rw e0 (
        merkle_root_from-append (suc level) n' index ss s e1
        ∙ ap (λ k. parent c index k m s) (omega arith))

  parent_left :
      (d k i : ℕ) (a s : Field)
      → i < 2 ^ d
      → parent c (i + 2 ^ d * (2 * k)) d a s ≡ Note.poseidon c (a ∷ s ∷ [])
  unfolding parent
  parent_left d k i a s h = rw (quotient d (2 * k) i h, even k) refl

  parent_right :
      (d k i : ℕ) (a s : Field)
      → i < 2 ^ d
      → parent c (i + 2 ^ d * (2 * k + 1)) d a s ≡ Note.poseidon c (s ∷ a ∷ [])
  unfolding parent
  parent_right d k i a s h = rw (quotient d (2 * k + 1) i h, odd k) refl

  -- The computation along a path, for every index that ends in the path's.
  root_along :
      {d : ℕ} {t : Tree} {i : ℕ} {f : Field} {ss : List Field} {h : Field}
      → Opening d t i f ss
      → tree_root t ≡ ok h
      → (q : ℕ) → merkle_root_from c 0 f (i + 2 ^ d * q) ss ≡ ok h
  unfolding merkle_root_from tree_root
  root_along (at_leaf f) e q = e
  root_along {h = h} (go_left d l r i f s ss p es) e q = bind_inv (tree_root l) _ e λ a e0 h0.
      bind_inv (tree_root r) _ h0 λ b e1 h1.
        let (lt, len) = path_facts p in
        let level : 0 + length ss ≡ d = omega (arith, len) in
        let low = root_along p e0 (2 * q) in
        let same : b ≡ s = ok-injective _ _ (sym e1 ∙ es) in
        let index : i + 2 ^ suc d * q ≡ i + 2 ^ d * (2 * q) = left_index d i q in
        rw index (
          merkle_root_from-append 0 f _ ss s low
          ∙ rw level (parent_left d q i a s lt ∙ (rw same at h1)))
  root_along {h = h} (go_right d l r i f s ss p es) e q = bind_inv (tree_root l) _ e λ a e0 h0.
      bind_inv (tree_root r) _ h0 λ b e1 h1.
        let (lt, len) = path_facts p in
        let level : 0 + length ss ≡ d = omega (arith, len) in
        let low = root_along p e1 (2 * q + 1) in
        let same : a ≡ s = ok-injective _ _ (sym e0 ∙ es) in
        let index : 2 ^ d + i + 2 ^ suc d * q ≡ i + 2 ^ d * (2 * q + 1) = right_index d i q in
        rw index (
          merkle_root_from-append 0 f _ ss s low
          ∙ rw level (parent_right d q i b s lt ∙ (rw same at h1)))

  -- From a leaf, its index and the siblings on its path, `merkle_root` computes the hash of the tree.
  pub merkle_root-Opening :
      {d : ℕ} {t : Tree} {i : ℕ} {f : Field} {ss : List Field} {h : Field}
      → Opening d t i f ss
      → tree_root t ≡ ok h
      → merkle_root c f i ss ≡ ok h
  unfolding merkle_root
  merkle_root-Opening {d} {t} {i} {f} {ss} {h} p e =
      let zero_index : i + 2 ^ d * 0 ≡ i = omega arith in rw zero_index at (root_along p e 0)
