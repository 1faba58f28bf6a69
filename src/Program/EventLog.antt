-- ===== src/Program/EventLog.antt =====
-- The log of commitments and the tree: what an indexer reads from the events is what the tree holds.
pub mod Synced
use native.Mathlib.Nat.{add-zero, zero-add}
use veil.Prelude.{
  ℕ, zero, suc, ◌+◌, ◌^◌, ◌≤◌, ◌<◌, ◌≡◌, ◌≢◌, refl, sym, ap, ◌∙◌, Option, some, none, List, [], ◌∷◌,
  ◌++◌, length, length-append, arith, dec_lt, Option-cases, inl, inr,
}
use veil.Prelude.Res.{ok}
use veil.Bytes.{Bytes}
use veil.Program.Runtime.{Pubkey, Runtime}
use veil.Program.Runtime.Laws.{IsRuntime}
use veil.Program.State.{Chain, Event, new_commitment, new_nullifier, update, emit}
use veil.Program.State.Laws.{update_self}
use veil.Program.Tree.{tree_height, insert}
use veil.Program.Tree.Effects.{Appended, insert-Appended, initialize_inv}

-- The commitments that the log reports, each with its leaf index.
abbrev pub committed : List Event → List (ℕ × Bytes)
committed [] = []
committed (new_commitment c i note ∷ es) = (i, c) ∷ committed es
committed (new_nullifier n ∷ es) = committed es

-- The leaves with their positions.
abbrev pub number_from : ℕ → List Bytes → List (ℕ × Bytes)
number_from i [] = []
number_from i (c ∷ cs) = (i, c) ∷ number_from (suc i) cs

pub committed-append : (es fs : List Event) → committed (es ++ fs) ≡ committed es ++ committed fs
committed-append [] fs = refl
committed-append (new_commitment c i note ∷ es) fs = rw (committed-append es fs)
committed-append (new_nullifier n ∷ es) fs = committed-append es fs

number_from-append :
    (i : ℕ) (cs ds : List Bytes)
    → number_from i (cs ++ ds) ≡ number_from i cs ++ number_from (i + length cs) ds
number_from-append i [] ds = rw add-zero
number_from-append i (c ∷ cs) ds =
    rw (number_from-append (suc i) cs ds)
      (ap (λ (n : ℕ). (i, c) ∷ number_from (suc i) cs ++ number_from n ds) (omega arith))

module _ (r : Runtime) (R : IsRuntime r) where
  open R use {is_tree}

  -- The log agrees with the account of the tree: no commitment is reported before there is a tree,
  -- and then exactly its leaves, in order, of which there are at most 2^20.
  abbrev pub Agrees : Option r.tree.Account → List (ℕ × Bytes) → Type 0
  Agrees none reported = reported ≡ []
  Agrees (some a) reported =
      (v : r.tree.Tree) × (r.tree.from_bytes_zero_copy_mut tree_height a ≡ some v)
      × (reported ≡ number_from 0 (is_tree.leaves v))
      × (length (is_tree.leaves v) ≤ 2 ^ tree_height)

  -- An append that succeeds found room.
  append_room-lt :
      (v w : r.tree.Tree) (c : Bytes)
      → r.tree.append v c ≡ some w
      → length (is_tree.leaves v) < 2 ^ is_tree.height v
  append_room-lt v w c e = elim (dec_lt (length (is_tree.leaves v)) (2 ^ is_tree.height v)) [
    | yes p ↦ p
    | no p ↦ absurd (cc (is_tree.append_full v c (omega arith)))
  ]

  append-Agrees :
      (v w : r.tree.Tree) (c : Bytes) (reported : List (ℕ × Bytes))
      → is_tree.height v ≡ tree_height
      → r.tree.append v c ≡ some w
      → reported ≡ number_from 0 (is_tree.leaves v)
      → Agrees (some (r.tree.bytes w)) (reported ++ (r.tree.next_index v, c) ∷ [])
  append-Agrees v w c reported high e same =
      let (grown, tall) = is_tree.append_leaves v c e in
      (
        w,
        ap (λ (n : ℕ). r.tree.from_bytes_zero_copy_mut n (r.tree.bytes w)) (sym (tall ∙ high))
            ∙ is_tree.opens w,
        rw (same, is_tree.next_index_lem v, grown)
            (rw zero-add at (sym (number_from-append 0 (is_tree.leaves v) (c ∷ [])))),
        omega (
          arith,
          ap length grown,
          length-append (is_tree.leaves v) (c ∷ []),
          append_room-lt v w c e,
          ap (λ (n : ℕ). 2 ^ n) high,
        ),
      )

  reported-eq :
      (a : r.tree.Account) (v : r.tree.Tree) (o : Option r.tree.Account)
      (reported : List (ℕ × Bytes))
      → o ≡ some a
      → r.tree.from_bytes_zero_copy_mut tree_height a ≡ some v
      → Agrees o reported
      → reported ≡ number_from 0 (is_tree.leaves v)
  reported-eq a v none reported e opened h = cc
  reported-eq a v (some b) reported e opened (v', opened', same, _) =
      let eq : v' ≡ v = cc in same ∙ ap (λ (x : r.tree.Tree). number_from 0 (is_tree.leaves x)) eq

  -- An insertion into the tree keeps the agreement.
  pub insert-Agrees :
      (s : Chain r) (account : Pubkey) (c note : Bytes) {t : Chain r}
      → insert s account c note ≡ ok t
      → Agrees (s.trees account) (committed s.events)
      → Agrees (t.trees account) (committed t.events)
  insert-Agrees s account c note {t} e h =
      let (index, u, a, same) = insert-Appended r s account c note e in
      let trees : t.trees account ≡ some (r.tree.bytes a.after) =
        ap (λ (x : Chain r). x.trees account) (same ∙ ap (emit _) a.result)
        ∙ update_self account (r.tree.bytes a.after) s.trees in
      let events : committed t.events ≡ committed s.events ++ (r.tree.next_index a.before, c) ∷ [] =
        ap (λ (x : Chain r). committed x.events) (same ∙ ap (emit _) a.result)
        ∙ committed-append s.events (new_commitment c index note ∷ [])
        ∙ ap (λ (n : ℕ). committed s.events ++ (n, c) ∷ []) a.index_eq in
      let agrees =
        append-Agrees a.before a.after c (committed s.events) (is_tree.opens_as _ _ a.opened)
          a.appended (reported-eq a.stored a.before (s.trees account) _ a.found a.opened h) in
      rw (trees, events) agrees
