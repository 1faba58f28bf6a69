-- ===== src/Program/Tree.antt =====
-- onchain/programs/pool/src/tree.rs: the commitment tree account.
pub mod Effects
pub mod Room
use veil.Prelude.{ℕ, ◌^◌, Bool, true, false, List, if◌then◌else◌, ltb, any, arith}
use veil.Prelude.Res.{ok, ok_or, require, ◌>>=◌, ◌>>◌}
use veil.Bytes.{Bytes, bytes_eq}
use veil.Prelude.{replicate}
use veil.Program.Error.{Res, pool_error, tree_error, constraint}
use veil.Program.Runtime.{Pubkey, Runtime}
use veil.Program.State.{Chain, Event, new_commitment, update, load, emit}

abbrev pub tree_height : ℕ
tree_height = 20

abbrev pub canopy : ℕ
canopy = 0

abbrev pub changelog_size : ℕ
changelog_size = 8

abbrev pub roots_size : ℕ
roots_size = 64

module _ {r : Runtime} where
  unfoldable pub initialize_with_height : ℕ → Chain r → Pubkey → Res (Chain r)
  initialize_with_height height s account = do
    data' ← load (s.trees account)
    tree ←
        ok_or (r.tree.from_bytes_zero_copy_init height canopy changelog_size roots_size data')
          (pool_error tree_error)
    tree' ← ok_or (r.tree.init tree) (pool_error tree_error)
    ok (record s { trees = update account (r.tree.bytes tree') s.trees })

  unfoldable pub initialize : Chain r → Pubkey → Res (Chain r)
  unfolding initialize_with_height
  initialize = initialize_with_height tree_height

  -- The index of the new leaf, and the chain with the leaf appended.
  unfoldable pub append_with_height : ℕ → Chain r → Pubkey → Bytes → Res (ℕ × Chain r)
  append_with_height height s account leaf = do
    data' ← load (s.trees account)
    tree ← ok_or (r.tree.from_bytes_zero_copy_mut height data') (pool_error tree_error)
    let leaf_index = r.tree.next_index tree
    tree' ← ok_or (r.tree.append tree leaf) (pool_error tree_error)
    require (ltb leaf_index (2 ^ 64)) (pool_error tree_error)
    ok (leaf_index, record s { trees = update account (r.tree.bytes tree') s.trees })

  unfoldable pub append : Chain r → Pubkey → Bytes → Res (ℕ × Chain r)
  unfolding append_with_height
  append = append_with_height tree_height

  unfoldable pub insert : Chain r → Pubkey → Bytes → Bytes → Res (Chain r)
  insert s account commitment encrypted_note = do
    (leaf_index, s') ← append s account commitment
    ok (emit (new_commitment commitment leaf_index encrypted_note) s')

  unfoldable pub contains_root : Chain r → Pubkey → Bytes → Res Bool
  contains_root s account root = if bytes_eq root (replicate 32 0) then ok false else (do
    data' ← load (s.trees account)
    tree ← ok_or (r.tree.from_bytes_zero_copy tree_height data') (pool_error tree_error)
    ok (any (λ known_root. bytes_eq known_root root) (r.tree.roots tree)))
