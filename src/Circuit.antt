-- ===== src/Circuit.antt =====
-- circuits/transaction/src/main.nr and merkle.nr: what a proof attests. A field element is a number below
-- the modulus.
pub mod Arithmetic
pub mod Encoding
pub mod Assignment
pub mod Completeness
use Prim.Native.String.{String}
use veil.Prelude.{
  ℕ, suc, ◌+◌, ◌-◌, ◌*◌, ◌/◌, ◌%◌, ◌^◌, Bool, not, ◌==◌, List, [], ◌∷◌, ltb, if◌then◌else◌,
}
use veil.Prelude.Res.{Result, ok, require, ◌>>=◌, ◌>>◌}
use veil.Crypto.{modulus}

-- What `main` is called with.
pub record Inputs : Type 0 where
  pub root : ℕ
  pub nullifiers : ℕ × ℕ
  pub out_commitments : ℕ × ℕ
  pub public_amount : ℕ
  pub ext_data_hash : ℕ
  pub bound_hash : ℕ
  pub in_values : ℕ × ℕ
  pub asset_id : ℕ
  pub in_random : ℕ × ℕ
  pub spending_keys : ℕ × ℕ
  pub viewing_keys : ℕ × ℕ
  pub leaf_indices : ℕ × ℕ
  pub siblings : List ℕ × List ℕ
  pub out_npks : ℕ × ℕ
  pub out_values : ℕ × ℕ

-- `assert`, with its message, on the way to a value
abbrev pub Checked {ℓ} : Type ℓ → Type ℓ
Checked = Result String

-- `assert_max_bit_size::<64>()`
abbrev pub assert_u64 : ℕ → Checked (Unit {0})
assert_u64 n = require (ltb n (2 ^ 64)) "call to assert_max_bit_size"

-- `bn254::hash_2`, `hash_3` and `hash_4`, by the inputs that they take
module _ (hash : List ℕ → ℕ) where
  abbrev pub nullifier_key : ℕ → ℕ
  nullifier_key viewing_key = hash (2 ∷ viewing_key ∷ [])

  abbrev pub owner : ℕ → ℕ → ℕ
  owner spending_key viewing_key =
      hash (3 ∷ hash (1 ∷ spending_key ∷ []) ∷ nullifier_key viewing_key ∷ [])

  abbrev pub note_key : ℕ → ℕ → ℕ
  note_key note_owner random = hash (4 ∷ note_owner ∷ random ∷ [])

  abbrev pub note_commitment : ℕ → ℕ → ℕ → ℕ
  note_commitment npk asset_id value = hash (5 ∷ npk ∷ asset_id ∷ value ∷ [])

  abbrev pub nullifier : ℕ → ℕ → ℕ
  nullifier viewing_key leaf_index = hash (6 ∷ nullifier_key viewing_key ∷ leaf_index ∷ [])

  -- One pass of the loop of `compute_root`, where the bit of the index at this level is the side.
  abbrev pub climb : ℕ → ℕ → ℕ → ℕ → ℕ
  climb level node leaf_index sibling =
      if (leaf_index / 2 ^ level) % 2 == 1
      then hash (sibling ∷ node ∷ [])
      else hash (node ∷ sibling ∷ [])

  unfoldable pub root_from : ℕ → ℕ → List ℕ → ℕ → ℕ
  root_from level node [] leaf_index = node
  root_from level node (sibling ∷ siblings) leaf_index =
      root_from (suc level) (climb level node leaf_index sibling) siblings leaf_index

  -- `compute_root`: `to_le_bits` constrains the index to 20 bits.
  unfoldable pub compute_root : ℕ → List ℕ → ℕ → Checked ℕ
  unfolding root_from
  compute_root leaf siblings leaf_index = do
    require (ltb leaf_index (2 ^ 20)) "call to to_le_bits"
    ok (root_from 0 leaf siblings leaf_index)

  -- The assertions of a pass over one input, for the root that it computes.
  unfoldable pub assert_input : ℕ → ℕ → ℕ → ℕ → ℕ → ℕ → Checked (Unit {0})
  assert_input root nullifier' value viewing_key leaf_index computed_root = do
    require (value * ((computed_root + (modulus - root)) % modulus) % modulus == 0)
        "input note not in tree"
    require (nullifier' == nullifier viewing_key leaf_index) "wrong nullifier"
    require (not (nullifier' == 0)) "zero nullifier"

  -- One pass of the loop over the inputs, but for the sum.
  unfoldable pub check_input : ℕ → ℕ → ℕ → ℕ → ℕ → ℕ → ℕ → ℕ → List ℕ → Checked (Unit {0})
  unfolding compute_root assert_input
  check_input root asset_id nullifier' value random spending_key viewing_key leaf_index siblings =
      do
        assert_u64 value
        let npk = note_key (owner spending_key viewing_key) random
        let commitment = note_commitment npk asset_id value
        computed_root ← compute_root commitment siblings leaf_index
        assert_input root nullifier' value viewing_key leaf_index computed_root

  -- One pass of the loop over the outputs.
  unfoldable pub check_output : ℕ → ℕ → ℕ → ℕ → Checked (Unit {0})
  check_output asset_id out_commitment npk value = do
    assert_u64 value
    require (out_commitment == note_commitment npk asset_id value) "wrong output commitment"

  -- The checks after both loops, on their sums.
  unfoldable pub check_sums : Inputs → ℕ → ℕ → Checked (Unit {0})
  check_sums x sum_in sum_out = do
    require ((sum_in + x.public_amount) % modulus == sum_out) "value not conserved"
    require (x.ext_data_hash == x.bound_hash) "wrong external data hash"

  unfoldable pub main : Inputs → Checked (Unit {0})
  unfolding check_input check_output check_sums
  main x = do
    check_input x.root x.asset_id x.nullifiers.0 x.in_values.0 x.in_random.0 x.spending_keys.0
        x.viewing_keys.0 x.leaf_indices.0 x.siblings.0
    check_input x.root x.asset_id x.nullifiers.1 x.in_values.1 x.in_random.1 x.spending_keys.1
        x.viewing_keys.1 x.leaf_indices.1 x.siblings.1
    let sum_in = (x.in_values.0 + x.in_values.1) % modulus
    require (not (sum_in == 0)) "transaction has no real input"
    require (not (x.nullifiers.0 == x.nullifiers.1)) "duplicate nullifier"
    check_output x.asset_id x.out_commitments.0 x.out_npks.0 x.out_values.0
    check_output x.asset_id x.out_commitments.1 x.out_npks.1 x.out_values.1
    check_sums x sum_in ((x.out_values.0 + x.out_values.1) % modulus)
