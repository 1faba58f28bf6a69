-- ===== src/Tests/ClientWitnesses.antt =====
-- The theorems on the client at concrete inputs.
use veil.Prelude.{ℕ, ◌≤◌, ◌≡◌, ◌↔◌, refl, All, [], ◌∷◌, replicate, true}
use veil.Prelude.Int.{negsuc}
use veil.Prelude.Res.{ok}
use veil.Bytes.{IsArray, be_bytes, Bytes_discrete}
use veil.Bytes.Laws.{be_bytes-IsArray}
use veil.Crypto.Toy.{toy, toy-IsCrypto, toy_sum}
use veil.Program.Field.{asset_id}
use veil.Program.Transact.{
  TransactAccounts, TransactArgs, transact_guards, check_proof, ext_data_hash,
}
use veil.Program.Transact as Transact
use veil.Program.Transact.Effects.{record_address}
use veil.Program.Verifier.{verify, encode}
use veil.Sdk.Field.{Field, random, from_bytes, parse_field, field_bytes}
use veil.Sdk.Field.Random.{random_iff, Draws}
use veil.Sdk.Note.{poseidon, merkle_root}
use veil.Sdk.Note.Merkle.{
  Tree, leaf, node, tree_root, Opening, at_leaf, go_right, merkle_root-Opening,
}
use veil.Sdk.Transaction.{values, PublicInputs, fields, witness_bytes}
use veil.Sdk.Transaction.Statement.{IsStatement}
use veil.Sdk.Transaction.Completeness.{values_iff}
use veil.Sdk.Transaction.Padding.{IsPadded, IsLongest, IsDummySpend, IsDummySend, plan-IsPadded}
use veil.Sdk.Solana.{bind, asset}
use veil.Sdk.Agreement.Witness.{on_chain, witness_bytes-eq-encode}
use veil.Sdk.Agreement.Binding.{ext_data, asset-eq-asset_id, bind-eq-ext_data_hash}
use veil.Sdk.Agreement.Received.{IsReceived}
use veil.Sdk.Agreement.Instruction.{build_instruction-check_proof}
use veil.Tests.Runtime.{toy_runtime}
use veil.Crypto.{IsScalar}
use veil.Sdk.Agreement.Typed.{values-IsScalar}
use veil.Program.Tree.{contains_root}
use veil.Tests.Scenario.{shielded}
use veil.Tests.Client.{
  counting, counting-IsRng, toy_codec, mint, recipient, domain, pool_run, payment_request, plan_run,
  planned, external_run, bind_run, public, values_run, known_proof, known_run,
}

values_iff_example :
    (values toy planned public ≡ ok values_run.0) ↔ IsStatement toy planned public values_run.0
values_iff_example = values_iff toy planned public values_run.0

plan-IsPadded_example :
    IsPadded (IsDummySpend toy pool_run.0.asset) payment_request.spends planned.spends
    × ((n : ℕ) × IsLongest n payment_request.sends
        × IsPadded (IsDummySend n) payment_request.sends planned.sends)
    × (planned.asset ≡ pool_run.0.asset)
plan-IsPadded_example =
    plan-IsPadded toy counting counting-IsRng 3 payment_request pool_run.0.asset 0 plan_run.1

asset-eq-asset_id_example :
    (asset toy_runtime mint ≡ ok pool_run.0.asset) ↔ (asset_id toy mint ≡ ok pool_run.0.asset)
unfolding be_bytes
asset-eq-asset_id_example =
    asset-eq-asset_id toy_runtime toy-IsCrypto mint
      (be_bytes-IsArray 32 0x0202020202020202020202020202020202020202020202020202020202020202)

bind-eq-ext_data_hash_example :
    (bind toy_runtime pool_run.0 external_run.0 (negsuc 9) ≡ ok bind_run.0) ↔ (
      ext_data_hash toy_runtime
        (ext_data external_run.0)
        pool_run.0.domain
        pool_run.0.address
        pool_run.0.mint
        pool_run.0.verifier
        (negsuc 9)
      ≡ ok bind_run.0)
unfolding pool_run
bind-eq-ext_data_hash_example =
    bind-eq-ext_data_hash toy_runtime toy-IsCrypto pool_run.0 external_run.0 (negsuc 9) refl

values-IsScalar_example : All IsScalar (fields values_run.0.public)
unfolding public
values-IsScalar_example =
    values-IsScalar toy_runtime toy-IsCrypto planned public values_run.0 pool_run.0 external_run.0
      values_run.1 bind_run.1

loaded : Transact.Loaded
unfolding pool_run
loaded = record {
  pool = record {
    verifier = pool_run.0.verifier;
    asset = record { mint = mint; id = pool_run.0.asset };
    domain = domain;
    bump = 255;
  };
  vault = record { mint = mint; owner = pool_run.0.address; amount = 40 };
  mint = record { decimals = 6 };
  recipient_ata = record { mint = mint; owner = recipient; amount = 0 };
}

root_is_known : contains_root shielded pool_run.0.tree known_proof.public.root ≡ ok true
unfolding contains_root shielded pool_run known_proof toy_sum Bytes_discrete be_bytes
root_is_known = refl

build_instruction-check_proof_example :
    (k : TransactAccounts) × (x : TransactArgs) × IsReceived toy_codec known_run.0 k x
    × (check_proof toy_runtime shielded k loaded x
        ≡ verify toy_runtime (on_chain known_proof.public) pool_run.0.verifier known_proof.bytes)
    × (k.nullifier_0_record ≡ record_address toy_runtime pool_run.0.address x.nullifiers.0)
    × (k.nullifier_1_record ≡ record_address toy_runtime pool_run.0.address x.nullifiers.1)
unfolding loaded pool_run
build_instruction-check_proof_example =
    build_instruction-check_proof toy_runtime toy-IsCrypto toy_codec shielded loaded pool_run.0
      known_proof external_run.0 (negsuc 9) (replicate 32 15) known_run.0 refl refl refl refl
      root_is_known known_run.1

inputs : PublicInputs
inputs = record {
  root = be_bytes 32 2;
  nullifiers = (be_bytes 32 11, be_bytes 32 12);
  commitments = (be_bytes 32 21, be_bytes 32 22);
  amount = be_bytes 32 0;
  hash = be_bytes 32 5;
}

inputs-IsArray : All (IsArray 32) (fields inputs)
unfolding fields inputs
inputs-IsArray = (
  be_bytes-IsArray 32 2,
  (
    be_bytes-IsArray 32 11,
    (
      be_bytes-IsArray 32 12,
      (
        be_bytes-IsArray 32 21,
        (be_bytes-IsArray 32 22, (be_bytes-IsArray 32 0, (be_bytes-IsArray 32 5, tt))),
      ),
    ),
  ),
)

witness_bytes-eq-encode_example : witness_bytes inputs ≡ encode (on_chain inputs)
witness_bytes-eq-encode_example = witness_bytes-eq-encode inputs inputs-IsArray

abbrev small_tree : Tree
small_tree = node (leaf (be_bytes 32 1)) (leaf (be_bytes 32 2))

small_root : (h : Field) × (tree_root toy small_tree ≡ ok h)
unfolding tree_root poseidon toy_sum from_bytes parse_field field_bytes Bytes_discrete be_bytes
small_root = (_, refl)

small_path : Opening toy 1 small_tree 1 (be_bytes 32 2) (be_bytes 32 1 ∷ [])
unfolding tree_root
small_path =
    go_right 0 (leaf (be_bytes 32 1)) (leaf (be_bytes 32 2)) 0 (be_bytes 32 2) (be_bytes 32 1) []
      (at_leaf _) refl

merkle_root-Opening_example :
    merkle_root toy (be_bytes 32 2) 1 (be_bytes 32 1 ∷ []) ≡ ok small_root.0
merkle_root-Opening_example = merkle_root-Opening toy small_path small_root.1

random_iff_example :
    (random toy counting 2 0 ≡ ok (be_bytes 32 1, 1))
    ↔ ((n : ℕ) × (n ≤ 2) × Draws counting n 0 (be_bytes 32 1) 1)
random_iff_example = random_iff toy toy-IsCrypto counting 2 0 1 (be_bytes 32 1)
