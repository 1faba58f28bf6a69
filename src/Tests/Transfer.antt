-- ===== src/Tests/Transfer.antt =====
-- A transfer on the chain of Execution: a note of 40 becomes two notes of another owner.
use mathlib.Core.List.{flatten}
use veil.Prelude.{ℕ, ◌≡◌, refl, none, List, [], ◌∷◌, replicate, arith, length}
use veil.Prelude.Int as Prelude
use veil.Prelude.Int.{ℤ, pos}
use veil.Prelude.Res.{ok}
use veil.Bytes.{Bytes_discrete, be_bytes, be_value, i64_bytes}
use veil.Crypto.Toy.{toy, toy_sum}
use veil.Program.Tree as Tree
use veil.Sdk.Field as F
use veil.Sdk.Field.{Field}
use veil.Sdk.Note as N
use veil.Sdk.Note.{Send}
use veil.Sdk.Transaction as T
use veil.Sdk.Transaction.{Transaction, Plan, Public, Values, values, plan}
use veil.Sdk.Solana as S
use veil.Sdk.Solana.{External, new_external, bind}
use veil.Sdk.Solana.Instruction as I
use veil.Sdk.Os.{Frame, frame}
use veil.Sdk.Proving.Protocol as Protocol
use veil.Sdk.Proving.Process as Process
use veil.Sdk.Proving.Worker as Worker
use veil.Sdk.Proving.Witness as Witness
use veil.Sdk.Client as Client
use veil.Sdk.Client.{Prepared, prove_plan, transfer}
use veil.Sdk.Agreement.Deployed.{IsFresh}
use veil.Sdk.Agreement.Executed.{Transferred, transfer-transact}
use veil.Tests.Runtime.{toy_tree-IsTreeLib}
use veil.Tests.Client.{counting, mint, domain, spent, pool_run}
use veil.Tests.ProvingWitnesses.{empty-IsReady}
use veil.Tests.Proving.{toy_platform, toy_veil, naming_runtime, named_pool}
use veil.Tests.Execution.{naming_runtime-IsRuntime, named_new, the_chain, chain-IsDeployed, differ}

abbrev sent_part : ℕ → Send
sent_part value = record {
  owner = be_bytes 32 12;
  value = value;
  random = be_bytes 32 13;
  encrypted = 1 ∷ 2 ∷ [];
}

unfoldable move_request : Transaction
unfolding pool_run
move_request = record {
  spends = spent pool_run.0.asset ∷ [];
  sends = sent_part 30 ∷ sent_part 10 ∷ [];
}

unfoldable move_plan : (q : Plan × ℕ) × (plan toy counting 3 move_request pool_run.0.asset 0 ≡ ok q)
unfolding move_request plan T.pad_spends T.pad_sends T.shuffle_pair T.dummy_spend T.random_fields
    F.random N.random_owner N.dummy_send N.nullifier N.nullifier_key F.from_u64 F.from_fr be_value
    F.from_bytes F.parse_field F.field_bytes N.poseidon toy_sum F.from_raw_u64 Bytes_discrete
    pool_run
move_plan = (_, refl)

unfoldable move_external : (e : External) × (new_external move_plan.0.0 pool_run.0.address ≡ ok e)
unfolding new_external move_plan
move_external = (_, refl)

unfoldable move_hash : (h : Field) × (bind naming_runtime named_pool move_external.0 (pos 0) ≡ ok h)
unfolding bind named_pool move_external move_plan pool_run S.payload_length_bytes S.external_parts
    F.from_fr F.field_bytes be_value
move_hash = (_, refl)

unfoldable move_values :
    (v : Values) × (values toy move_plan.0.0 (record { amount = pos 0; hash = move_hash.0 }) ≡ ok v)
unfolding values move_plan move_hash T.check_spend T.join_root N.nullifier N.nullifier_key
    N.commitment N.note_public_key N.owner_public N.note_key N.commitment_from_key N.merkle_root
    N.merkle_root_from N.parent N.send_public_key N.poseidon F.from_signed F.from_u64 F.from_fr
    F.from_bytes F.parse_field F.field_bytes F.from_raw_u64 toy_sum Bytes_discrete be_value
    Prelude.◌+ℤ◌
move_values = (_, refl)

unfoldable move_frames : List Frame
unfolding move_values
move_frames = frame (7 ∷ 7 ∷ []) ∷ frame (T.witness_bytes move_values.0.public) ∷ []

unfoldable transfer_run :
    (x : Prepared) × ((transfer toy_platform 3 toy_veil none named_pool move_request
        (replicate 32 15)
        0
        move_frames).0.1
      ≡ ok x)
unfolding transfer Client.prepare Client.planned named_pool move_request pool_run move_external
    T.plan T.pad_spends T.pad_sends T.shuffle_pair T.dummy_spend T.random_fields F.random
    N.random_owner N.dummy_send S.new_external S.bind S.payload_length_bytes S.external_parts
    I.build_instruction I.nullifier_record I.encode_request I.account_metas move_frames prove_plan
    Witness.build_witness Worker.start_worker Process.start_process Worker.prove Worker.run_request
    Worker.exchange Protocol.send Protocol.receive Protocol.frame_parts Worker.validate_response
    T.witness_bytes T.write_fields T.fields move_values move_plan T.values move_hash T.check_spend
    T.join_root N.nullifier N.nullifier_key N.commitment N.note_public_key N.owner_public N.note_key
    N.commitment_from_key N.merkle_root N.merkle_root_from N.parent N.send_public_key N.poseidon
    F.from_signed F.from_u64 F.from_fr F.from_bytes F.parse_field F.field_bytes F.from_raw_u64
    toy_sum Bytes_discrete be_value Prelude.◌+ℤ◌ flatten i64_bytes be_bytes
transfer_run = (_, refl)

move-IsFresh :
    IsFresh naming_runtime naming_runtime-IsRuntime the_chain named_pool transfer_run.0.proof.bytes
      transfer_run.0.proof.public
unfolding named_pool pool_run toy_sum Bytes_discrete transfer_run move_request move_frames
    Tree.contains_root
move-IsFresh = record {
  room = record {
    account = record { height = 20; leaves = [] };
    tree = record { height = 20; leaves = [] };
    found = refl;
    opened = refl;
    room = omega (arith, toy_tree-IsTreeLib.next_index_lem (record { height = 20; leaves = [] }));
  };
  known = refl;
  free_0 = refl;
  free_1 = refl;
  apart = differ _ _ refl;
  verified = refl;
}

full_proof : length transfer_run.0.proof.bytes ≡ 388
unfolding transfer_run move_frames
full_proof = refl

transfer-transact_example :
    Transferred toy_platform naming_runtime-IsRuntime the_chain named_pool transfer_run.0
transfer-transact_example =
    transfer-transact toy_platform naming_runtime-IsRuntime (replicate 32 3) mint domain named_pool
      3 toy_veil none move_request (replicate 32 15) 0 move_frames transfer_run.0 the_chain
      named_new empty-IsReady transfer_run.1 full_proof chain-IsDeployed move-IsFresh
