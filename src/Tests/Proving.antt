-- ===== src/Tests/Proving.antt =====
-- A platform that computes: a worker whose frames are given, files whose content is their name, and the
-- runtime of the other tests with associated token accounts that name their owner.
use mathlib.Core.List.{flatten}
use veil.Prelude.{ℕ, ◌≡◌, refl, true, false, Option, none, some, List, [], ◌∷◌, ◌++◌, replicate}
use veil.Prelude.Int as Prelude
use veil.Prelude.Int.{ℤ, pos, negsuc}
use veil.Prelude.Res.{ok, err}
use veil.Sdk.Error.{Error}
use veil.Bytes.{Bytes, Bytes_discrete, ascii, be_bytes, be_value, i64_bytes}
use veil.Crypto.Toy.{toy_sum}
use veil.Program.Runtime.{Runtime}
use veil.Sdk.Field as F
use veil.Sdk.Note as N
use veil.Sdk.Transaction as T
use veil.Sdk.Transaction.{Transaction, Plan, Public}
use veil.Sdk.Solana as S
use veil.Sdk.Solana.{Pool, Proof, Withdrawal}
use veil.Sdk.Solana.Instruction as I
use veil.Sdk.Os.{Os, Frame, ended, frame}
use veil.Sdk.Proving.Protocol as Protocol
use veil.Sdk.Proving.Protocol.{Message, Ready, Request, Response}
use veil.Sdk.Proving.Process as Process
use veil.Sdk.Proving.Worker as Worker
use veil.Sdk.Proving.Worker.{Messages}
use veil.Sdk.Proving.Artifacts.{
  ArtifactLib, Artifacts, Manifest, noir_version, checked_file, open_artifacts,
}
use veil.Sdk.Proving.Witness as Witness
use veil.Sdk.Proving.Witness.{Noir}
use veil.Sdk.Client as Client
use veil.Sdk.Client.{
  Platform, Veil, Prepared, open_veil, prove_plan, withdraw, transfer, new_config,
}
use veil.Tests.Runtime.{toy_runtime, toy_tree, toy_root}
use veil.Tests.Client.{
  counting, toy_codec, mint, recipient, pool_run, payment_request, plan_run, planned, external_run,
  bind_run, public, values_run,
}

abbrev next_of : List Frame → Frame × List Frame
next_of [] = (ended, [])
next_of (f ∷ fs) = (f, fs)

abbrev pub toy_os : Os
toy_os = record {
  World = List Frame;
  Child = ℕ;
  In = ℕ;
  Out = ℕ;
  canonicalize = λ path w. some path;
  is_file = λ path w. true;
  spawn = λ command w. (some (0, some 1, some 2), w);
  write_all = λ pipe bytes w. (true, w);
  flush = λ pipe w. (true, w);
  next_frame = λ size limit pipe w. next_of w;
  kill = λ child w. w;
  expires = λ deadline w. false;
  abandon = λ w. w;
}

abbrev toy_request : Bytes → Option Request
toy_request [] = none
toy_request (id ∷ witness) = some (record { id = id; witness = witness })

abbrev pub toy_messages : Messages
toy_messages = record {
  ready = record {
    encode = λ x. some x.artifact;
    decode = λ bs. some (record { protocol = 1; artifact = bs });
  };
  request = record { encode = λ x. some (x.id ∷ x.witness); decode = toy_request };
  response = record {
    encode = λ x. some x.public;
    decode =
        λ bs. some (record { id = 1; proof = 1 ∷ replicate 387 0; public = bs; failure = pos 0 });
  };
}

abbrev toy_manifest : Manifest
toy_manifest = record {
  id = 7 ∷ 7 ∷ [];
  noir = noir_version;
  circuit = 3 ∷ [];
  files = record {
    acir = ascii "transaction.json";
    ccs = ascii "transaction.ccs";
    pk = ascii "transaction.pk";
    vk = ascii "transaction.vk";
  };
}

abbrev pub toy_files : ArtifactLib
toy_files = record {
  Program = ℕ;
  join = λ directory name. directory ++ name;
  read = λ path. some path;
  parse_manifest = λ bs. some toy_manifest;
  parse_program = λ bs. some 5;
  noir_version_of = λ p. noir_version;
  hash_of = λ p. 3 ∷ [];
  sha256 = λ bs. bs;
  hex_encode = λ bs. bs;
  pinned_manifest = ascii "manifest.json";
}

abbrev toy_noir : Noir ℕ
toy_noir = record {
  Element = Bytes;
  InputValue = List Bytes;
  WitnessMap = List (Bytes × List Bytes);
  WitnessStack = List (Bytes × List Bytes);
  from_be_bytes_reduce = λ bs. bs;
  field = λ e. e ∷ [];
  vec = flatten;
  encode = λ p inputs. some inputs;
  execute_program = λ p inputs. some inputs;
  serialize = λ stack. some (1 ∷ 2 ∷ []);
}

-- The root of the path of the note that is spent.
abbrev path_root : Bytes
path_root =
    replicate 9 0
    ++ 2 ∷ 138 ∷ 126 ∷ 63 ∷ 229 ∷ 152 ∷ 21 ∷ 133 ∷ 133 ∷ 133 ∷ 133 ∷ 133 ∷ 133 ∷ 133 ∷ 170 ∷ 134
      ∷ 247 ∷ 204 ∷ 120 ∷ 64 ∷ 200 ∷ 20 ∷ 206 ∷ []

abbrev pub naming_runtime : Runtime
naming_runtime = record toy_runtime {
  tree = record toy_tree { roots = λ v. toy_root v ∷ path_root ∷ [] };
  get_associated_token_address = λ wallet token. token ++ wallet;
}

abbrev pub toy_platform : Platform
toy_platform = record {
  runtime = naming_runtime;
  rng = counting;
  codec = toy_codec;
  os = toy_os;
  messages = toy_messages;
  files = toy_files;
  noir = toy_noir;
}

unfoldable pub open_run : (a : Artifacts toy_files) × (open_artifacts toy_files [] ≡ ok a)
unfolding open_artifacts checked_file Bytes_discrete
open_run = (_, refl)

abbrev pub toy_veil : Veil toy_platform
toy_veil = record {
  artifacts = record { manifest = toy_manifest; program = 5 };
  artifact_directory = [];
  worker_executable = [];
  timeout = 120;
}

-- The worker says that it is ready, and answers one request.
unfoldable pub frames : List Frame
unfolding values_run
frames = frame (7 ∷ 7 ∷ []) ∷ frame (T.witness_bytes values_run.0.public) ∷ []

unfoldable pub proved_run :
    (x : Proof) × ((prove_plan toy_platform toy_veil none planned public frames).0.1 ≡ ok x)
unfolding frames prove_plan Witness.build_witness Worker.start_worker Process.start_process
    Worker.prove Worker.run_request Worker.exchange Protocol.send Protocol.receive
    Protocol.frame_parts Worker.validate_response T.witness_bytes T.write_fields T.fields values_run
    plan_run T.values public bind_run T.check_spend T.join_root N.nullifier N.nullifier_key
    N.commitment N.note_public_key N.owner_public N.note_key N.commitment_from_key N.merkle_root
    N.merkle_root_from N.parent N.send_public_key N.poseidon F.from_signed F.from_u64 F.from_fr
    F.from_bytes F.parse_field F.field_bytes F.from_raw_u64 toy_sum Bytes_discrete be_value
    Prelude.◌+ℤ◌ flatten i64_bytes
proved_run = (_, refl)

-- The pool of the other tests with its vault as this runtime has it.
unfoldable pub named_pool : Pool
unfolding pool_run
named_pool = record pool_run.0 { vault = mint ++ pool_run.0.address }

abbrev pub asked : Withdrawal
asked = record { recipient = recipient; amount = 10 }

unfoldable pub withdraw_run :
    (x : Prepared) × ((withdraw toy_platform 3 toy_veil none named_pool payment_request asked
        (replicate 32 15)
        0
        frames).0.1
      ≡ ok x)
unfolding withdraw Client.prepare Client.planned named_pool payment_request pool_run external_run
    T.plan T.pad_spends T.pad_sends T.shuffle_pair T.dummy_spend T.random_fields F.random
    N.random_owner N.dummy_send S.new_external S.bind S.payload_length_bytes S.external_parts
    I.build_instruction I.nullifier_record I.encode_request I.account_metas frames prove_plan
    Witness.build_witness Worker.start_worker Process.start_process Worker.prove Worker.run_request
    Worker.exchange Protocol.send Protocol.receive Protocol.frame_parts Worker.validate_response
    T.witness_bytes T.write_fields T.fields values_run plan_run T.values public bind_run
    T.check_spend T.join_root N.nullifier N.nullifier_key N.commitment N.note_public_key
    N.owner_public N.note_key N.commitment_from_key N.merkle_root N.merkle_root_from N.parent
    N.send_public_key N.poseidon F.from_signed F.from_u64 F.from_fr F.from_bytes F.parse_field
    F.field_bytes F.from_raw_u64 toy_sum Bytes_discrete be_value Prelude.◌+ℤ◌ flatten i64_bytes
    be_bytes
withdraw_run = (_, refl)

-- A worker that says nothing.
unfoldable pub silent_run :
    (e : Error) × ((prove_plan toy_platform toy_veil none planned public []).0.1 ≡ err e)
unfolding prove_plan Witness.build_witness Worker.start_worker Process.start_process
    Protocol.receive values_run plan_run T.values public bind_run T.check_spend T.join_root
    N.nullifier N.nullifier_key N.commitment N.note_public_key N.owner_public N.note_key
    N.commitment_from_key N.merkle_root N.merkle_root_from N.parent N.send_public_key N.poseidon
    F.from_signed F.from_u64 F.from_fr F.from_bytes F.parse_field F.field_bytes F.from_raw_u64
    toy_sum Bytes_discrete be_value Prelude.◌+ℤ◌ flatten i64_bytes
silent_run = (_, refl)

abbrev pub the_worker : Worker.Worker toy_os toy_messages
the_worker = record {
  process = record { child = some 0; channel = record { input = 1; output = 2 } };
  next_request_id = 0;
}

unfoldable pub served_run :
    (Worker.prove toy_os toy_messages the_worker (1 ∷ []) 120 (frame (9 ∷ []) ∷ [])).0.1
    ≡ ok (1 ∷ replicate 387 0, 9 ∷ [])
unfolding Worker.prove Worker.run_request Worker.exchange Protocol.send Protocol.receive
    Protocol.frame_parts Worker.validate_response be_bytes
served_run = refl

unfoldable pub stopped_run :
    (e : Error) × ((Worker.prove toy_os toy_messages the_worker (1 ∷ []) 120 []).0.1 ≡ err e)
unfolding Worker.prove Worker.run_request Worker.exchange Protocol.send Protocol.receive
    Protocol.frame_parts Worker.validate_response be_bytes
stopped_run = (_, refl)

abbrev pub first_request : Request
first_request = record { id = 1; witness = 8 ∷ 9 ∷ [] }

unfoldable pub framed_run :
    Protocol.frame_parts toy_os toy_messages.request first_request
    ≡ ok (0 ∷ 0 ∷ 0 ∷ 3 ∷ [], 1 ∷ 8 ∷ 9 ∷ [])
unfolding Protocol.frame_parts be_bytes
framed_run = refl
