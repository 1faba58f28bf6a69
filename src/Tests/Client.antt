-- ===== src/Tests/Client.antt =====
-- The client plans a withdrawal of 10 from a note of 40, with a random source that counts.
use veil.Prelude.{◌++◌, ℕ, suc, ◌+◌, ◌*◌, ◌≡◌, refl, some, [], ◌∷◌, replicate, ap}
use mathlib.Core.Option.{some-injective}
use veil.Prelude.Int as Prelude
use veil.Prelude.Int.{ℤ, negsuc}
use veil.Prelude.Res.{ok}
use mathlib.Core.List.{flatten}
use veil.Bytes.{Bytes, IsArray, i64_bytes, be_bytes, be_value, Bytes_discrete}
use veil.Bytes.Laws.{be_bytes-IsArray}
use veil.Crypto.Toy.{toy, toy_sum}
use veil.Program.Runtime.{Pubkey}
use veil.Program.State.{program_id}
use veil.Sdk.Field as F
use veil.Sdk.Field.{Field, Rng, IsRng}
use veil.Sdk.Note as N
use veil.Sdk.Note.{Owner, Note, Send}
use veil.Sdk.Transaction as T
use veil.Sdk.Transaction.{MerklePath, Spend, Transaction, Plan, Public, Values, values, plan}
use veil.Sdk.Solana as S
use veil.Sdk.Solana.Instruction as I
use veil.Sdk.Solana.{Pool, External, Proof, new_pool, new_external, bind}
use veil.Sdk.Solana.Instruction.{Instruction, Codec, build_instruction}
use veil.Tests.Runtime.{toy_runtime}

abbrev pub counting : Rng
counting = record { State = ℕ; try_fill_bytes = λ n s. some (be_bytes n (s * 7 + 1), suc s) }

fills_all :
    (n s : ℕ) {bs : Bytes} {s' : ℕ} → counting.try_fill_bytes n s ≡ some (bs, s') → IsArray n bs
fills_all n s e =
    rw (ap (λ (x : Bytes × ℕ). x.0) (some-injective _ _ e)) at (be_bytes-IsArray n (s * 7 + 1))

pub counting-IsRng : IsRng counting
counting-IsRng = record { fills = fills_all }

abbrev pub toy_codec : Codec
toy_codec = record { to_vec = λ a. some (a.proof ++ a.root); sha256 = λ bs. bs }

abbrev pub mint : Pubkey
mint = replicate 32 2

abbrev pub recipient : Pubkey
recipient = replicate 32 4

abbrev pub domain : Bytes
domain = replicate 32 7

unfoldable pub pool_run :
    (p : Pool) × (new_pool toy_runtime program_id (replicate 32 3) mint domain ≡ ok p)
unfolding new_pool S.asset F.from_bytes F.parse_field F.field_bytes N.poseidon toy_sum
    F.from_raw_u64 Bytes_discrete
pool_run = (_, refl)

abbrev pub owner : Owner
owner = record { spend = be_bytes 32 5; view = be_bytes 32 6 }

abbrev pub spent : Field → Spend
spent asset = record {
  note = record { value = 40; asset = asset; random = be_bytes 32 8 };
  owner = owner;
  merkle = record { index = 5; siblings = replicate 20 (be_bytes 32 9) };
}

abbrev pub change : Send
change = record {
  owner = be_bytes 32 12;
  value = 30;
  random = be_bytes 32 13;
  encrypted = 1 ∷ 2 ∷ [];
}

unfoldable pub payment_request : Transaction
unfolding pool_run
payment_request = record { spends = spent pool_run.0.asset ∷ []; sends = change ∷ [] }

unfoldable pub plan_run :
    (q : Plan × ℕ) × (plan toy counting 3 payment_request pool_run.0.asset 0 ≡ ok q)
unfolding payment_request plan T.pad_spends T.pad_sends T.shuffle_pair T.dummy_spend T.random_fields
    F.random N.random_owner N.dummy_send N.nullifier N.nullifier_key F.from_u64 F.from_fr be_value
    F.from_bytes F.parse_field F.field_bytes N.poseidon toy_sum F.from_raw_u64 Bytes_discrete
    pool_run
plan_run = (_, refl)

abbrev pub planned : Plan
planned = plan_run.0.0

unfoldable pub external_run : (e : External) × (new_external planned recipient ≡ ok e)
unfolding new_external plan_run
external_run = (_, refl)

unfoldable pub bind_run :
    (h : Field) × (bind toy_runtime pool_run.0 external_run.0 (negsuc 9) ≡ ok h)
unfolding bind external_run plan_run pool_run S.payload_length_bytes S.external_parts F.from_fr
    F.field_bytes be_value
bind_run = (_, refl)

unfoldable pub public : Public
unfolding bind_run
public = record { amount = negsuc 9; hash = bind_run.0 }

unfoldable pub values_run : (v : Values) × (values toy planned public ≡ ok v)
unfolding values plan_run public T.check_spend T.join_root N.nullifier N.nullifier_key N.commitment
    N.note_public_key N.owner_public N.note_key N.commitment_from_key N.merkle_root
    N.merkle_root_from N.parent N.send_public_key N.poseidon F.from_signed F.from_u64 F.from_fr
    F.from_bytes F.parse_field F.field_bytes F.from_raw_u64 toy_sum Bytes_discrete be_value
    Prelude.◌+ℤ◌
values_run = (_, refl)

unfoldable pub proof : Proof
unfolding values_run
proof = record { bytes = 1 ∷ replicate 387 0; public = values_run.0.public; artifact = [] }

unfoldable pub instruction_run :
    (i : Instruction) × (build_instruction toy_runtime toy_codec pool_run.0 proof external_run.0
        public.amount
        (replicate 32 15)
      ≡ ok i)
unfolding build_instruction proof public values_run pool_run external_run bind_run bind
    S.payload_length_bytes S.external_parts I.nullifier_record F.from_signed F.from_fr F.field_bytes
    be_value plan_run toy_sum Bytes_discrete flatten i64_bytes
instruction_run = (_, refl)

-- The same withdrawal, proved against the root that the pool of `Scenario` has after one deposit.
unfoldable pub known_proof : Proof
unfolding bind_run F.from_signed
known_proof = record {
  bytes = 1 ∷ replicate 387 0;
  public = record {
    root = be_bytes 32 2;
    nullifiers = (be_bytes 32 11, be_bytes 32 12);
    commitments = (be_bytes 32 21, be_bytes 32 22);
    amount = F.from_signed toy (negsuc 9);
    hash = bind_run.0;
  };
  artifact = [];
}

unfoldable pub known_run :
    (i : Instruction) × (build_instruction toy_runtime toy_codec pool_run.0 known_proof
        external_run.0
        (negsuc 9)
        (replicate 32 15)
      ≡ ok i)
unfolding build_instruction known_proof pool_run external_run bind_run bind S.payload_length_bytes
    S.external_parts I.nullifier_record F.from_signed F.from_fr F.field_bytes be_value plan_run
    toy_sum Bytes_discrete flatten i64_bytes
known_run = (_, refl)
