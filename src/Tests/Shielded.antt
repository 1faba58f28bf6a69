-- ===== src/Tests/Shielded.antt =====
-- A deposit of 40 under the public key of a note.
use veil.Prelude.{◌≡◌, refl, some, [], ◌∷◌, ◌++◌, length, arith}
use veil.Prelude.Res.{ok}
use veil.Bytes.{Bytes_discrete, be_bytes, be_value}
use veil.Crypto.Toy.{toy, toy_sum}
use veil.Program.Field as Program
use veil.Program.State as State
use veil.Program.State.{Chain, new_commitment}
use veil.Program.Shield as Sh
use veil.Program.Shield.{shield}
use veil.Program.Tree as Tree
use veil.Sdk.Field as F
use veil.Sdk.Field.{Field}
use veil.Sdk.Note as N
use veil.Sdk.Note.{Note, Owner, note_public_key, commitment}
use veil.Sdk.Agreement.Shielded.{shield-commitment}
use veil.Tests.Runtime.{toy_runtime, toy_runtime-IsRuntime, ToyTree}
use veil.Tests.Scenario.{initialized, shield_keys, note}

unfoldable pool_found : (p : State.Pool) × (initialized.pools shield_keys.pool ≡ some p)
unfolding initialized
pool_found = (_, refl)

abbrev the_owner : Owner
the_owner = record { spend = be_bytes 32 5; view = be_bytes 32 6 }

unfoldable the_note : Note
unfolding pool_found
the_note = record { value = 40; asset = pool_found.0.asset.id; random = be_bytes 32 8 }

unfoldable key_run : (k : Field) × (note_public_key toy the_note the_owner ≡ ok k)
unfolding the_note N.note_public_key N.owner_public N.nullifier_key N.note_key N.poseidon
    F.from_bytes F.parse_field F.field_bytes F.from_raw_u64 toy_sum Bytes_discrete be_value
key_run = (_, refl)

unfoldable deposit_run :
    (t : Chain toy_runtime) × (shield toy_runtime initialized shield_keys key_run.0 40 note ≡ ok t)
unfolding key_run initialized shield Sh.shield_accounts Sh.shield_guards Sh.deposit
    Sh.note_commitment Sh.handle Program.is_canonical_field Program.poseidon Program.u64_be32
    Tree.insert Tree.append Bytes_discrete toy_sum
deposit_run = (_, refl)

shield-commitment_example :
    (h : Field) × (before : ToyTree) × (v w : ToyTree) × (commitment toy the_note the_owner ≡ ok h)
    × (initialized.trees shield_keys.tree ≡ some before)
    × (toy_runtime.tree.from_bytes_zero_copy_mut 20 before ≡ some v)
    × (deposit_run.0.trees shield_keys.tree ≡ some w)
    × (toy_runtime-IsRuntime.is_tree.leaves w ≡ toy_runtime-IsRuntime.is_tree.leaves v ++ h ∷ [])
    × (deposit_run.0.events
        ≡ initialized.events
          ++ new_commitment h (length (toy_runtime-IsRuntime.is_tree.leaves v)) note ∷ [])
unfolding the_note
shield-commitment_example =
    shield-commitment toy_runtime toy_runtime-IsRuntime initialized shield_keys key_run.0 40 note
      pool_found.0 the_note the_owner deposit_run.1 pool_found.1 (omega arith) refl refl key_run.1
