-- ===== src/Sdk/Agreement/Shielded.antt =====
-- A note of crates/veil402-sdk/src/protocol/note.rs, deposited by onchain/programs/pool/src/instructions/shield.rs.
use mathlib.Core.Option.{some-injective}
use veil.Prelude.{ℕ, ◌^◌, ◌<◌, ◌≡◌, ◌↔◌, refl, sym, ap, ◌∙◌, some, [], ◌∷◌, ◌++◌, length, arith}
use veil.Prelude.Res.{ok}
use veil.Bytes.{Bytes, be_bytes}
use veil.Bytes.Laws.{padded-eq}
use veil.Crypto.{IsCrypto}
use veil.Program.Field as Program
use veil.Program.Runtime.{Runtime}
use veil.Program.Runtime.Laws.{IsRuntime}
use veil.Program.State as State
use veil.Program.State.{Chain, Event, new_commitment}
use veil.Program.State.Laws.{update_self}
use veil.Program.Tree.Effects.{insert-Appended}
use veil.Program.Access.{shield_accounts-ShieldBound}
use veil.Program.Shield.{ShieldAccounts, note_commitment, shield}
use veil.Program.Shield.Effects.{shield-Deposited}
use veil.Sdk.Field.{Field, from_u64, from_raw_u64}
use veil.Sdk.Field.Laws.{from_fr-eq}
use veil.Sdk.Note.{Note, Owner, note_public_key, commitment, commitment_from_key}
use veil.Sdk.Agreement.Binding.{poseidon-eq-ok}

module _ (r : Runtime) (C : IsCrypto r.crypto) where
  -- Both encode a `u64` alike.
  from_u64-eq : (n : ℕ) → n < 2 ^ 64 → from_u64 r.crypto n ≡ Program.u64_be32 n
  unfolding from_u64 Program.u64_be32 Program.field_bytes
  from_u64-eq n h =
      from_fr-eq r.crypto C (r.crypto.from_uint n)
      ∙ C.to_bytes_be-value (r.crypto.from_uint n)
      ∙ ap (be_bytes 32) (omega (arith, h, C.value-from_uint n))
      ∙ sym (padded-eq n h)

  -- The program commits to a deposit of a `u64` exactly when the client does for the same key, asset and
  -- amount, and to the same value.
  note_commitment-eq-commitment_from_key :
      (pool : State.Pool) (key : Bytes) (amount : ℕ) {h : Bytes}
      → amount < 2 ^ 64
      → (note_commitment r pool key amount ≡ ok h)
        ↔ (commitment_from_key r.crypto key pool.asset.id amount ≡ ok h)
  unfolding note_commitment commitment_from_key Program.u64_be32 from_raw_u64
  note_commitment-eq-commitment_from_key pool key amount fits =
      let (there, back) = poseidon-eq-ok r.crypto C _ in rw (from_u64-eq amount fits) (back, there)

module _ (r : Runtime) (R : IsRuntime r) where
  -- A deposit under the public key of an owner's note puts the commitment that the client computes for the
  -- note into the tree: if the deposit succeeds, the note has its amount, a `u64`, and the pool's asset, and
  -- the note's public key is the deposit's key, then the commitment of the note is computed, it is the last
  -- leaf of the tree, and the event carries it with its index and the encrypted note.
  pub shield-commitment :
      (s : Chain r) (k : ShieldAccounts) (npk : Bytes) (amount : ℕ) (encrypted : Bytes)
      (pool : State.Pool) (note : Note) (owner : Owner) {t : Chain r}
      → shield r s k npk amount encrypted ≡ ok t
      → s.pools k.pool ≡ some pool
      → amount < 2 ^ 64
      → note.value ≡ amount
      → note.asset ≡ pool.asset.id
      → note_public_key r.crypto note owner ≡ ok npk
      → (h : Field) × (before : r.tree.Account) × (v w : r.tree.Tree) × (commitment r.crypto note
            owner
          ≡ ok h)
        × (s.trees k.tree ≡ some before)
        × (r.tree.from_bytes_zero_copy_mut 20 before ≡ some v)
        × (t.trees k.tree ≡ some (r.tree.bytes w))
        × (R.is_tree.leaves w ≡ R.is_tree.leaves v ++ h ∷ [])
        × (t.events ≡ s.events ++ new_commitment h (length (R.is_tree.leaves v)) encrypted ∷ [])
  unfolding commitment
  shield-commitment s k npk amount encrypted pool note owner {t} e found fits value asset key =
      let d = shield-Deposited r s k npk amount encrypted e in
      let b = shield_accounts-ShieldBound r s k d.accounts in
      let same : d.pool ≡ pool = some-injective _ _ (sym b.pool_found ∙ found) in
      let (index, u, a, result) = insert-Appended r _ k.tree d.commitment encrypted d.result in
      let committed =
        (note_commitment-eq-commitment_from_key r R.is_crypto pool npk amount fits).0
          (rw same at d.committed) in
      let at_end : index ≡ length (R.is_tree.leaves a.before) =
        a.index_eq ∙ R.is_tree.next_index_lem a.before in
      (
        d.commitment,
        a.stored,
        a.before,
        a.after,
        rw (key, value, asset) committed,
        a.found,
        a.opened,
        ap (λ (c : Chain r). c.trees k.tree) result
            ∙ ap (λ (c : Chain r). c.trees k.tree) a.result
            ∙ update_self k.tree (r.tree.bytes a.after) s.trees,
        (R.is_tree.append_leaves a.before d.commitment a.appended).0,
        ap (λ (c : Chain r). c.events) result ∙ rw (a.result, at_end) refl,
      )
