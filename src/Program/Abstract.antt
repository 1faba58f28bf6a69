-- ===== src/Program/Abstract.antt =====
-- What the program promises, without accounts, proofs and hashes: a list of commitments, a set of spent
-- records, and an amount in the vault.
pub mod Refinement
use veil.Prelude.{ℕ, ◌+◌, ◌≤◌, ◌<◌, ◌≡◌, ◌≢◌, Bool, true, false, List, [], ◌∷◌, ◌++◌, if◌then◌else◌}
use veil.Bytes.{Bytes, bytes_eq}
use veil.Program.Runtime.{Pubkey, Runtime}
use veil.Program.Runtime.Laws.{balance}
use veil.Program.State.{Chain, Event, new_commitment, new_nullifier, is_some}

pub record View : Type 0 where
  pub commitments : List Bytes
  pub spent : Pubkey → Bool
  pub vault : ℕ

abbrev pub mark : Pubkey → (Pubkey → Bool) → Pubkey → Bool
mark key spent k = if bytes_eq key k then true else spent k

-- One abstract step. What others do may add to the vault, and changes nothing else.
pub data Move (v w : View) : Type 0 where
  rests : w.commitments ≡ v.commitments → w.spent ≡ v.spent → v.vault ≤ w.vault → Move v w
  deposits :
      (commitment : Bytes) (amount : ℕ)
      → 0 < amount
      → w.commitments ≡ v.commitments ++ commitment ∷ []
      → w.spent ≡ v.spent
      → w.vault ≡ v.vault + amount
      → Move v w
  spends :
      (first second : Pubkey) (commitments : Bytes × Bytes) (amount : ℕ)
      → v.spent first ≡ false
      → v.spent second ≡ false
      → first ≢ second
      → w.commitments ≡ v.commitments ++ commitments.0 ∷ commitments.1 ∷ []
      → w.spent ≡ mark second (mark first v.spent)
      → w.vault + amount ≡ v.vault
      → Move v w

pub data Moves (v : View) : View → Type 0 where
  still : Moves v v
  moved : {w x : View} → Moves v w → Move w x → Moves v x

-- The commitments that the log reports, in order.
abbrev pub reported : List Event → List Bytes
reported [] = []
reported (new_commitment commitment index note ∷ events) = commitment ∷ reported events
reported (new_nullifier nullifier ∷ events) = reported events

-- The abstract state of a chain, whose vault is at this address.
abbrev pub view : {r : Runtime} → Pubkey → Chain r → View
view vault s = record {
  commitments = reported s.events;
  spent = λ key. is_some (s.nullifiers key);
  vault = balance s.tokens vault;
}
