-- ===== src/Sdk/Note.antt =====
-- crates/veil402-sdk/src/protocol/note.rs: owners, notes, nullifiers and Merkle paths.
pub mod Merkle
use veil.Prelude.{ℕ, zero, suc, ◌+◌, ◌/◌, ◌%◌, ◌^◌, ◌==◌, Bool, List, [], ◌∷◌, if◌then◌else◌}
use veil.Prelude.Res.{ok, err, ok_or, ◌>>=◌}
use veil.Bytes.{Bytes}
use veil.Crypto.{Crypto}
use veil.Sdk.Error as Error
use veil.Sdk.Error.{Res, transaction}
use veil.Sdk.Field.{Field, Rng, from_raw_u64, from_bytes, from_u64, random}

abbrev pub spend_key_domain : ℕ
spend_key_domain = 1

abbrev pub nullifier_key_domain : ℕ
nullifier_key_domain = 2

abbrev pub owner_domain : ℕ
owner_domain = 3

abbrev pub note_key_domain : ℕ
note_key_domain = 4

abbrev pub note_domain : ℕ
note_domain = 5

abbrev pub nullifier_domain : ℕ
nullifier_domain = 6

abbrev pub asset_domain : ℕ
asset_domain = 7

pub record Owner : Type 0 where
  pub spend : Field
  pub view : Field

pub record Note : Type 0 where
  pub value : ℕ
  pub asset : Field
  pub random : Field

pub record Send : Type 0 where
  pub owner : Field
  pub value : ℕ
  pub random : Field
  pub encrypted : Bytes

unfoldable pub new_send : Field → ℕ → Field → Bytes → Res Send
new_send owner value random encrypted =
    if value == 0
    then err (transaction "send value must be greater than zero")
    else ok (record { owner = owner; value = value; random = random; encrypted = encrypted })

module _ (c : Crypto) where
  unfoldable pub poseidon : List Field → Res Field
  poseidon inputs = do hash ← ok_or (c.poseidon_hashv inputs) Error.poseidon; from_bytes c hash

  unfoldable pub nullifier_key : Owner → Res Field
  nullifier_key owner = poseidon (from_raw_u64 nullifier_key_domain ∷ owner.view ∷ [])

  -- `Owner::public`
  unfoldable pub owner_public : Owner → Res Field
  owner_public owner = do
    spend ← poseidon (from_raw_u64 spend_key_domain ∷ owner.spend ∷ [])
    nullifier ← nullifier_key owner
    poseidon (from_raw_u64 owner_domain ∷ spend ∷ nullifier ∷ [])

  unfoldable pub note_key : Field → Field → Res Field
  note_key owner random = poseidon (from_raw_u64 note_key_domain ∷ owner ∷ random ∷ [])

  unfoldable pub commitment_from_key : Field → Field → ℕ → Res Field
  commitment_from_key key asset value =
      poseidon (from_raw_u64 note_domain ∷ key ∷ asset ∷ from_u64 c value ∷ [])

  unfoldable pub note_public_key : Note → Owner → Res Field
  note_public_key note owner = do public ← owner_public owner; note_key public note.random

  unfoldable pub commitment : Note → Owner → Res Field
  commitment note owner = do
    key ← note_public_key note owner
    commitment_from_key key note.asset note.value

  unfoldable pub send_public_key : Send → Res Field
  send_public_key send = note_key send.owner send.random

  unfoldable pub nullifier : Owner → ℕ → Res Field
  nullifier owner index = do
    key ← nullifier_key owner
    poseidon (from_raw_u64 nullifier_domain ∷ key ∷ from_u64 c index ∷ [])

  -- One pass of the loop: `index & (1 << level) == 0` says on which side the node is.
  unfoldable pub parent : ℕ → ℕ → Field → Field → Res Field
  parent index level node sibling =
      if (index / 2 ^ level) % 2 == 0
      then poseidon (node ∷ sibling ∷ [])
      else poseidon (sibling ∷ node ∷ [])

  unfoldable pub merkle_root_from : ℕ → Field → ℕ → List Field → Res Field
  merkle_root_from level node index [] = ok node
  merkle_root_from level node index (sibling ∷ siblings) = do
    node' ← parent index level node sibling
    merkle_root_from (suc level) node' index siblings

  unfoldable pub merkle_root : Field → ℕ → List Field → Res Field
  merkle_root = merkle_root_from 0

  module _ (rng : Rng) where
    unfoldable pub random_owner : ℕ → rng.State → Res (Owner × rng.State)
    random_owner fuel s = do
      (spend, s1) ← random c rng fuel s
      (view, s2) ← random c rng fuel s1
      ok (record { spend = spend; view = view }, s2)

    -- `Send::dummy`
    unfoldable pub dummy_send : ℕ → ℕ → rng.State → Res (Send × rng.State)
    dummy_send fuel length s = do
      (encrypted, s1) ← ok_or (rng.try_fill_bytes length s) Error.random
      (owner, s2) ← random c rng fuel s1
      (random', s3) ← random c rng fuel s2
      ok (record { owner = owner; value = 0; random = random'; encrypted = encrypted }, s3)
