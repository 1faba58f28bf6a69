-- ===== src/Program/State.antt =====
-- onchain/programs/pool/src/state.rs and events.rs, the constants of lib.rs, and the accounts of the
-- chain that the program reads and writes.
pub mod Laws
use veil.Prelude.{
  ℕ, Bool, true, false, ◌||◌, Option, some, none, List, [], ◌∷◌, ◌++◌, if◌then◌else◌,
}
use veil.Prelude.Res.{ok_or}
use veil.Bytes.{Bytes, bytes_eq, ascii}
use veil.Program.Error.{Res, constraint}
use veil.Program.Runtime.{Pubkey, TokenAccount, Mint, Ledger, Runtime}

-- `declare_id!`
abbrev pub program_id : Pubkey
program_id =
    0xb3 ∷ 0x66 ∷ 0xd0 ∷ 0x7d ∷ 0x4b ∷ 0xde ∷ 0x07 ∷ 0x37 ∷ 0x3d ∷ 0xb6 ∷ 0x42 ∷ 0x31 ∷ 0x55 ∷ 0x8a
    ∷ 0x15 ∷ 0x27 ∷ 0xe4 ∷ 0xdb ∷ 0x82 ∷ 0x93 ∷ 0x00 ∷ 0x87 ∷ 0x98 ∷ 0xd1 ∷ 0x9b ∷ 0x96 ∷ 0x5e
    ∷ 0x7d ∷ 0x9b ∷ 0x9d ∷ 0xc4 ∷ 0xbc ∷ []

abbrev pub binding_domain : Bytes
binding_domain = ascii "veil402:transact:v4"

abbrev pub version_seed : Bytes
version_seed = ascii "v4"

abbrev pub note_domain : ℕ
note_domain = 5

abbrev pub max_encrypted_note_len : ℕ
max_encrypted_note_len = 128

abbrev pub proof_bytes : ℕ
proof_bytes = 388

pub record Asset : Type 0 where
  pub mint : Pubkey
  pub id : Bytes

pub record Pool : Type 0 where
  pub verifier : Pubkey
  pub asset : Asset
  pub domain : Bytes
  pub bump : ℕ

pub record NullifierRecord : Type 0 where
  pub nullifier : Bytes

pub data Event : Type 0 where
  -- commitment, leaf index, encrypted note
  new_commitment : Bytes → ℕ → Bytes → Event
  new_nullifier : Bytes → Event

-- The accounts by address. `programs` says which accounts are executable, `program_data` the upgrade
-- authority of a program data account, `programdata_address` where the loader keeps the data of a program, and `others` which addresses are taken by anything else.
pub record Chain (r : Runtime) : Type 0 where
  pub pools : Pubkey → Option Pool
  pub trees : Pubkey → Option r.tree.Account
  pub nullifiers : Pubkey → Option NullifierRecord
  pub tokens : Ledger
  pub mints : Pubkey → Option Mint
  pub programs : Pubkey → Bool
  pub program_data : Pubkey → Option (Option Pubkey)
  pub programdata_address : Pubkey → Option Pubkey
  pub others : Pubkey → Bool
  pub events : List Event

module _ {ℓ} {A : Type ℓ} where
  abbrev pub is_some : Option A → Bool
  is_some none = false
  is_some (some a) = true

  abbrev pub update : Pubkey → A → (Pubkey → Option A) → Pubkey → Option A
  update key a f k = if bytes_eq key k then some a else f k

  -- An account that Anchor deserialises, or refuses when it is not there.
  abbrev pub load : Option A → Res A
  load o = ok_or o constraint

module _ {r : Runtime} where
  abbrev pub in_use : Chain r → Pubkey → Bool
  in_use s key =
      is_some (s.pools key)
      || (is_some (s.trees key)
          || (is_some (s.nullifiers key)
              || (is_some (s.tokens key)
                  || (is_some (s.mints key)
                      || (s.programs key || (is_some (s.program_data key) || s.others key))))))

  -- `emit!`
  abbrev pub emit : Event → Chain r → Chain r
  emit e s = record s { events = s.events ++ e ∷ [] }
