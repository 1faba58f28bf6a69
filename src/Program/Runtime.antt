-- ===== src/Program/Runtime.antt =====
-- What the pool program takes from Solana, Anchor, the SPL token program and Light Protocol's
-- concurrent Merkle tree, as one record of operations.
pub mod Laws
use veil.Prelude.{ℕ, Bool, Option, List, replicate, take, ◌++◌}
use veil.Bytes.{Bytes, ascii}
use veil.Crypto.{Crypto}

-- `Pubkey`: 32 bytes
abbrev pub Pubkey : Type 0
Pubkey = Bytes

-- The address of the system program.
abbrev pub system_program : Pubkey
system_program = replicate 32 0

-- The discriminator by which Anchor's dispatcher tells an instruction, by its name: the first eight bytes of
-- the SHA-256 of the name in the namespace `global`.
abbrev pub method_discriminator : (Bytes → Bytes) → Bytes → Bytes
method_discriminator sha256 name = take 8 (sha256 (ascii "global:" ++ name))

-- A token account of the SPL token program, and what the program reads of a mint.
pub record TokenAccount : Type 0 where
  pub mint : Pubkey
  pub owner : Pubkey
  pub amount : ℕ

pub record Mint : Type 0 where
  pub decimals : ℕ

abbrev pub Ledger : Type 0
Ledger = Pubkey → Option TokenAccount

-- `TransferChecked`
pub record Transfer : Type 0 where
  pub source : Pubkey
  pub mint : Pubkey
  pub destination : Pubkey
  pub authority : Pubkey

-- light-concurrent-merkle-tree: `Account` is an account's bytes behind the discriminator, `Tree` the
-- zero-copy view of them, and `bytes` what the view leaves in the account.
pub record TreeLib : Type 1 where
  pub Account : Type 0
  pub Tree : Type 0
  pub bytes : Tree → Account
  -- height, canopy depth, changelog size, roots size
  pub from_bytes_zero_copy_init : ℕ → ℕ → ℕ → ℕ → Account → Option Tree
  pub init : Tree → Option Tree
  pub from_bytes_zero_copy_mut : ℕ → Account → Option Tree
  pub from_bytes_zero_copy : ℕ → Account → Option Tree
  pub next_index : Tree → ℕ
  pub append : Tree → Bytes → Option Tree
  pub roots : Tree → List Bytes

pub record Runtime : Type 1 where
  pub crypto : Crypto
  pub tree : TreeLib
  -- the bytes of an account that the system program has just created
  pub zeroed : tree.Account
  pub find_program_address : List Bytes → Pubkey → Pubkey × ℕ
  pub create_program_address : List Bytes → Pubkey → Option Pubkey
  pub get_associated_token_address : Pubkey → Pubkey → Pubkey
  -- the IDs of the SPL token program and of the associated token program
  pub token_program : Pubkey
  pub associated_token_program : Pubkey
  -- `invoke` of a program on instruction data, with that program as its only account
  pub invoke : Pubkey → Bytes → Bool
  -- `token::transfer_checked`: the signer seeds, the amount and the decimals behind the accounts
  pub transfer_checked : Ledger → Transfer → List Bytes → ℕ → ℕ → Option Ledger
