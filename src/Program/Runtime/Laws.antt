-- ===== src/Program/Runtime/Laws.antt =====
-- The documented behaviour of the runtime that the proofs rely on.
use veil.Prelude.{ℕ, ◌+◌, ◌^◌, ◌≤◌, ◌<◌, ◌≡◌, ◌≢◌, Option, some, none, List, [], ◌∷◌, ◌++◌, length}
use veil.Bytes.{Bytes}
use veil.Crypto.{IsCrypto, IsScalar}
use veil.Program.Runtime.{Pubkey, TokenAccount, Ledger, Transfer, TreeLib, Runtime}

-- The tokens in an account; an account that is not there holds none.
abbrev pub balance : Ledger → Pubkey → ℕ
balance ledger key = elim (ledger key) [ none ↦ 0 | some a ↦ a.amount ]

-- A tree is an append-only list of leaves of a fixed height, which stays in the account as it was
-- left and refuses a leaf exactly when it is full.
pub record IsTreeLib (t : TreeLib) : Type 0 where
  pub leaves : t.Tree → List Bytes
  pub height : t.Tree → ℕ
  pub opens : (v : t.Tree) → t.from_bytes_zero_copy_mut (height v) (t.bytes v) ≡ some v
  pub opens_as :
      (h : ℕ) (a : t.Account) {v : t.Tree} → t.from_bytes_zero_copy_mut h a ≡ some v → height v ≡ h
  pub same_view :
      (h : ℕ) (a : t.Account) → t.from_bytes_zero_copy h a ≡ t.from_bytes_zero_copy_mut h a
  pub initial :
      (h canopy changelog roots : ℕ) (a : t.Account) {v w : t.Tree}
      → t.from_bytes_zero_copy_init h canopy changelog roots a ≡ some v
      → t.init v ≡ some w
      → (leaves w ≡ []) × (height w ≡ h)
  pub next_index_lem : (v : t.Tree) → t.next_index v ≡ length (leaves v)
  pub append_leaves :
      (v : t.Tree) (leaf : Bytes) {w : t.Tree}
      → t.append v leaf ≡ some w
      → (leaves w ≡ leaves v ++ leaf ∷ []) × (height w ≡ height v)
  pub append_full :
      (v : t.Tree) (leaf : Bytes) → 2 ^ height v ≤ length (leaves v) → t.append v leaf ≡ none
  pub append_room :
      (v : t.Tree) (leaf : Bytes)
      → IsScalar leaf
      → length (leaves v) < 2 ^ height v
      → (w : t.Tree) × (t.append v leaf ≡ some w)

-- A transfer between two accounts moves the amount, which the source must hold, and touches nothing
-- else: no other account, no owner and no mint.
pub record IsToken (transfer : Ledger → Transfer → List Bytes → ℕ → ℕ → Option Ledger)
    : Type 0 where
  pub moves :
      (l : Ledger) (t : Transfer) (seeds : List Bytes) (n decimals : ℕ) {m : Ledger}
      → transfer l t seeds n decimals ≡ some m
      → t.source ≢ t.destination
      → (balance m t.source + n ≡ balance l t.source)
        × (balance m t.destination ≡ balance l t.destination + n)
  pub others :
      (l : Ledger) (t : Transfer) (seeds : List Bytes) (n decimals : ℕ) {m : Ledger} (key : Pubkey)
      → transfer l t seeds n decimals ≡ some m
      → key ≢ t.source
      → key ≢ t.destination
      → m key ≡ l key
  -- an account that is there stays, with its owner and mint
  pub keeps :
      (l : Ledger) (t : Transfer) (seeds : List Bytes) (n decimals : ℕ) {m : Ledger} (key : Pubkey)
      (a : TokenAccount)
      → transfer l t seeds n decimals ≡ some m
      → l key ≡ some a
      → (b : TokenAccount) × (m key ≡ some b) × (b.owner ≡ a.owner) × (b.mint ≡ a.mint)

pub record IsRuntime (r : Runtime) : Type 1 where
  pub is_crypto : IsCrypto r.crypto
  pub is_tree : IsTreeLib r.tree
  pub is_token : IsToken r.transfer_checked
  pub bump_recreates :
      (seeds : List Bytes) (program : Pubkey)
      → r.create_program_address
          (seeds ++ ((r.find_program_address seeds program).1 ∷ []) ∷ [])
          program
        ≡ some (r.find_program_address seeds program).0
