-- ===== src/Tests/Runtime.antt =====
-- A runtime that computes: a tree that is a list of leaves, token accounts that are numbers, and
-- addresses that are sums of their seeds. The verifier accepts proofs whose first byte is 1, as
-- onchain/tests/mock-verifier does.
use veil.Prelude.{
  ℕ, ◌+◌, ◌-◌, ◌^◌, ◌≤◌, ◌<◌, ◌≡◌, ◌≢◌, refl, false, Option, some, none, List, [], ◌∷◌, ◌++◌,
  length, ltb, leb, ◌==◌, if◌then◌else◌, arith, inl, inr, Option-cases, ap, sym,
}
use veil.Bytes.{Bytes, be_bytes}
use veil.Crypto.{IsScalar}
use veil.Crypto.Toy.{toy, toy-IsCrypto, toy_sum}
use veil.Program.Runtime.{Pubkey, TokenAccount, Ledger, Transfer, TreeLib, Runtime}
use veil.Program.Runtime.Laws.{balance, IsTreeLib, IsRuntime}
use veil.Program.State.{update}

pub record ToyTree : Type 0 where
  pub height : ℕ
  pub leaves : List Bytes

abbrev toy_open : ℕ → ToyTree → Option ToyTree
toy_open h a = if a.height == h then some a else none

abbrev toy_append : ToyTree → Bytes → Option ToyTree
toy_append v leaf =
    if ltb (length v.leaves) (2 ^ v.height)
    then some (record v { leaves = v.leaves ++ leaf ∷ [] })
    else none

-- A root for each number of leaves.
abbrev pub toy_root : ToyTree → Bytes
toy_root v = be_bytes 32 (length v.leaves + 1)

abbrev pub toy_tree : TreeLib
toy_tree = record {
  Account = ToyTree;
  Tree = ToyTree;
  bytes = λ v. v;
  from_bytes_zero_copy_init =
      λ h canopy changelog roots a. some (record { height = h; leaves = [] });
  init = λ v. some (record v { leaves = [] });
  from_bytes_zero_copy_mut = toy_open;
  from_bytes_zero_copy = toy_open;
  next_index = λ v. length v.leaves;
  append = toy_append;
  roots = λ v. toy_root v ∷ [];
}

toy_opens : (v : ToyTree) → toy_open v.height v ≡ some v
toy_opens v = ground arith

toy_opens_as : (h : ℕ) (a : ToyTree) {v : ToyTree} → toy_open h a ≡ some v → v.height ≡ h
toy_opens_as h a e = ground arith

toy_initial :
    (h canopy changelog roots : ℕ) (a : ToyTree) {v w : ToyTree}
    → ◌≡◌ {A = Option ToyTree} (some (record { height = h; leaves = [] })) (some v)
    → ◌≡◌ {A = Option ToyTree} (some (record v { leaves = [] })) (some w)
    → (w.leaves ≡ []) × (w.height ≡ h)
toy_initial h canopy changelog roots a e f = ground arith

toy_append_leaves :
    (v : ToyTree) (leaf : Bytes) {w : ToyTree}
    → toy_append v leaf ≡ some w
    → (w.leaves ≡ v.leaves ++ leaf ∷ []) × (w.height ≡ v.height)
toy_append_leaves v leaf e = ground arith

toy_append_full :
    (v : ToyTree) (leaf : Bytes) → 2 ^ v.height ≤ length v.leaves → toy_append v leaf ≡ none
toy_append_full v leaf h = ground arith

toy_append_room :
    (v : ToyTree) (leaf : Bytes)
    → IsScalar leaf
    → length v.leaves < 2 ^ v.height
    → (w : ToyTree) × (toy_append v leaf ≡ some w)
toy_append_room v leaf s h = (record v { leaves = v.leaves ++ leaf ∷ [] }, ground arith)

pub toy_tree-IsTreeLib : IsTreeLib toy_tree
toy_tree-IsTreeLib = record {
  leaves = λ v. v.leaves;
  height = λ v. v.height;
  opens = toy_opens;
  opens_as = λ h a e. toy_opens_as h a e;
  same_view = λ h a. refl;
  initial = λ h canopy changelog roots a e f. toy_initial h canopy changelog roots a e f;
  next_index_lem = λ v. refl;
  append_leaves = λ v leaf e. toy_append_leaves v leaf e;
  append_full = toy_append_full;
  append_room = toy_append_room;
}

abbrev toy_transfer : Ledger → Transfer → List Bytes → ℕ → ℕ → Option Ledger
toy_transfer l t seeds n decimals = elim (l t.source) [
  | none ↦ none
  | some a ↦
      let l1 = update t.source (record a { amount = a.amount - n }) l in
      elim (l1 t.destination) [
        | none ↦ none
        | some b ↦
            if leb n a.amount
            then some (update t.destination (record b { amount = b.amount + n }) l1)
            else none
      ]
]

-- A transfer that succeeds, taken apart.
record Moved (l : Ledger) (t : Transfer) (n : ℕ) (m : Ledger) : Type 0 where
  source : TokenAccount
  destination : TokenAccount
  source_found : l t.source ≡ some source
  destination_found :
      update t.source (record source { amount = source.amount - n }) l t.destination
      ≡ some destination
  covered : n ≤ source.amount
  result :
      m
      ≡ update t.destination
          (record destination { amount = destination.amount + n })
          (update t.source (record source { amount = source.amount - n }) l)

some-eq {ℓ} : {A : Type ℓ} (a b : A) → some a ≡ some b → a ≡ b
some-eq a b h = cc

if_some {ℓ} :
    {A : Type ℓ} (n k : ℕ) (x : A) {y : A}
    → (if leb n k then some x else none) ≡ some y
    → (n ≤ k) × (x ≡ y)
if_some n k x h = ground arith

toy_transfer-Moved :
    (l : Ledger) (t : Transfer) (seeds : List Bytes) (n decimals : ℕ) {m : Ledger}
    → toy_transfer l t seeds n decimals ≡ some m
    → Moved l t n m
toy_transfer-Moved l t seeds n decimals {m} e = elim (Option-cases (l t.source)) [
  | inl p ↦ absurd (cc (rw (p, toy_transfer) at e))
  | inr (a, p) ↦
      let l1 : Ledger = update t.source (record a { amount = a.amount - n }) l in
      elim (Option-cases (l1 t.destination)) [
        | inl q ↦ absurd (cc (rw (q, toy_transfer) at (rw (p, toy_transfer) at e)))
        | inr (b, q) ↦
            let (fits, same) =
              if_some n a.amount _ (rw (q, toy_transfer) at (rw (p, toy_transfer) at e)) in
            record {
              source = a;
              destination = b;
              source_found = p;
              destination_found = q;
              covered = fits;
              result = sym same;
            }
      ]
]

toy_moves :
    (l : Ledger) (t : Transfer) (seeds : List Bytes) (n decimals : ℕ) {m : Ledger}
    → toy_transfer l t seeds n decimals ≡ some m
    → t.source ≢ t.destination
    → (balance m t.source + n ≡ balance l t.source)
      × (balance m t.destination ≡ balance l t.destination + n)
toy_moves l t seeds n decimals {m} e h =
    let v = toy_transfer-Moved l t seeds n decimals e in
    ground (
      arith,
      v.source_found,
      v.destination_found,
      v.covered,
      ap (λ (f : Ledger). f t.source) v.result,
      ap (λ (f : Ledger). f t.destination) v.result,
    )

toy_others :
    (l : Ledger) (t : Transfer) (seeds : List Bytes) (n decimals : ℕ) {m : Ledger} (key : Pubkey)
    → toy_transfer l t seeds n decimals ≡ some m
    → key ≢ t.source
    → key ≢ t.destination
    → m key ≡ l key
toy_others l t seeds n decimals {m} key e h1 h2 =
    let v = toy_transfer-Moved l t seeds n decimals e in
    ground (arith, ap (λ (f : Ledger). f key) v.result)

toy_keeps :
    (l : Ledger) (t : Transfer) (seeds : List Bytes) (n decimals : ℕ) {m : Ledger} (key : Pubkey)
    (a : TokenAccount)
    → toy_transfer l t seeds n decimals ≡ some m
    → l key ≡ some a
    → (b : TokenAccount) × (m key ≡ some b) × (b.owner ≡ a.owner) × (b.mint ≡ a.mint)
toy_keeps l t seeds n decimals {m} key a e found =
    let v = toy_transfer-Moved l t seeds n decimals e in
    elim (Option-cases (m key)) [
      | inl p ↦
          absurd (
            ground
              (arith, v.source_found, v.destination_found, ap (λ (f : Ledger). f key) v.result))
      | inr (b, p) ↦ (
        b,
        p,
        ground (arith, v.source_found, v.destination_found, ap (λ (f : Ledger). f key) v.result),
        ground (arith, v.source_found, v.destination_found, ap (λ (f : Ledger). f key) v.result),
      )
    ]

abbrev toy_address : List Bytes → Pubkey → Pubkey
toy_address seeds program = be_bytes 32 (toy_sum 1 (seeds ++ program ∷ []))

abbrev pub toy_runtime : Runtime
toy_runtime = record {
  crypto = toy;
  tree = toy_tree;
  zeroed = record { height = 0; leaves = [] };
  find_program_address = λ seeds program. (toy_address (seeds ++ (255 ∷ []) ∷ []) program, 255);
  create_program_address = λ seeds program. some (toy_address seeds program);
  get_associated_token_address = λ wallet mint. be_bytes 32 (toy_sum 2 (wallet ∷ mint ∷ []));
  token_program = 6 ∷ [];
  associated_token_program = 16 ∷ [];
  invoke = λ program d. elim d [ [] ↦ false | b ∷ bs ↦ b == 1 ];
  transfer_checked = toy_transfer;
}

pub toy_runtime-IsRuntime : IsRuntime toy_runtime
toy_runtime-IsRuntime = record {
  is_crypto = toy-IsCrypto;
  is_tree = toy_tree-IsTreeLib;
  is_token = record {
    moves = λ l t seeds n decimals e h. toy_moves l t seeds n decimals e h;
    others = λ l t seeds n decimals key e h1 h2. toy_others l t seeds n decimals key e h1 h2;
    keeps = λ l t seeds n decimals key a e h. toy_keeps l t seeds n decimals key a e h;
  };
  bump_recreates = λ seeds program. refl;
}
