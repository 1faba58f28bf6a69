-- ===== src/Program/DoubleSpend.antt =====
-- A nullifier is spent once: its record is created by the transaction that spends it, is never taken
-- away, and stops every later transaction that names it.
use mathlib.Core.Path.{fun_ext}
use veil.Prelude.{◌≡◌, ◌≢◌, sym, ap, ◌∙◌, ◌⊎◌, inl, inr, Option, none, arith}
use veil.Prelude.Res.{ok}
use veil.Bytes.{Bytes}
use veil.Program.Runtime.{Pubkey, Runtime}
use veil.Program.State.{Chain, update}
use veil.Program.Tree.Effects.{insert_frame, initialize_inv}
use veil.Program.Initialize.Effects.{init_pool_inv}
use veil.Program.Shield.Effects.{shield-Deposited}
use veil.Program.Transact.{TransactArgs, TransactAccounts, spend, transact}
use veil.Program.Transact.Run.{Run, transact-Run}
use veil.Program.Transact.Effects.{
  record_address, init_nullifier_inv, pay-Payment, Payment-frame, insert_outputs_inv,
}
use veil.Program.Steps.{Step, initializes, shields, transacts, elsewhere, Reach, here, next}

-- `n` is one of the two.
abbrev pub IsOneOf : Bytes → Bytes × Bytes → Type 0
IsOneOf n p = (n ≡ p.0) ⊎ (n ≡ p.1)

abbrev pub IsSpent : {r : Runtime} → Chain r → Pubkey → Type 0
IsSpent s key = s.nullifiers key ≢ none

module _ {ℓ} {A : Type ℓ} where
  -- Writing two entries twice is writing them once.
  update_twice :
      (k0 k1 : Pubkey) (a b z : A) (f : Pubkey → Option A)
      → update k1 b (update k0 a (update k1 z (update k0 z f))) ≡ update k1 b (update k0 a f)
  update_twice k0 k1 a b z f = fun_ext λ k. ground arith

  -- A second write removes no entry.
  update_pair_keeps :
      (k0 k1 : Pubkey) (a b : A) (f : Pubkey → Option A) (k : Pubkey)
      → f k ≢ none
      → update k1 b (update k0 a f) k ≢ none
  update_pair_keeps k0 k1 a b f k h = ground arith

  update_pair_first :
      (k0 k1 : Pubkey) (a b : A) (f : Pubkey → Option A) → update k1 b (update k0 a f) k0 ≢ none
  update_pair_first k0 k1 a b f = ground arith

  update_pair_second :
      (k0 k1 : Pubkey) (a b : A) (f : Pubkey → Option A) → update k1 b (update k0 a f) k1 ≢ none
  update_pair_second k0 k1 a b f = ground arith

  free-ne :
      (k0 k1 : Pubkey) (z : A) (f : Pubkey → Option A)
      → update k0 z f k1 ≡ none
      → (k0 ≢ k1) × (f k1 ≡ none)
  free-ne k0 k1 z f h = ground arith

module _ (r : Runtime) where
  -- From the records created to the end of the call only `spend` writes them.
  stages_nullifiers :
      (s : Chain r) (k : TransactAccounts) (x : TransactArgs) {t : Chain r} (run : Run r s k x t)
      → t.nullifiers ≡ (spend r run.second_init k x.nullifiers).nullifiers
  stages_nullifiers s k x run =
      let (u, e0, e1) =
        insert_outputs_inv r run.paid k.tree x.out_commitments x.ext_data.encrypted_notes
          run.outputs in
      ap (λ (c : Chain r). c.nullifiers) run.result
      ∙ (insert_frame r u k.tree x.out_commitments.1 x.ext_data.encrypted_notes.1 e1).1
      ∙ (insert_frame r run.paid k.tree x.out_commitments.0 x.ext_data.encrypted_notes.0 e0).1
      ∙ (Payment-frame r
          (pay-Payment r _ k run.accounts x.ext_amount x.ext_data.recipient run.payment)).2

  -- A successful transaction finds no record of either nullifier, and adds one for each; nothing
  -- happens to other records.
  pub transact_records :
      (s : Chain r) (k : TransactAccounts) (x : TransactArgs) {t : Chain r}
      → transact r s k x ≡ ok t
      → (k.nullifier_0_record ≡ record_address r k.pool x.nullifiers.0)
        × (k.nullifier_1_record ≡ record_address r k.pool x.nullifiers.1)
        × (s.nullifiers k.nullifier_0_record ≡ none)
        × (s.nullifiers k.nullifier_1_record ≡ none)
        × (k.nullifier_0_record ≢ k.nullifier_1_record)
        × (t.nullifiers
            ≡ update k.nullifier_1_record
                (record { nullifier = x.nullifiers.1 })
                (update k.nullifier_0_record (record { nullifier = x.nullifiers.0 }) s.nullifiers))
  unfolding spend
  transact_records s k x e =
      let run = transact-Run r s k x e in
      let (a0, free0, same0) =
        init_nullifier_inv r s k.pool k.nullifier_0_record x.nullifiers.0 run.init_0 in
      let (a1, free1, same1) =
        init_nullifier_inv r run.first_init k.pool k.nullifier_1_record x.nullifiers.1 run.init_1 in
      let (apart, free1') =
        free-ne k.nullifier_0_record k.nullifier_1_record _ s.nullifiers (rw same0 at free1) in
      (
        a0,
        a1,
        free0,
        free1',
        apart,
        stages_nullifiers s k x run ∙ rw (same1, same0) (update_twice _ _ _ _ _ s.nullifiers),
      )

  -- No step of the chain takes a record away.
  Step-IsSpent : {s t : Chain r} → Step r s t → (key : Pubkey) → IsSpent s key → IsSpent t key
  Step-IsSpent {s} {t} (initializes k domain e) key h =
      let (u, id, created, _, _, e1) = init_pool_inv r s k domain e in
      let (_, _, _, _, _, same) = initialize_inv r _ k.tree e1 in
      rw
        (ap (λ (c : Chain r). c.nullifiers) same, ap (λ (c : Chain r). c.nullifiers) created.result)
        h
  Step-IsSpent {s} {t} (shields k npk amount note _ e) key h =
      let d = shield-Deposited r s k npk amount note e in
      rw ((insert_frame r _ k.tree d.commitment note d.result).1) h
  Step-IsSpent {s} {t} (transacts k x e) key h =
      rw ((transact_records s k x e).5) (update_pair_keeps _ _ _ _ s.nullifiers key h)
  Step-IsSpent (elsewhere foreign) key h = rw foreign.nullifiers h

  Reach-IsSpent : {s t : Chain r} → Reach r s t → (key : Pubkey) → IsSpent s key → IsSpent t key
  Reach-IsSpent here key h = h
  Reach-IsSpent (next past step) key h = Step-IsSpent step key (Reach-IsSpent past key h)

  -- After a transaction both of its nullifiers are spent.
  spends :
      (s : Chain r) (k : TransactAccounts) (x : TransactArgs) {t : Chain r} (n : Bytes)
      → transact r s k x ≡ ok t
      → IsOneOf n x.nullifiers
      → IsSpent t (record_address r k.pool n)
  spends s k x n e which =
      let (a0, a1, _, _, _, same) = transact_records s k x e in
      elim which [
        | inl first ↦ rw (same, first, ← a0) (update_pair_first _ _ _ _ s.nullifiers)
        | inr second ↦ rw (same, second, ← a1) (update_pair_second _ _ _ _ s.nullifiers)
      ]

  -- Before it neither was.
  finds_unspent :
      (s : Chain r) (k : TransactAccounts) (x : TransactArgs) {t : Chain r} (n : Bytes)
      → transact r s k x ≡ ok t
      → IsOneOf n x.nullifiers
      → s.nullifiers (record_address r k.pool n) ≡ none
  finds_unspent s k x n e which =
      let (a0, a1, free0, free1, _, _) = transact_records s k x e in
      elim which [ inl first ↦ rw (first, ← a0) free0 | inr second ↦ rw (second, ← a1) free1 ]

  -- Once a transaction has succeeded, whatever happens on the chain afterwards, no transaction of
  -- the same pool that names one of its nullifiers, in either place, succeeds.
  pub no_double_spend :
      (s : Chain r) (k : TransactAccounts) (x : TransactArgs) {t u v : Chain r} (n : Bytes)
      (k' : TransactAccounts) (y : TransactArgs)
      → transact r s k x ≡ ok t
      → Reach r t u
      → k'.pool ≡ k.pool
      → IsOneOf n x.nullifiers
      → IsOneOf n y.nullifiers
      → transact r u k' y ≢ ok v
  no_double_spend s k x {t} {u} n k' y e later same spent again e' =
      Reach-IsSpent later (record_address r k.pool n) (spends s k x n e spent)
        (rw same at (finds_unspent u k' y n e' again))

  -- Nor does a transaction succeed that names one nullifier twice.
  no_duplicate_nullifiers :
      (s : Chain r) (k : TransactAccounts) (x : TransactArgs) {t : Chain r}
      → transact r s k x ≡ ok t
      → x.nullifiers.0 ≢ x.nullifiers.1
  no_duplicate_nullifiers s k x e same =
      let (a0, a1, _, _, apart, _) = transact_records s k x e in
      apart (a0 ∙ ap (record_address r k.pool) same ∙ sym a1)
