-- ===== src/Sdk/Transaction/Completeness.antt =====
-- `Plan::values` succeeds whenever the circuit's statement holds.
use veil.Prelude.{
  ℕ, ◌^◌, ◌<◌, ◌≡◌, ◌≢◌, ◌↔◌, ◌⊎◌, inl, inr, refl, true, false, not, Option, none, some, ltb, ◌==◌,
  arith, ℕ_discrete,
}
use veil.Prelude.Int.{ℤ}
use veil.Prelude.Res.{ok}
use veil.Bytes.{Bytes, bytes_eq, bytes_eq_iff}
use veil.Crypto.{Crypto}
use veil.Sdk.Field.{Field, zero_field}
use veil.Sdk.Transaction.{
  Spend, Plan, Public, Values, agrees, int_eq, join_root, check_spend, values,
}
use veil.Sdk.Transaction.Statement.{IsMember, IsSpendable, IsStatement, values-IsStatement}

apart_complete : (a b : Bytes) → a ≢ b → not (bytes_eq a b) ≡ true
apart_complete a b h = ground arith

zero_test : (n : ℕ) → n ≡ 0 → (n == 0) ≡ true
zero_test n h = ground arith

more_test : (n : ℕ) → n ≢ 0 → (n == 0) ≡ false
more_test n h = ground arith

fits_test : (m n : ℕ) → m < n → ltb m n ≡ true
fits_test m n h = ground arith

int_eq_self : (x : ℤ) → int_eq x x ≡ true
int_eq_self x = ground arith

int_eq_complete : (a b : ℤ) → a ≡ b → int_eq a b ≡ true
int_eq_complete a b h = rw h (int_eq_self b)

module _ (c : Crypto) where
  join_zero : (root : Option Field) (s : Spend) → s.note.value ≡ 0 → join_root c root s ≡ ok root
  unfolding join_root
  join_zero root s z = rw (zero_test s.note.value z) refl

  join_more :
      (root : Option Field) (s : Spend) (r : Field)
      → s.note.value ≢ 0
      → IsMember c s r
      → agrees root r ≡ true
      → join_root c root s ≡ ok (some r)
  unfolding join_root
  join_more root s r nz m a = rw (more_test s.note.value nz, m.committed, m.path, a) refl

  check_ok :
      (root : Option Field) (s : Spend) {n : Field} {root' : Option Field}
      → IsSpendable c s n
      → join_root c root s ≡ ok root'
      → check_spend c root s ≡ ok (n, root')
  unfolding check_spend
  check_ok root s {n} h j =
      rw
        (
          fits_test s.merkle.index (2 ^ 20) h.index_fits,
          h.derived,
          apart_complete n zero_field h.nonzero,
          j,
        )
        refl

  -- The loop ends with the shared root.
  both_join :
      (s t : Spend) (r : Field)
      → (s.note.value ≢ 0 → IsMember c s r)
      → (t.note.value ≢ 0 → IsMember c t r)
      → (s.note.value ≢ 0) ⊎ (t.note.value ≢ 0)
      → (root0 : Option Field) × (join_root c none s ≡ ok root0)
        × (join_root c root0 t ≡ ok (some r))
  both_join s t r ms mt real = elim (ℕ_discrete s.note.value 0) [
    | yes zs ↦
        let nt : t.note.value ≢ 0 = elim real [ inl ns ↦ absurd (ns zs) | inr nt ↦ nt ] in
        (none, join_zero none s zs, join_more none t r nt (mt nt) refl)
    | no ns ↦
        let first = join_more none s r ns (ms ns) refl in
        elim (ℕ_discrete t.note.value 0) [
          | yes zt ↦ (some r, first, join_zero (some r) t zt)
          | no nt ↦ (some r, first, join_more (some r) t r nt (mt nt) ((bytes_eq_iff r r).1 refl))
        ]
  ]

  complete :
      (p : Plan) (public : Public) (v : Values)
      → IsStatement c p public v
      → values c p public ≡ ok v
  unfolding values
  complete p public v s =
      let (root0, j0, j1) =
        both_join p.spends.0 p.spends.1 v.public.root s.member_0 s.member_1 s.real in
      rw
        (
          check_ok none p.spends.0 s.spend_0 j0,
          check_ok root0 p.spends.1 s.spend_1 j1,
          apart_complete _ _ s.distinct,
          s.key_0,
          s.key_1,
          s.commitment_0,
          s.commitment_1,
          int_eq_complete _ _ s.conserved,
          ← s.amount,
          ← s.hash,
        )
        refl

  -- Values are computed for a plan exactly when they are those of the circuit's statement: the inputs
  -- with the signed amount are the outputs over the integers; the indices are below 2^20; the
  -- nullifiers are those of the spends, are not zero and differ; every spend of a value other than
  -- zero is in the tree with the public root, and there is one; and commitments, amount and hash are
  -- those of the plan.
  pub values_iff :
      (p : Plan) (public : Public) (v : Values)
      → (values c p public ≡ ok v) ↔ IsStatement c p public v
  values_iff p public v = (values-IsStatement c p public, complete p public v)
