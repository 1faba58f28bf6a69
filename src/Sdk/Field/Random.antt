-- ===== src/Sdk/Field/Random.antt =====
-- `Field::random` of crates/veil402-sdk/src/protocol/field.rs: rejection sampling.
use veil.Prelude.{
  ℕ, zero, suc, ◌≤◌, ◌≡◌, ◌≢◌, ◌↔◌, inl, inr, refl, sym, ◌∙◌, Bool, true, false, not, ◌&&◌, some,
  arith, Bool-cases,
}
use veil.Prelude.Res.{ok, ok_or, bind_inv, ok_or-eq-ok, ok-injective}
use mathlib.Core.Path.{subst}
use veil.Bytes.{Bytes, bytes_eq, Bytes_discrete}
use veil.Crypto.{Crypto, IsCrypto, IsScalar}
use veil.Program.Field as Program
use veil.Program.Field.Canonical.{is_canonical_field-IsScalar, is_canonical_field_iff}
use veil.Sdk.Error as Error
use veil.Sdk.Field.{Field, Rng, zero_field, parse_field, from_bytes, is_ok, random}
use veil.Sdk.Field.Laws.{field_bytes-eq}

-- Draws up to and with the first one that is a scalar other than zero.
pub data Draws (rng : Rng) : ℕ → rng.State → Field → rng.State → Type 0 where
  accepted :
      (s s' : rng.State) (f : Field)
      → rng.try_fill_bytes 32 s ≡ some (f, s')
      → IsScalar f
      → f ≢ zero_field
      → Draws rng 1 s f s'
  rejected :
      (n : ℕ) (s s1 s' : rng.State) (bs f : Field)
      → rng.try_fill_bytes 32 s ≡ some (bs, s1)
      → (IsScalar bs → bs ≡ zero_field)
      → Draws rng n s1 f s'
      → Draws rng (suc n) s f s'

and_nonzero_iff :
    (b : Bool) (bs z : Bytes) → ((b && not (bytes_eq bs z)) ≡ true) ↔ ((b ≡ true) × (bs ≢ z))
and_nonzero_iff b bs z = ground arith

module _ (c : Crypto) (C : IsCrypto c) (rng : Rng) where
  pub parses : (bs : Bytes) → is_ok c rng (from_bytes c bs) ≡ Program.is_canonical_field c bs
  unfolding from_bytes parse_field Program.is_canonical_field
  parses bs =
      rw (field_bytes-eq c C (c.from_be_bytes_mod_order bs))
        (elim (Bool-cases (bytes_eq (Program.field_bytes c (c.from_be_bytes_mod_order bs)) bs)) [
          | inl same ↦ rw same refl
          | inr other ↦ rw other refl
        ])

  usable_iff :
      (bs : Bytes)
      → ((is_ok c rng (from_bytes c bs) && not (bytes_eq bs zero_field)) ≡ true)
        ↔ (IsScalar bs × (bs ≢ zero_field))
  usable_iff bs = (
    λ e.
        let (parsed, nonzero) = (and_nonzero_iff _ bs zero_field).0 e in
        (is_canonical_field-IsScalar c C bs (sym (parses bs) ∙ parsed), nonzero),
    λ (h, nonzero).
        (and_nonzero_iff _ bs zero_field).1
          (parses bs ∙ (is_canonical_field_iff c C bs h.array).1 h.reduced, nonzero),
  )

  stale :
      (bs : Bytes)
      → (is_ok c rng (from_bytes c bs) && not (bytes_eq bs zero_field)) ≡ false
      → IsScalar bs
      → bs ≡ zero_field
  stale bs bad h = elim (Bytes_discrete bs zero_field) [
    | yes same ↦ same
    | no other ↦ absurd (cc (bad, (usable_iff bs).1 (h, other)))
  ]

  fresh :
      (bs : Bytes)
      → (IsScalar bs → bs ≡ zero_field)
      → (is_ok c rng (from_bytes c bs) && not (bytes_eq bs zero_field)) ≡ false
  fresh bs h = elim (Bool-cases (is_ok c rng (from_bytes c bs) && not (bytes_eq bs zero_field))) [
    | inl good ↦ let (scalar, other) = (usable_iff bs).0 good in absurd (other (h scalar))
    | inr bad ↦ bad
  ]

  sound :
      (fuel : ℕ) (s : rng.State) {f : Field} {s' : rng.State}
      → random c rng fuel s ≡ ok (f, s')
      → (n : ℕ) × (n ≤ fuel) × Draws rng n s f s'
  unfolding random
  sound zero s e = absurd (cc)
  sound (suc fuel) s {f} {s'} e =
      bind_inv (ok_or (rng.try_fill_bytes 32 s) Error.random) _ e λ (bs, s1) e0 h0.
        elim (Bool-cases (is_ok c rng (from_bytes c bs) && not (bytes_eq bs zero_field))) [
          | inl good ↦
              let same = ok-injective (bs, s1) (f, s') (rw good at h0) in
              let (scalar, nonzero) = (usable_iff bs).0 good in
              let drawn = accepted s s1 bs (ok_or-eq-ok _ _ e0) scalar nonzero in
              (1, omega arith, subst (λ (x : Field × rng.State). Draws rng 1 s x.0 x.1) same drawn)
          | inr bad ↦
              let (n, le, more) = sound fuel s1 (rw bad at h0) in
              (
                suc n,
                omega (arith, le),
                rejected n s s1 s' bs f (ok_or-eq-ok _ _ e0) (stale bs bad) more,
              )
        ]

  complete :
      {n : ℕ} {s : rng.State} {f : Field} {s' : rng.State}
      → Draws rng n s f s'
      → (fuel : ℕ) → n ≤ fuel
      → random c rng fuel s ≡ ok (f, s')
  unfolding random
  complete (accepted s s' f e scalar nonzero) zero le = absurd (omega (arith, le))
  complete (accepted s s' f e scalar nonzero) (suc fuel) le =
      rw (e, (usable_iff f).1 (scalar, nonzero)) refl
  complete (rejected n s s1 s' bs f e bad more) zero le = absurd (omega (arith, le))
  complete (rejected n s s1 s' bs f e bad more) (suc fuel) le =
      rw (e, fresh bs bad) (complete more fuel (omega (arith, le)))

  -- The loop returns a field element exactly when, within its fuel, it is the first of the draws that
  -- is a canonical scalar other than zero, and the draws before it succeed: any fuel from the number
  -- of draws on is enough.
  pub random_iff :
      (fuel : ℕ) (s s' : rng.State) (f : Field)
      → (random c rng fuel s ≡ ok (f, s')) ↔ ((n : ℕ) × (n ≤ fuel) × Draws rng n s f s')
  random_iff fuel s s' f = (sound fuel s, λ (n, le, draws). complete draws fuel le)
