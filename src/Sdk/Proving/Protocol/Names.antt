-- ===== src/Sdk/Proving/Protocol/Names.antt =====
-- The names of the enumeration in crates/veil402-sdk/src/proving/worker/generated.rs.
use mathlib.Core.Option.{some-injective}
use veil.Prelude.{◌≡◌, ◌↔◌, refl, ap, ◌∙◌, some, inl, inr, Bool-cases}
use veil.Bytes.{Bytes, Bytes_discrete, bytes_eq, bytes_eq_iff, ascii}
use veil.Sdk.Proving.Protocol.{Failure, unspecified, prove_failed, as_str_name, from_str_name}

name_of : (f : Failure) → from_str_name (as_str_name f) ≡ some f
unfolding from_str_name as_str_name Bytes_discrete
name_of unspecified = refl
name_of prove_failed = refl

named : (value : Bytes) {f : Failure} → from_str_name value ≡ some f → value ≡ as_str_name f
unfolding from_str_name as_str_name
named value {f} e = elim (Bool-cases (bytes_eq value (ascii "FAILURE_UNSPECIFIED"))) [
  | inl first ↦
      (bytes_eq_iff value (ascii "FAILURE_UNSPECIFIED")).0 first
      ∙ ap as_str_name (some-injective unspecified f (rw first at e))
  | inr other ↦ elim (Bool-cases (bytes_eq value (ascii "FAILURE_PROVE_FAILED"))) [
    | inl second ↦
        (bytes_eq_iff value (ascii "FAILURE_PROVE_FAILED")).0 second
        ∙ ap as_str_name (some-injective prove_failed f (rw second at (rw other at e)))
    | inr neither ↦ absurd (cc (rw neither at (rw other at e)))
  ]
]

-- A string names a failure exactly when it is the failure's name.
from_str_name_iff :
    (value : Bytes) (f : Failure) → (from_str_name value ≡ some f) ↔ (value ≡ as_str_name f)
from_str_name_iff value f = (λ e. named value e, λ e. rw e (name_of f))
