-- ===== src/Sdk/Os/Laws.antt =====
-- Inversion of successful calls.
use veil.Prelude.{Bool, true, false, ◌≡◌, refl, ap}
use veil.Prelude.Res.{ok, err}
use veil.Sdk.Error.{Res}
use veil.Sdk.Os.{Os, Io, Timed, finished, continue, by_deadline}

module _ {ℓ κ} {W : Type 0} {A : Type ℓ} {B : Type κ} where
  -- A call that succeeds has succeeded in its first part.
  pub continue_inv :
      (x : Res A × W) (f : A → Io W B) {b : B}
      → (continue x f).0 ≡ ok b
      → (a : A) × (w : W) × (x.0 ≡ ok a) × ((f a w).0 ≡ ok b)
  continue_inv (ok a, w) f e = (a, w, refl, e)
  continue_inv (err x, w) f e = absurd (cc)

module _ {ℓ κ} {W : Type 0} {A : Type ℓ} {B : Type κ} where
  -- The same, with the worlds between the parts.
  pub continue_split :
      (x : Res A × W) (f : A → Io W B) {b : B}
      → (continue x f).0 ≡ ok b
      → (a : A) × (w : W) × (x ≡ (ok a, w)) × (continue x f ≡ f a w)
  continue_split (ok a, w) f e = (a, w, refl, refl)
  continue_split (err x, w) f e = absurd (cc)

finished-injective {ℓ} :
    {A : Type ℓ} (r s : Res A) → ◌≡◌ {A = Timed A} (finished r) (finished s) → r ≡ s
finished-injective r s e = cc

module _ {ℓ} {A : Type ℓ} (os : Os) where
  -- What finishes in time is the result of the call.
  pub by_deadline_finished :
      (late : Bool) (m : Io os.World A) (w : os.World) {r : Res A}
      → (by_deadline os late m w).0 ≡ finished r
      → (m w).0 ≡ r
  by_deadline_finished true m w e = absurd (cc)
  by_deadline_finished false m w {r} e = finished-injective (m w).0 r e

  -- An exchange that finishes has not met its deadline, and leaves the world that it leads to.
  pub by_deadline_in_time :
      (late : Bool) (m : Io os.World A) (w : os.World) {r : Res A}
      → (by_deadline os late m w).0 ≡ finished r
      → (late ≡ false) × (by_deadline os late m w ≡ (finished r, (m w).1))
  by_deadline_in_time true m w e = absurd (cc)
  by_deadline_in_time false m w {r} e = (refl, ap (λ (x : Timed A). (x, (m w).1)) e)
