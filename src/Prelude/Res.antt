-- ===== src/Prelude/Res.antt =====
-- Rust's `Result`, and computations over a state that an error discards, as the runtime discards
-- the writes of a failed instruction.
use mathlib.Core.Path.{◌≡◌, refl}
use mathlib.Core.Bool.{Bool, true, false}
use mathlib.Core.Logic.{◌⊎◌, inl, inr}
use mathlib.Core.Option.{Option, none, some}
use native.Mathlib.Omega.{arith}

pub data Result {ℓ κ} (E : Type ℓ) (A : Type κ) : Type (ℓ ⊔ κ) where
  ok : A → Result E A
  err : E → Result E A

module _ {ℓ κ} {E : Type ℓ} {A : Type κ} where
  -- `ok_or` and `map_err(|_| e)` on a call that tells success from failure only
  abbrev pub ok_or : Option A → E → Result E A
  ok_or none e = err e
  ok_or (some a) e = ok a

  pub ok_or-eq-ok : (o : Option A) (e : E) {a : A} → ok_or o e ≡ ok a → o ≡ some a
  ok_or-eq-ok o e h = ground arith

  pub ok-injective : (a b : A) → ◌≡◌ {A = Result E A} (ok a) (ok b) → a ≡ b
  ok-injective a b h = cc

  pub Result-cases : (r : Result E A) → ((a : A) × (r ≡ ok a)) ⊎ ((e : E) × (r ≡ err e))
  Result-cases (ok a) = inl (a, refl)
  Result-cases (err e) = inr (e, refl)

module _ {ℓ} {E : Type ℓ} where
  -- `require!(test, e)`
  abbrev pub require : Bool → E → Result E (Unit {0})
  require true e = ok tt
  require false e = err e

  pub require-true : (b : Bool) (e : E) → b ≡ true → require b e ≡ ok tt
  require-true b e h = rw h

  pub require-eq-ok : (b : Bool) (e : E) {u : Unit {0}} → require b e ≡ ok u → b ≡ true
  require-eq-ok b e h = ground arith

module _ {ℓ κ ι} {E : Type ℓ} {A : Type κ} {B : Type ι} where
  infixl 5 ◌>>=◌
  abbrev pub ◌>>=◌ : Result E A → (A → Result E B) → Result E B
  ok a >>= f = f a
  err e >>= f = err e

  -- A successful chain, with its parts handed on as variables.
  pub bind_inv {μ} :
      {P : Type μ} (m : Result E A) (f : A → Result E B) {b : B}
      → (m >>= f) ≡ ok b
      → ((a : A) → m ≡ ok a → f a ≡ ok b → P)
      → P
  bind_inv (ok a) f h k = k a refl h
  bind_inv (err e) f h k = absurd (cc)

  pub bind_ok :
      (m : Result E A) (f : A → Result E B) {a : A} {b : B}
      → m ≡ ok a
      → f a ≡ ok b
      → (m >>= f) ≡ ok b
  bind_ok m f e h = rw e h

module _ {ℓ ι} {E : Type ℓ} {B : Type ι} where
  infixl 5 ◌>>◌
  abbrev pub ◌>>◌ : Result E (Unit {0}) → Result E B → Result E B
  m >> k = m >>= λ _. k

  pub then_inv {μ} :
      {P : Type μ} (m : Result E (Unit {0})) (k : Result E B) {b : B}
      → (m >> k) ≡ ok b
      → (m ≡ ok tt → k ≡ ok b → P)
      → P
  then_inv (ok a) k h p = p refl h
  then_inv (err e) k h p = absurd (cc)

  pub then_ok :
      (m : Result E (Unit {0})) (k : Result E B) {b : B} → m ≡ ok tt → k ≡ ok b → (m >> k) ≡ ok b
  then_ok m k e h = rw e h
