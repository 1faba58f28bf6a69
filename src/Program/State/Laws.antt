-- ===== src/Program/State/Laws.antt =====
-- Addresses that are free, and maps after an update.
use veil.Prelude.{◌≡◌, ◌≢◌, Option, some, none, Bool, true, false, not, ◌||◌, arith}
use veil.Program.Runtime.{Pubkey, Runtime}
use veil.Program.State.{Chain, is_some, in_use, update}

pub not-true : (b : Bool) → not b ≡ true → b ≡ false
not-true b h = ground arith

or_false : (a b : Bool) → (a || b) ≡ false → (a ≡ false) × (b ≡ false)
or_false a b h = ground arith

module _ {ℓ} {A : Type ℓ} where
  is_some-false : (o : Option A) → is_some o ≡ false → o ≡ none
  is_some-false o h = ground arith

  pub update_self : (key : Pubkey) (a : A) (f : Pubkey → Option A) → update key a f key ≡ some a
  update_self key a f = ground arith

  pub update_ne :
      (key : Pubkey) (a : A) (f : Pubkey → Option A) (k : Pubkey) → key ≢ k → update key a f k ≡ f k
  update_ne key a f k h = ground arith

module _ (r : Runtime) where
  -- An address that is not in use holds no account of the program and no token account.
  pub in_use_free :
      (s : Chain r) (key : Pubkey)
      → in_use s key ≡ false
      → (s.pools key ≡ none)
        × (s.trees key ≡ none)
        × (s.nullifiers key ≡ none)
        × (s.tokens key ≡ none)
  in_use_free s key h =
      let (p, h1) = or_false (is_some (s.pools key)) _ h in
      let (t, h2) = or_false (is_some (s.trees key)) _ h1 in
      let (n, h3) = or_false (is_some (s.nullifiers key)) _ h2 in
      let (l, _) = or_false (is_some (s.tokens key)) _ h3 in
      (is_some-false _ p, is_some-false _ t, is_some-false _ n, is_some-false _ l)
