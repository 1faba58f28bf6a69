-- ===== src/Sdk/Transaction/Draws.antt =====
-- The random choices of `Transaction::plan` and `dummy_spend`, with a random source that does not fail.
use veil.Prelude.{
  ℕ, zero, suc, ◌+◌, ◌%◌, ◌^◌, ◌≤◌, ◌<◌, ◌≡◌, ◌≢◌, refl, not, some, true, List, [], ◌∷◌, ◌++◌,
  length, length-append, ◌==◌, arith, inl, inr, Bool-cases,
}
use veil.Prelude.Res.{ok}
use veil.Bytes.{Bytes, bytes_eq, bytes_eq_iff, be_value}
use veil.Crypto.{Crypto, IsCrypto, IsScalar}
use veil.Sdk.Field.{Field, Rng, zero_field, random}
use veil.Sdk.Field.Random.{Draws, accepted, rejected, random_iff}
use veil.Sdk.Note.{Send, nullifier, random_owner, dummy_send}
use veil.Sdk.Transaction.{
  Spend, random_fields, dummy_spend, pad_spends, pad_sends, swap_pair, shuffle_pair,
}

-- So many scalars other than zero, each within a number of draws.
pub data DrawsMany (rng : Rng) (draws : ℕ) : ℕ → rng.State → rng.State → Type 0 where
  nothing : (s : rng.State) → DrawsMany rng draws 0 s s
  another :
      (n m : ℕ) (s s1 s2 : rng.State) (f : Field)
      → m ≤ draws
      → Draws rng m s f s1
      → DrawsMany rng draws n s1 s2
      → DrawsMany rng draws (suc n) s s2

-- What one pass of the loop of `dummy_spend` draws, and the nullifier that it derives.
pub record Pass (c : Crypto) (rng : Rng) (draws : ℕ) (s s' : rng.State) (n : Field) : Type 0 where
  pub bytes : Bytes
  pub index_drawn : rng.State
  pub siblings_drawn : rng.State
  pub blind_drawn : rng.State
  pub spend_drawn : rng.State
  pub blind : Field
  pub spend : Field
  pub view : Field
  pub counts : ℕ × ℕ × ℕ
  pub few : (counts.0 ≤ draws) × (counts.1 ≤ draws) × (counts.2 ≤ draws)
  pub index : rng.try_fill_bytes 4 s ≡ some (bytes, index_drawn)
  pub siblings : DrawsMany rng draws 20 index_drawn siblings_drawn
  pub draws_blind : Draws rng counts.0 siblings_drawn blind blind_drawn
  pub draws_spend : Draws rng counts.1 blind_drawn spend spend_drawn
  pub draws_view : Draws rng counts.2 spend_drawn view s'
  pub derived : nullifier c (record { spend = spend; view = view }) (be_value bytes % 2 ^ 20) ≡ ok n

-- Passes of that loop up to the first whose nullifier is not zero.
pub data Passes (c : Crypto) (rng : Rng) (draws : ℕ) : ℕ → rng.State → Type 0 where
  fresh :
      (s s' : rng.State) (n : Field)
      → Pass c rng draws s s' n
      → n ≢ zero_field
      → Passes c rng draws 1 s
  stale :
      (k : ℕ) (s s' : rng.State)
      → Pass c rng draws s s' zero_field
      → Passes c rng draws k s'
      → Passes c rng draws (suc k) s

-- Every draw succeeds, a scalar other than zero comes within a number of draws, and a pass whose nullifier is
-- not zero comes within as many passes.
pub record IsLively (c : Crypto) (rng : Rng) (draws : ℕ) : Type 0 where
  pub fills :
      (n : ℕ) (s : rng.State)
      → (bs : Bytes) × (s' : rng.State) × (rng.try_fill_bytes n s ≡ some (bs, s'))
  pub scalar_within :
      (s : rng.State) → (n : ℕ) × (f : Field) × (s' : rng.State) × (n ≤ draws) × Draws rng n s f s'
  pub fresh_within : (s : rng.State) → (k : ℕ) × (k ≤ draws) × Passes c rng draws k s

drawn-IsScalar :
    (rng : Rng) {n : ℕ} {s s' : rng.State} {f : Field} → Draws rng n s f s' → IsScalar f
drawn-IsScalar rng (accepted s s' f e h nonzero) = h
drawn-IsScalar rng (rejected n s s1 s' bs f e bad more) = drawn-IsScalar rng more

module _ (c : Crypto) (C : IsCrypto c) (rng : Rng) (draws : ℕ) (L : IsLively c rng draws) (fuel : ℕ)
    (enough : draws < fuel) where
  random_lives :
      (s : rng.State)
      → (f : Field) × (s' : rng.State) × (random c rng fuel s ≡ ok (f, s')) × IsScalar f
  random_lives s =
      let (n, f, s', within, drawn) = L.scalar_within s in
      (
        f,
        s',
        (random_iff c C rng fuel s s' f).1 (n, omega (arith, within), drawn),
        drawn-IsScalar rng drawn,
      )

  drawn_random :
      (m : ℕ) (s s' : rng.State) (f : Field)
      → m ≤ draws
      → Draws rng m s f s'
      → random c rng fuel s ≡ ok (f, s')
  drawn_random m s s' f few drawn =
      (random_iff c C rng fuel s s' f).1 (m, omega (arith, few, enough), drawn)

  drawn_fields :
      (n : ℕ) (s s' : rng.State)
      → DrawsMany rng draws n s s'
      → (fs : List Field) × (random_fields c rng fuel n s ≡ ok (fs, s'))
  unfolding random_fields
  drawn_fields n s s' (nothing _) = ([], refl)
  drawn_fields n s s' (another k m _ s1 _ f few drawn more) =
      let (fs, e) = drawn_fields k s1 s' more in
      (f ∷ fs, rw (drawn_random m s s1 f few drawn, e) refl)

  fresh_test : (n z : Field) → n ≢ z → not (bytes_eq n z) ≡ true
  fresh_test n z h = ground arith

  -- The loop draws until a nullifier is not zero.
  dummy_spend_lives :
      (k passes : ℕ) (asset : Field) (s : rng.State)
      → k ≤ passes
      → Passes c rng draws k s
      → (d : Spend) × (s' : rng.State) × (dummy_spend c rng fuel passes asset s ≡ ok (d, s'))
  unfolding dummy_spend random_owner
  dummy_spend_lives k zero asset s le (fresh _ s' n pass nonzero) = absurd (omega (arith, le))
  dummy_spend_lives k (suc passes) asset s le (fresh _ s' n pass nonzero) =
      let (siblings, e1) = drawn_fields 20 pass.index_drawn pass.siblings_drawn pass.siblings in
      let drawn : Spend = record {
        note = record { value = 0; asset = asset; random = pass.blind };
        owner = record { spend = pass.spend; view = pass.view };
        merkle = record { index = be_value pass.bytes % 2 ^ 20; siblings = siblings };
      } in
      (
        drawn,
        s',
        rw
            (
              pass.index,
              e1,
              drawn_random pass.counts.0 _ _ _ pass.few.0 pass.draws_blind,
              drawn_random pass.counts.1 _ _ _ pass.few.1 pass.draws_spend,
              drawn_random pass.counts.2 _ _ _ pass.few.2 pass.draws_view,
              pass.derived,
              fresh_test n zero_field nonzero,
            )
            refl,
      )
  dummy_spend_lives k zero asset s le (stale k' _ s' pass more) = absurd (omega (arith, le))
  dummy_spend_lives k (suc passes) asset s le (stale k' _ s' pass more) =
      let (siblings, e1) = drawn_fields 20 pass.index_drawn pass.siblings_drawn pass.siblings in
      let (d, t, later) = dummy_spend_lives k' passes asset s' (omega (arith, le)) more in
      (
        d,
        t,
        rw
            (
              pass.index,
              e1,
              drawn_random pass.counts.0 _ _ _ pass.few.0 pass.draws_blind,
              drawn_random pass.counts.1 _ _ _ pass.few.1 pass.draws_spend,
              drawn_random pass.counts.2 _ _ _ pass.few.2 pass.draws_view,
              pass.derived,
              (bytes_eq_iff zero_field zero_field).1 refl,
            )
            later,
      )

  pub pad_spends_lives :
      (n : ℕ) (asset : Field) (inputs : List Spend) (s : rng.State)
      → (out : List Spend) × (s' : rng.State) × (pad_spends c rng fuel n asset inputs s
          ≡ ok (out, s'))
        × (length out ≡ length inputs + n)
  unfolding pad_spends
  pad_spends_lives zero asset inputs s = (inputs, s, refl, omega arith)
  pad_spends_lives (suc n) asset inputs s =
      let (k, few, passes) = L.fresh_within s in
      let (d, s1, drawn) = dummy_spend_lives k fuel asset s (omega (arith, few, enough)) passes in
      let (out, s2, e1, size) = pad_spends_lives n asset (inputs ++ d ∷ []) s1 in
      (out, s2, rw (drawn, e1) refl, omega (arith, size, length-append inputs (d ∷ [])))

  dummy_send_lives :
      (n : ℕ) (s : rng.State)
      → (d : Send) × (s' : rng.State) × (dummy_send c rng fuel n s ≡ ok (d, s'))
  unfolding dummy_send
  dummy_send_lives n s =
      let (bytes, s1, e0) = L.fills n s in
      let (owner, s2, e1, _) = random_lives s1 in
      let (blind, s3, e2, _) = random_lives s2 in
      let drawn : Send = record { owner = owner; value = 0; random = blind; encrypted = bytes } in
      (drawn, s3, rw (e0, e1, e2) refl)

  pub pad_sends_lives :
      (n payload_len : ℕ) (outputs : List Send) (s : rng.State)
      → (out : List Send) × (s' : rng.State) × (pad_sends c rng fuel n payload_len outputs s
          ≡ ok (out, s'))
        × (length out ≡ length outputs + n)
  unfolding pad_sends
  pad_sends_lives zero payload_len outputs s = (outputs, s, refl, omega arith)
  pad_sends_lives (suc n) payload_len outputs s =
      let (d, s1, e0) = dummy_send_lives payload_len s in
      let (out, s2, e1, size) = pad_sends_lives n payload_len (outputs ++ d ∷ []) s1 in
      (out, s2, rw (e0, e1) refl, omega (arith, size, length-append outputs (d ∷ [])))

  length-swap_pair {ℓ} : {A : Type ℓ} (xs : List A) → length (swap_pair c rng xs) ≡ length xs
  length-swap_pair [] = refl
  length-swap_pair (x ∷ []) = refl
  length-swap_pair (x ∷ y ∷ rest) = refl

  pub shuffle_pair_lives {ℓ} :
      {A : Type ℓ} (xs : List A) (s : rng.State)
      → (out : List A) × (s' : rng.State) × (shuffle_pair c rng xs s ≡ ok (out, s'))
        × (length out ≡ length xs)
  unfolding shuffle_pair
  shuffle_pair_lives xs s =
      let (choice, s1, e0) = L.fills 1 s in
      elim (Bool-cases (be_value choice % 2 == 1)) [
        | inl swapped ↦ (swap_pair c rng xs, s1, rw (e0, swapped) refl, length-swap_pair xs)
        | inr kept ↦ (xs, s1, rw (e0, kept) refl, refl)
      ]
