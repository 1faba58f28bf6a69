-- ===== src/Sdk/Transaction/Termination.antt =====
-- When `Transaction::plan` of crates/veil402-sdk/src/protocol/transaction.rs produces a plan.
use veil.Prelude.{
  ℕ, ◌+◌, ◌-◌, ◌≤◌, ◌<◌, ◌≡◌, ◌↔◌, refl, sym, ap, ◌∙◌, Bool, true, false, not, some, List, [], ◌∷◌,
  length, any, All, arith,
}
use veil.Prelude.Res.{ok, ok_or, require, bind_inv, then_inv, require-eq-ok, ok_or-eq-ok}
use veil.Bytes.{bytes_eq, bytes_eq_iff}
use veil.Crypto.{Crypto, IsCrypto}
use veil.Sdk.Error.{transaction}
use veil.Sdk.Field.{Field, Rng}
use veil.Sdk.Transaction.{Spend, Transaction, Plan, slots, try_pair, payload_length, plan}
use veil.Sdk.Transaction.Padding.{try_pair_inv}
use veil.Sdk.Transaction.Draws.{IsLively, pad_spends_lives, pad_sends_lives, shuffle_pair_lives}

-- A transaction that can be planned: its spends are of the asset, and there are at most two of each.
pub record IsPlannable (t : Transaction) (asset : Field) : Type 0 where
  pub same_asset : All (λ (spend : Spend). spend.note.asset ≡ asset) t.spends
  pub few_spends : length t.spends ≤ 2
  pub few_sends : length t.sends ≤ 2

abbrev of_asset : Field → Spend → Bool
of_asset asset spend = not (bytes_eq spend.note.asset asset)

no_strangers :
    (asset : Field) (spends : List Spend)
    → (any (of_asset asset) spends ≡ false)
      ↔ All (λ (spend : Spend). spend.note.asset ≡ asset) spends
no_strangers asset [] = (λ e. tt, λ h. refl)
no_strangers asset (spend ∷ spends) = (
  λ e. (ground arith, (no_strangers asset spends).0 (ground arith)),
  λ h. rw ((bytes_eq_iff _ _).1 h.0) ((no_strangers asset spends).1 h.1),
)

pair_of :
    (c : Crypto) (rng : Rng) {A : Type 0} (xs : List A)
    → length xs ≡ 2
    → (p : A × A) × (try_pair c rng xs ≡ some p)
pair_of c rng [] h = absurd (omega (arith, h))
pair_of c rng (x ∷ []) h = absurd (omega (arith, h))
pair_of c rng (x ∷ y ∷ []) h = ((x, y), refl)
pair_of c rng (x ∷ y ∷ z ∷ rest) h = absurd (omega (arith, h))

module _ (c : Crypto) (C : IsCrypto c) (rng : Rng) (draws : ℕ) (L : IsLively c rng draws)
    (fuel : ℕ) where
  plan_lives :
      (t : Transaction) (asset : Field) (s : rng.State)
      → draws < fuel
      → IsPlannable t asset
      → (p : Plan) × (s' : rng.State) × (plan c rng fuel t asset s ≡ ok (p, s'))
  unfolding plan
  plan_lives t asset s enough h =
      let known = (no_strangers asset t.spends).1 h.same_asset in
      let (inputs, s1, e1, size1) =
        pad_spends_lives c C rng draws L fuel enough (slots - length t.spends) asset t.spends s in
      let (outputs, s2, e2, size2) =
        pad_sends_lives c C rng draws L fuel enough (slots - length t.sends)
          (payload_length c rng t.sends) t.sends s1 in
      let (inputs', s3, e3, size3) = shuffle_pair_lives c C rng draws L fuel enough inputs s2 in
      let (outputs', s4, e4, size4) = shuffle_pair_lives c C rng draws L fuel enough outputs s3 in
      let (spends, e5) = pair_of c rng inputs' (omega (arith, size1, size3, h.few_spends)) in
      let (sends, e6) = pair_of c rng outputs' (omega (arith, size2, size4, h.few_sends)) in
      let made : Plan = record { spends = spends; sends = sends; asset = asset } in
      (made, s4, rw (known, e1, e2, e3, e4, e5, e6) refl)

  not_any : (b : Bool) → not b ≡ true → b ≡ false
  not_any b h = ground arith

  length-pair : {A : Type 0} (xs : List A) {p : A × A} → try_pair c rng xs ≡ some p → length xs ≡ 2
  length-pair xs e = ap length (sym (try_pair_inv c rng xs e))

  padded_fits : (n m : ℕ) → n + (2 - n) ≡ m → m ≡ 2 → n ≤ 2
  padded_fits n m e h = omega (arith, e, h)

  plan-IsPlannable :
      (t : Transaction) (asset : Field) (s : rng.State) {x : Plan × rng.State}
      → draws < fuel
      → plan c rng fuel t asset s ≡ ok x
      → IsPlannable t asset
  unfolding plan
  plan-IsPlannable t asset s enough e =
      let (inputs, s1, e1, size1) =
        pad_spends_lives c C rng draws L fuel enough (slots - length t.spends) asset t.spends s in
      let (outputs, s2, e2, size2) =
        pad_sends_lives c C rng draws L fuel enough (slots - length t.sends)
          (payload_length c rng t.sends) t.sends s1 in
      let (inputs', s3, e3, size3) = shuffle_pair_lives c C rng draws L fuel enough inputs s2 in
      let (outputs', s4, e4, size4) = shuffle_pair_lives c C rng draws L fuel enough outputs s3 in
      then_inv
        (require (not (any (of_asset asset) t.spends))
          (transaction "spend asset does not match the pool"))
        _ e
        λ known h0.
          bind_inv (ok_or (try_pair c rng inputs') (transaction "invalid spend arity")) _
            (rw (e1, e2, e3, e4) at h0)
            λ spends e5 h5.
              bind_inv (ok_or (try_pair c rng outputs') (transaction "invalid send arity")) _ h5
                λ sends e6 h6. record {
                  same_asset = (no_strangers asset t.spends).0 (
                      not_any _ (
                        require-eq-ok _ (transaction "spend asset does not match the pool") known));
                  few_spends =
                      padded_fits _ _ (sym (size3 ∙ size1))
                        (length-pair inputs' (ok_or-eq-ok _ _ e5));
                  few_sends =
                      padded_fits _ _ (sym (size4 ∙ size2))
                        (length-pair outputs' (ok_or-eq-ok _ _ e6));
                }

  -- With a random source whose draws succeed, bring a scalar other than zero within so many draws, and bring a
  -- dummy spend whose nullifier is not zero within as many passes, and with more fuel than that, a transaction is planned exactly when its
  -- spends are of the pool's asset and it has at most two spends and at most two sends.
  pub plan_iff :
      (t : Transaction) (asset : Field) (s : rng.State)
      → draws < fuel
      → ((p : Plan) × (s' : rng.State) × (plan c rng fuel t asset s ≡ ok (p, s')))
        ↔ IsPlannable t asset
  plan_iff t asset s enough =
      (λ (p, s', e). plan-IsPlannable t asset s enough e, λ h. plan_lives t asset s enough h)
