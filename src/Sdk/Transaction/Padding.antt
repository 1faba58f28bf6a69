-- ===== src/Sdk/Transaction/Padding.antt =====
-- What `Transaction::plan` adds to a transaction: dummies of value zero, and an order.
use mathlib.Core.List.{Perm, append_assoc, append-nil}
use mathlib.Core.List.Perm
use mathlib.Core.Path.{subst}
use native.Mathlib.Nat.{mod-lt}
use veil.Prelude.{
  ℕ, zero, suc, ◌-◌, ◌%◌, ◌^◌, ◌<◌, ◌≡◌, ◌≢◌, refl, sym, ap, ◌∙◌, true, not, some, List, [], ◌∷◌,
  ◌++◌, length, any, ◌==◌, ==_iff, leb, leb_iff, ◌≤◌, ◌⊎◌, All, arith, inl, inr, Bool-cases,
}
use veil.Prelude.Res.{ok, ok_or, require, bind_inv, then_inv, ok_or-eq-ok, ok-injective}
use veil.Bytes.{bytes_eq, be_value}
use veil.Crypto.{Crypto}
use veil.Sdk.Error as Error
use veil.Sdk.Error.{Res, transaction}
use veil.Sdk.Field.{Field, Rng, IsRng, zero_field, random}
use veil.Sdk.Note.{Send, nullifier, random_owner, dummy_send}
use veil.Sdk.Transaction.{
  Spend, Transaction, Plan, tree_depth, slots, random_fields, dummy_spend, pad_spends, pad_sends,
  swap_pair, shuffle_pair, try_pair, payload_length, plan,
}

-- A spend of nothing, of the pool's asset, with a usable nullifier.
pub record IsDummySpend (c : Crypto) (asset : Field) (s : Spend) : Type 0 where
  pub worthless : s.note.value ≡ 0
  pub same_asset : s.note.asset ≡ asset
  pub index_fits : s.merkle.index < 2 ^ 20
  pub siblings_size : length s.merkle.siblings ≡ 20
  pub mark : Field
  pub derived : nullifier c s.owner s.merkle.index ≡ ok mark
  pub nonzero : mark ≢ zero_field

-- Items that are, in some order, the given ones and dummies that fill the slots.
pub record IsPadded {ℓ} {A : Type ℓ} (IsDummy : A → Type 0) (given : List A) (items : A × A)
    : Type ℓ where
  pub dummies : List A
  pub missing : length dummies ≡ 2 - length given
  pub all_dummies : All IsDummy dummies
  pub order : Perm (items.0 ∷ items.1 ∷ []) (given ++ dummies)

-- An output of nothing whose payload has the length of the longest real one.
pub record IsDummySend (payload_len : ℕ) (s : Send) : Type 0 where
  pub worthless : s.value ≡ 0
  pub payload_size : length s.encrypted ≡ payload_len

-- The length of the longest payload of some outputs, or zero where there are none.
pub record IsLongest (n : ℕ) (sends : List Send) : Type 0 where
  pub bounds : All (λ (send : Send). length send.encrypted ≤ n) sends
  pub reached : (n ≡ 0) ⊎ (any (λ (send : Send). length send.encrypted == n) sends ≡ true)

module _ (c : Crypto) (rng : Rng) where
  length-random_fields :
      (fuel n : ℕ) (s : rng.State) {fs : List Field} {s' : rng.State}
      → random_fields c rng fuel n s ≡ ok (fs, s')
      → length fs ≡ n
  unfolding random_fields
  length-random_fields fuel zero s e =
      ap (λ (x : List Field × rng.State). length x.0) (sym (ok-injective _ _ e))
  length-random_fields fuel (suc n) s e = bind_inv (random c rng fuel s) _ e λ (f, s1) e0 h0.
      bind_inv (random_fields c rng fuel n s1) _ h0 λ (rest, s2) e1 h1.
        ap (λ (x : List Field × rng.State). length x.0) (sym (ok-injective _ _ h1))
        ∙ ap suc (length-random_fields fuel n s1 e1)

  dummy_spend-IsDummySpend :
      (fuel passes : ℕ) (asset : Field) (s : rng.State) {d : Spend} {s' : rng.State}
      → dummy_spend c rng fuel passes asset s ≡ ok (d, s')
      → IsDummySpend c asset d
  unfolding dummy_spend
  dummy_spend-IsDummySpend fuel zero asset s e = absurd (cc)
  dummy_spend-IsDummySpend fuel (suc passes) asset s {d} {s'} e =
      bind_inv (ok_or (rng.try_fill_bytes 4 s) Error.random) _ e λ (bytes, s1) e0 h0.
        bind_inv (random_fields c rng fuel tree_depth s1) _ h0 λ (siblings, s2) e1 h1.
          bind_inv (random c rng fuel s2) _ h1 λ (blind, s3) e2 h2.
            bind_inv (random_owner c rng fuel s3) _ h2 λ (owner, s4) e3 h3.
              bind_inv (nullifier c owner (be_value bytes % 2 ^ tree_depth)) _ h3 λ n e4 h4.
                elim (Bool-cases (not (bytes_eq n zero_field))) [
                  | inl fresh ↦
                      let found =
                        ap (λ (x : Spend × rng.State). x.0)
                          (ok-injective _ (d, s') (rw fresh at h4)) in
                      let drawn : Spend = record {
                        note = record { value = 0; asset = asset; random = blind };
                        owner = owner;
                        merkle = record {
                          index = be_value bytes % 2 ^ tree_depth;
                          siblings = siblings;
                        };
                      } in
                      let good : IsDummySpend c asset drawn = record {
                        worthless = refl;
                        same_asset = refl;
                        index_fits = mod-lt (be_value bytes) (omega arith);
                        siblings_size = length-random_fields fuel tree_depth s1 e1;
                        mark = n;
                        derived = e4;
                        nonzero = λ zero_mark. ground arith;
                      } in
                      let found : drawn ≡ d =
                        ap (λ (x : Spend × rng.State). x.0) (ok-injective _ _ (rw fresh at h4)) in
                      rw found at good
                  | inr stale ↦ dummy_spend-IsDummySpend fuel passes asset s4 (rw stale at h4)
                ]

  -- Spends are padded behind the given ones.
  pad_spends_inv :
      (fuel n : ℕ) (asset : Field) (inputs : List Spend) (s : rng.State) {out : List Spend}
      {s' : rng.State}
      → pad_spends c rng fuel n asset inputs s ≡ ok (out, s')
      → (ds : List Spend) × (out ≡ inputs ++ ds) × (length ds ≡ n) × All (IsDummySpend c asset) ds
  unfolding pad_spends
  pad_spends_inv fuel zero asset inputs s {out} e = (
    [],
    ap (λ (x : List Spend × rng.State). x.0) (sym (ok-injective _ _ e)) ∙ sym (append-nil inputs),
    refl,
    tt,
  )
  pad_spends_inv fuel (suc n) asset inputs s e =
      bind_inv (dummy_spend c rng fuel fuel asset s) _ e λ (d, s1) e0 h0.
        let (ds, same, len, dummies) = pad_spends_inv fuel n asset (inputs ++ d ∷ []) s1 h0 in
        (
          d ∷ ds,
          same ∙ append_assoc inputs (d ∷ []) ds,
          ap suc len,
          (dummy_spend-IsDummySpend fuel fuel asset s e0, dummies),
        )

  module _ (G : IsRng rng) where
    dummy_send-IsDummySend :
        (fuel n : ℕ) (s : rng.State) {d : Send} {s' : rng.State}
        → dummy_send c rng fuel n s ≡ ok (d, s')
        → IsDummySend n d
    unfolding dummy_send
    dummy_send-IsDummySend fuel n s {d} e =
        bind_inv (ok_or (rng.try_fill_bytes n s) Error.random) _ e λ (bytes, s1) e0 h0.
          bind_inv (random c rng fuel s1) _ h0 λ (owner, s2) e1 h1.
            bind_inv (random c rng fuel s2) _ h1 λ (blind, s3) e2 h2.
              let drawn : Send = record {
                owner = owner;
                value = 0;
                random = blind;
                encrypted = bytes;
              } in
              let good : IsDummySend n drawn = record {
                worthless = refl;
                payload_size = (G.fills n s (ok_or-eq-ok _ _ e0)).size;
              } in
              let found : drawn ≡ d = ap (λ (x : Send × rng.State). x.0) (ok-injective _ _ h2) in
              rw found at good

    pad_sends_inv :
        (fuel n payload_len : ℕ) (outputs : List Send) (s : rng.State) {out : List Send}
        {s' : rng.State}
        → pad_sends c rng fuel n payload_len outputs s ≡ ok (out, s')
        → (ds : List Send) × (out ≡ outputs ++ ds)
          × (length ds ≡ n)
          × All (IsDummySend payload_len) ds
    unfolding pad_sends
    pad_sends_inv fuel zero payload_len outputs s {out} e = (
      [],
      ap (λ (x : List Send × rng.State). x.0) (sym (ok-injective _ _ e)) ∙ sym (append-nil outputs),
      refl,
      tt,
    )
    pad_sends_inv fuel (suc n) payload_len outputs s e =
        bind_inv (dummy_send c rng fuel payload_len s) _ e λ (d, s1) e0 h0.
          let (ds, same, len, dummies) =
            pad_sends_inv fuel n payload_len (outputs ++ d ∷ []) s1 h0 in
          (
            d ∷ ds,
            same ∙ append_assoc outputs (d ∷ []) ds,
            ap suc len,
            (dummy_send-IsDummySend fuel payload_len s e0, dummies),
          )

  swap_pair-perm {ℓ} : {A : Type ℓ} (xs : List A) → Perm (swap_pair c rng xs) xs
  swap_pair-perm [] = Perm.refl []
  swap_pair-perm (x ∷ []) = Perm.refl (x ∷ [])
  swap_pair-perm (x ∷ y ∷ rest) = Perm.swap x y rest

  shuffle_pair-perm {ℓ} :
      {A : Type ℓ} (xs : List A) (s : rng.State) {ys : List A} {s' : rng.State}
      → shuffle_pair c rng xs s ≡ ok (ys, s')
      → Perm ys xs
  unfolding shuffle_pair
  shuffle_pair-perm {A = A} xs s {ys} e =
      bind_inv (ok_or (rng.try_fill_bytes 1 s) Error.random) _ e λ (choice, s1) e0 h0.
        let out = ap (λ (x : List A × rng.State). x.0) (ok-injective _ _ h0) in
        elim (Bool-cases (be_value choice % 2 == 1)) [
          | inl swapped ↦ subst (λ zs. Perm zs xs) (rw swapped at out) (swap_pair-perm xs)
          | inr kept ↦ subst (λ zs. Perm zs xs) (rw kept at out) (Perm.refl xs)
        ]

  pub try_pair_inv {ℓ} :
      {A : Type ℓ} (xs : List A) {p : A × A} → try_pair c rng xs ≡ some p → p.0 ∷ p.1 ∷ [] ≡ xs
  try_pair_inv [] e = absurd (cc)
  try_pair_inv (x ∷ []) e = absurd (cc)
  try_pair_inv (x ∷ y ∷ []) e = cc
  try_pair_inv (x ∷ y ∷ z ∷ rest) e = absurd (cc)

  weaken :
      (m n : ℕ) (sends : List Send)
      → m ≤ n
      → All (λ (send : Send). length send.encrypted ≤ m) sends
      → All (λ (send : Send). length send.encrypted ≤ n) sends
  weaken m n [] le h = tt
  weaken m n (send ∷ sends) le h = (omega (arith, le, h.0), weaken m n sends le h.1)

  payload_length-IsLongest : (sends : List Send) → IsLongest (payload_length c rng sends) sends
  payload_length-IsLongest [] = record { bounds = tt; reached = inl refl }
  payload_length-IsLongest (send ∷ sends) =
      let h = payload_length-IsLongest sends in
      let n = length send.encrypted in
      let rest = payload_length c rng sends in
      elim (Bool-cases (leb rest n)) [
        | inl longer ↦
            let le : rest ≤ n = (leb_iff _ _).0 longer in
            rw longer (record {
              bounds = (omega arith, weaken rest n sends le h.bounds);
              reached = inr (rw ((==_iff n n).1 refl) refl);
            })
        | inr shorter ↦
            let le : n ≤ rest = ground (arith, shorter) in
            rw shorter (record {
              bounds = (le, h.bounds);
              reached = elim h.reached [
                | inl none_here ↦ inl none_here
                | inr found ↦ inr (ground (arith, found))
              ];
            })
      ]

  -- A plan that is produced for a transaction holds its spends and its sends in some order, padded to
  -- two of each by dummies: spends of value zero and the pool's asset, with a nullifier that is not
  -- zero, and outputs of value zero whose payload is as long as the longest of the transaction's. The
  -- random source is taken to fill the buffers it is given.
  pub plan-IsPadded :
      (G : IsRng rng) (fuel : ℕ) (t : Transaction) (asset : Field) (s : rng.State) {p : Plan}
      {s' : rng.State}
      → plan c rng fuel t asset s ≡ ok (p, s')
      → IsPadded (IsDummySpend c asset) t.spends p.spends
        × ((n : ℕ) × IsLongest n t.sends × IsPadded (IsDummySend n) t.sends p.sends)
        × (p.asset ≡ asset)
  unfolding plan
  plan-IsPadded G fuel t asset s {p} {s'} e =
      then_inv
        (require (not (any (λ (spend : Spend). not (bytes_eq spend.note.asset asset)) t.spends))
          (transaction "spend asset does not match the pool"))
        _ e
        λ e0 h0.
          bind_inv (pad_spends c rng fuel (slots - length t.spends) asset t.spends s) _ h0
            λ (inputs, s1) e1 h1.
              bind_inv
                (pad_sends c rng fuel (slots - length t.sends) (payload_length c rng t.sends)
                  t.sends s1)
                _ h1
                λ (outputs, s2) e2 h2.
                  bind_inv (shuffle_pair c rng inputs s2) _ h2 λ (inputs', s3) e3 h3.
                    bind_inv (shuffle_pair c rng outputs s3) _ h3 λ (outputs', s4) e4 h4.
                      bind_inv (ok_or (try_pair c rng inputs') (transaction "invalid spend arity"))
                        _ h4
                        λ spends e5 h5.
                          bind_inv
                            (ok_or (try_pair c rng outputs') (transaction "invalid send arity")) _
                            h5
                            λ sends e6 h6.
                              let (ds, ds_same, ds_len, ds_all) =
                                pad_spends_inv fuel _ asset t.spends s e1 in
                              let (fs, fs_same, fs_len, fs_all) =
                                pad_sends_inv G fuel _ _ t.sends s1 e2 in
                              let spends_perm : Perm (spends.0 ∷ spends.1 ∷ []) (t.spends ++ ds) =
                                rw (try_pair_inv inputs' (ok_or-eq-ok _ _ e5), ← ds_same)
                                  (shuffle_pair-perm inputs s2 e3) in
                              let sends_perm : Perm (sends.0 ∷ sends.1 ∷ []) (t.sends ++ fs) =
                                rw (try_pair_inv outputs' (ok_or-eq-ok _ _ e6), ← fs_same)
                                  (shuffle_pair-perm outputs s3 e4) in
                              let made : Plan = record {
                                spends = spends;
                                sends = sends;
                                asset = asset;
                              } in
                              let whole : IsPadded (IsDummySpend c asset) t.spends made.spends
                                  × ((n : ℕ) × IsLongest n t.sends
                                      × IsPadded (IsDummySend n) t.sends made.sends)
                                  × (made.asset ≡ asset) =
                                (
                                  record {
                                    dummies = ds;
                                    missing = ds_len;
                                    all_dummies = ds_all;
                                    order = spends_perm;
                                  },
                                  (
                                    payload_length c rng t.sends,
                                    payload_length-IsLongest t.sends,
                                    record {
                                      dummies = fs;
                                      missing = fs_len;
                                      all_dummies = fs_all;
                                      order = sends_perm;
                                    },
                                  ),
                                  refl,
                                ) in
                              let found : made ≡ p =
                                ap (λ (x : Plan × rng.State). x.0) (ok-injective _ _ h6) in
                              subst
                                (λ (q : Plan).
                                  IsPadded (IsDummySpend c asset) t.spends q.spends
                                  × ((n : ℕ) × IsLongest n t.sends
                                      × IsPadded (IsDummySend n) t.sends q.sends)
                                  × (q.asset ≡ asset))
                                found whole
