-- ===== src/Sdk/Client/Proving.antt =====
-- The proofs that `Veil` returns, and the worker that it keeps.
use veil.Prelude.{◌≡◌, ◌⊎◌, inl, inr, refl, sym, ap, none, some, Bool-cases}
use veil.Prelude.Res.{ok, err, ok_or, ok-injective, bind_inv}
use mathlib.Core.Path.{subst}
use veil.Bytes.{Bytes, bytes_eq, bytes_eq_iff}
use veil.Sdk.Error.{Error, Res}
use veil.Sdk.Transaction.{Plan, Public, Values, values, witness_bytes}
use veil.Sdk.Solana.{Proof}
use veil.Sdk.Proving.Worker.{Worker, prove}
use veil.Sdk.Proving.Worker.Outcome.{IsServed, prove-IsServed}
use veil.Sdk.Proving.Witness.{Witness, build_witness, input_map}
use veil.Sdk.Client.{
  Platform, Veil, Slot, Called, take_worker, keep_worker, use_worker, prove_witness, prove_plan,
}
use veil.Sdk.Client.Slot.{IsIdle, start_worker-IsIdle, IsServed-IsIdle}

module _ (f : Platform) where
  -- Either no worker is kept, or one that can take the next request.
  unfoldable pub IsReady : Slot f → Type 0
  IsReady none = Unit
  IsReady (some worker) = IsIdle f.os f.messages worker

  take_worker-IsIdle :
      (v : Veil f) (slot : Slot f) (w : f.os.World) {worker : Worker f.os f.messages}
      → IsReady slot
      → (take_worker f v slot w).0 ≡ ok worker
      → IsIdle f.os f.messages worker
  unfolding IsReady
  take_worker-IsIdle v none w h e =
      start_worker-IsIdle f.os f.messages v.worker_executable v.artifact_directory
        v.artifacts.manifest.id v.timeout w e
  take_worker-IsIdle v (some worker) w h e = rw (ok-injective _ _ e) at h

  -- What a proof that is returned rests on: the values of the plan, and one exchange with the worker that was
  -- taken, the same that is kept: the witness of the plan was sent, and the response that was received carried
  -- the proof and the public witness of the proof's public inputs.
  pub record IsProved (v : Veil f) (slot : Slot f) (p : Plan) (public : Public) (w : f.os.World)
      (t : Called f Proof) (proof : Proof) : Type 0 where
    pub the_values : Values
    pub computed : values f.runtime.crypto p public ≡ ok the_values
    pub same_public : proof.public ≡ the_values.public
    pub artifact : proof.artifact ≡ v.artifacts.manifest.id
    pub witness : Witness
    pub built : build_witness f.runtime.crypto f.noir v.artifacts.program p public ≡ ok witness
    pub before : Worker f.os f.messages
    pub start : f.os.World
    pub taken : take_worker f v slot w ≡ (ok before, start)
    pub worker : Worker f.os f.messages
    pub kept : t.0.0 ≡ some worker
    pub idle : IsIdle f.os f.messages worker
    pub served :
        IsServed f.os f.messages before worker witness.bytes v.timeout start t.1 proof.bytes
          (witness_bytes proof.public)

  build_witness-values :
      (v : Veil f) (p : Plan) (public : Public) {witness : Witness}
      → build_witness f.runtime.crypto f.noir v.artifacts.program p public ≡ ok witness
      → (x : Values) × (values f.runtime.crypto p public ≡ ok x) × (witness.public ≡ x.public)
  unfolding build_witness
  build_witness-values v p public e = bind_inv (values f.runtime.crypto p public) _ e λ x e0 h0.
      bind_inv
        (ok_or (f.noir.encode v.artifacts.program (input_map f.runtime.crypto f.noir p x))
          Error.witness)
        _ h0
        λ i e1 h1.
          bind_inv (ok_or (f.noir.execute_program v.artifacts.program i) Error.witness) _ h1
            λ stack e2 h2.
              bind_inv (ok_or (f.noir.serialize stack) Error.witness) _ h2
                λ bytes e3 h3. (x, e0, ap (λ (y : Witness). y.public) (sym (ok-injective _ _ h3)))

  -- The answer is kept only for the public inputs of the witness.
  keep_worker_ok :
      (v : Veil f) (witness : Witness)
      (t : (Worker f.os f.messages × Res (Bytes × Bytes)) × f.os.World) {proof : Proof}
      → (keep_worker f v witness t).0.1 ≡ ok proof
      → (bytes public : Bytes) × (t.0.1 ≡ ok (bytes, public))
        × (public ≡ witness_bytes witness.public)
        × ((keep_worker f v witness t).0.0 ≡ some t.0.0)
        × ((keep_worker f v witness t).1 ≡ t.1)
        × (◌≡◌ {A = Proof}
            (record { bytes = bytes; public = witness.public; artifact = v.artifacts.manifest.id })
            proof)
  keep_worker_ok v witness ((worker, err x), w) e = absurd (cc)
  keep_worker_ok v witness ((worker, ok (bytes, public)), w) e =
      elim (Bool-cases (bytes_eq public (witness_bytes witness.public))) [
        | inl same ↦ (
          bytes,
          public,
          refl,
          (bytes_eq_iff _ _).0 same,
          rw same refl,
          rw same refl,
          ok-injective _ _ (rw same at e),
        )
        | inr other ↦ absurd (cc (rw other at e))
      ]

  keep_worker_err :
      (v : Veil f) (witness : Witness)
      (t : (Worker f.os f.messages × Res (Bytes × Bytes)) × f.os.World) {x : Error}
      → (keep_worker f v witness t).0.1 ≡ err x
      → (keep_worker f v witness t).0.0 ≡ none
  keep_worker_err v witness ((worker, err y), w) e = refl
  keep_worker_err v witness ((worker, ok (bytes, public)), w) e =
      elim (Bool-cases (bytes_eq public (witness_bytes witness.public))) [
        | inl same ↦ absurd (cc (rw same at e))
        | inr other ↦ rw other refl
      ]

  use_worker_err :
      (v : Veil f) (witness : Witness) (t : Res (Worker f.os f.messages) × f.os.World) {x : Error}
      → (use_worker f v witness t).0.1 ≡ err x
      → (use_worker f v witness t).0.0 ≡ none
  use_worker_err v witness (err y, w) e = refl
  use_worker_err v witness (ok worker, w) e = keep_worker_err v witness _ e

  use_worker_ok :
      (v : Veil f) (slot : Slot f) (p : Plan) (public : Public) (witness : Witness) (x : Values)
      (w : f.os.World) (t : Res (Worker f.os f.messages) × f.os.World) {proof : Proof}
      → IsReady slot
      → take_worker f v slot w ≡ t
      → values f.runtime.crypto p public ≡ ok x
      → witness.public ≡ x.public
      → build_witness f.runtime.crypto f.noir v.artifacts.program p public ≡ ok witness
      → (use_worker f v witness t).0.1 ≡ ok proof
      → IsProved v slot p public w (use_worker f v witness t) proof
  use_worker_ok v slot p public witness x w (err y, w1) h et ev ew eb e = absurd (cc)
  use_worker_ok v slot p public witness x w (ok worker, w1) {proof} h et ev ew eb e =
      let call = prove f.os f.messages worker witness.bytes v.timeout w1 in
      let (bytes, told, answered, same, kept, last, found) = keep_worker_ok v witness call e in
      let idle =
        take_worker-IsIdle v slot w h
          (ap (λ (u : Res (Worker f.os f.messages) × f.os.World). u.0) et) in
      let served =
        prove-IsServed f.os f.messages worker witness.bytes v.timeout w1 idle.fits answered in
      let made : Proof = record {
        bytes = bytes;
        public = witness.public;
        artifact = v.artifacts.manifest.id;
      } in
      let whole : IsProved v slot p public w (use_worker f v witness (ok worker, w1)) made =
        record {
          the_values = x;
          computed = ev;
          same_public = ew;
          artifact = refl;
          witness = witness;
          built = eb;
          before = worker;
          start = w1;
          taken = et;
          worker = call.0.0;
          kept = kept;
          idle = IsServed-IsIdle f.os f.messages idle served;
          served =
              subst
                (λ (u : f.os.World).
                  IsServed f.os f.messages worker call.0.0 witness.bytes v.timeout w1 u bytes
                    (witness_bytes witness.public))
                (sym last) (rw same at served);
        } in
      subst (λ (q : Proof). IsProved v slot p public w (use_worker f v witness (ok worker, w1)) q)
        found whole

  prove_witness_ok :
      (v : Veil f) (slot : Slot f) (p : Plan) (public : Public) (w : f.os.World) (b : Res Witness)
      {proof : Proof}
      → IsReady slot
      → build_witness f.runtime.crypto f.noir v.artifacts.program p public ≡ b
      → (prove_witness f v slot b w).0.1 ≡ ok proof
      → IsProved v slot p public w (prove_witness f v slot b w) proof
  prove_witness_ok v slot p public w (err y) h eb e = absurd (cc)
  prove_witness_ok v slot p public w (ok witness) h eb e =
      let (x, ev, ew) = build_witness-values v p public eb in
      use_worker_ok v slot p public witness x w (take_worker f v slot w) h refl ev ew eb e

  prove_witness_err :
      (v : Veil f) (slot : Slot f) (w : f.os.World) (b : Res Witness) {x : Error}
      → (prove_witness f v slot b w).0.1 ≡ err x
      → ((prove_witness f v slot b w).0.0 ≡ none)
        ⊎ ((b ≡ err x)
            × ((prove_witness f v slot b w).0.0 ≡ slot)
            × ((prove_witness f v slot b w).1 ≡ w))
  prove_witness_err v slot w (err y) e = inr (cc e, refl, refl)
  prove_witness_err v slot w (ok witness) e =
      inl (use_worker_err v witness (take_worker f v slot w) e)

  -- From a slot that is empty or holds a worker with a process and a counter within a `u64`: a proof that is
  -- returned has the public inputs of the plan's values, and the worker that is kept is the one that was taken
  -- or started, with its process and the next identifier. It was sent the witness of the plan with this
  -- identifier before the deadline, and the response that was received, as the last thing that happened, has
  -- this identifier and no failure and carries the proof and the public witness of these public inputs.
  pub prove_plan-IsProved :
      (v : Veil f) (slot : Slot f) (p : Plan) (public : Public) (w : f.os.World) {proof : Proof}
      → IsReady slot
      → (prove_plan f v slot p public w).0.1 ≡ ok proof
      → IsProved v slot p public w (prove_plan f v slot p public w) proof
  unfolding prove_plan
  prove_plan-IsProved v slot p public w h e =
      prove_witness_ok v slot p public w
        (build_witness f.runtime.crypto f.noir v.artifacts.program p public) h refl e

  -- If no proof is returned, no worker is kept, or else the witness could not be built: then the slot and
  -- the world are as they were.
  pub prove_plan_error :
      (v : Veil f) (slot : Slot f) (p : Plan) (public : Public) (w : f.os.World) {x : Error}
      → (prove_plan f v slot p public w).0.1 ≡ err x
      → ((prove_plan f v slot p public w).0.0 ≡ none)
        ⊎ ((build_witness f.runtime.crypto f.noir v.artifacts.program p public ≡ err x)
            × ((prove_plan f v slot p public w).0.0 ≡ slot)
            × ((prove_plan f v slot p public w).1 ≡ w))
  unfolding prove_plan
  prove_plan_error v slot p public w e = prove_witness_err v slot w _ e
