-- ===== src/Sdk/Proving/Worker/Outcome.antt =====
-- What a call of `Worker::prove` leaves behind.
use mathlib.Core.Path.{subst}
use native.Mathlib.Nat.{mod-lt}
use veil.Prelude.{
  ℕ, ◌+◌, ◌%◌, ◌^◌, ◌<◌, ◌≡◌, ◌≢◌, refl, sym, ap, ◌∙◌, Bool, true, false, not, ◌||◌, none, some, [],
  ◌==◌, ==_iff, arith,
}
use veil.Prelude.Int.{ℤ, pos}
use veil.Prelude.Res.{
  ok, err, ok_or, require, bind_inv, then_inv, require-eq-ok, ok_or-eq-ok, ok-injective,
}
use veil.Bytes.{Bytes}
use veil.Sdk.Error.{Error, Res, prover}
use veil.Sdk.Os.{Os, Timed, finished, elapsed, timeout}
use veil.Sdk.Os.Laws.{continue_split, by_deadline_finished, by_deadline_in_time}
use veil.Sdk.Proving.Protocol.{Response, Failure, try_failure, send, receive}
use veil.Sdk.Proving.Process.{stop}
use veil.Sdk.Proving.Worker.{
  Messages, Worker, validate_response, is_unspecified, is_empty, exchange, conclude, run_request,
  with_next_id, prove,
}

==_false : (n : ℕ) → (n == 0) ≡ false → n ≢ 0
==_false n e = ground arith

-- The response that is accepted for a request: its identifier, no failure, and both parts.
pub record IsAnswer (id : ℕ) (response : Response) (proof public : Bytes) : Type 0 where
  pub same_id : response.id ≡ id
  pub succeeded : response.failure ≡ pos 0
  pub proof_bytes : response.proof ≡ proof
  pub public_bytes : response.public ≡ public
  pub proof_given : proof ≢ []
  pub public_given : public ≢ []

unspecified_code :
    (z : ℤ) {f : Failure} → try_failure z ≡ some f → is_unspecified f ≡ true → z ≡ pos 0
unspecified_code z e u = ground arith

given : (a b : Bytes) → not (is_empty a || is_empty b) ≡ true → (a ≢ []) × (b ≢ [])
given a b e = ground arith

pub validate_response-IsAnswer :
    (id : ℕ) (response : Response) {proof public : Bytes}
    → validate_response id response ≡ ok (proof, public)
    → IsAnswer id response proof public
unfolding validate_response
validate_response-IsAnswer id response {proof} {public} e =
    then_inv (require (response.id == id) (prover "worker response ID does not match")) _ e λ e0 h0.
      bind_inv (ok_or (try_failure response.failure) (prover "worker response is malformed")) _ h0
        λ f e1 h1.
          then_inv (require (is_unspecified f) (prover "worker rejected the proof request")) _ h1
            λ e2 h2.
              then_inv
                (require (not (is_empty response.proof || is_empty response.public))
                  (prover "worker response is incomplete"))
                _ h2
                λ e3 h3.
                  let same = ok-injective _ _ h3 in
                  let (p0, p1) =
                    given response.proof response.public
                      (require-eq-ok _ (prover "worker response is incomplete") e3) in
                  let same_proof : response.proof ≡ proof = ap (λ (x : Bytes × Bytes). x.0) same in
                  let same_public : response.public ≡ public =
                    ap (λ (x : Bytes × Bytes). x.1) same in
                  record {
                    same_id =
                        (==_iff response.id id).0
                          (require-eq-ok _ (prover "worker response ID does not match") e0);
                    succeeded =
                        unspecified_code response.failure
                          (ok_or-eq-ok _ (prover "worker response is malformed") e1)
                          (require-eq-ok _ (prover "worker rejected the proof request") e2);
                    proof_bytes = same_proof;
                    public_bytes = same_public;
                    proof_given = rw same_proof at p0;
                    public_given = rw same_public at p1;
                  }

module _ (os : Os) (m : Messages) where
  -- The worker after a call that has succeeded: the same process and the next identifier. The deadline has not
  -- passed, the request with this identifier was written, the frame that was read next is an answer to it, and
  -- nothing has happened since.
  pub record IsServed (before after : Worker os m) (witness : Bytes) (deadline : ℕ)
      (w w' : os.World) (proof public : Bytes) : Type 0 where
    pub process : after.process ≡ before.process
    pub counted : after.next_request_id ≡ before.next_request_id + 1
    pub fits : after.next_request_id < 2 ^ 64
    pub on_time : os.expires deadline w ≡ false
    pub between : os.World
    pub response : Response
    pub sent :
        send os m.request before.process.channel
          (record { id = after.next_request_id; witness = witness })
          w
        ≡ (ok tt, between)
    pub received : receive os m.response before.process.channel between ≡ (ok response, w')
    pub answer : IsAnswer after.next_request_id response proof public

  -- What an exchange that succeeds has sent and received.
  record IsExchanged (worker : Worker os m) (witness : Bytes) (w w' : os.World)
      (proof public : Bytes) : Type 0 where
    between : os.World
    response : Response
    sent :
        send os m.request worker.process.channel
          (record { id = worker.next_request_id; witness = witness })
          w
        ≡ (ok tt, between)
    received : receive os m.response worker.process.channel between ≡ (ok response, w')
    answer : IsAnswer worker.next_request_id response proof public

  exchange-IsExchanged :
      (worker : Worker os m) (witness : Bytes) (w : os.World) {proof public : Bytes}
      → (exchange os m worker witness w).0 ≡ ok (proof, public)
      → IsExchanged worker witness w (exchange os m worker witness w).1 proof public
  unfolding exchange
  exchange-IsExchanged worker witness w e =
      let (_, w1, sent, rest) = continue_split (send os m.request worker.process.channel _ w) _ e in
      let (response, w2, received, rest') =
        continue_split (receive os m.response worker.process.channel w1) _ (rw rest at e) in
      record {
        between = w1;
        response = response;
        sent = sent;
        received = rw (rest, rest') received;
        answer = validate_response-IsAnswer worker.next_request_id response (rw (rest, rest') at e);
      }

  conclude_ok :
      (worker : Worker os m) (t : Timed (Bytes × Bytes) × os.World) {r : Bytes × Bytes}
      → (conclude os m worker t).0.1 ≡ ok r
      → (conclude os m worker t ≡ ((worker, ok r), t.1)) × (t.0 ≡ finished (ok r))
  conclude_ok worker (finished (ok r), w) e =
      (ap (λ (x : Res (Bytes × Bytes)). ((worker, x), w)) e, ap finished e)
  conclude_ok worker (finished (err x), w) e = absurd (cc)
  conclude_ok worker (elapsed, w) e = absurd (cc)

  -- The last thing done is to kill the worker's child.
  IsStopped : os.Child → (Worker os m × Res (Bytes × Bytes)) × os.World → Type 0
  IsStopped child t = (t.0.0.process.child ≡ none) × (w' : os.World) × (t.1 ≡ os.kill child w')

  conclude_err :
      (worker : Worker os m) (child : os.Child) (t : Timed (Bytes × Bytes) × os.World) {x : Error}
      → worker.process.child ≡ some child
      → (conclude os m worker t).0.1 ≡ err x
      → IsStopped child (conclude os m worker t)
  unfolding stop IsStopped
  conclude_err worker child (finished (ok r), w) running e = absurd (cc)
  conclude_err worker child (finished (err y), w) running e = (refl, w, rw running refl)
  conclude_err worker child (elapsed, w) running e = (refl, w, rw running refl)

  next_id : (n : ℕ) → n < 2 ^ 64 → (n + 1) % 2 ^ 64 ≢ 0 → (n + 1) % 2 ^ 64 ≡ n + 1
  next_id n h z = omega (arith, z)

  run_request_ok :
      (wrapped : Bool) (worker : Worker os m) (witness : Bytes) (deadline : ℕ) (w : os.World)
      {proof public : Bytes}
      → (run_request os m wrapped worker witness deadline w).0.1 ≡ ok (proof, public)
      → (wrapped ≡ false)
        × ((run_request os m wrapped worker witness deadline w).0.0 ≡ worker)
        × (os.expires deadline w ≡ false)
        × IsExchanged worker witness w
            (run_request os m wrapped worker witness deadline w).1
            proof
            public
  unfolding run_request
  run_request_ok true worker witness deadline w e = absurd (cc)
  run_request_ok false worker witness deadline w {proof} {public} e =
      let late = os.expires deadline w in
      let m' = exchange os m worker witness in
      let (same, done) = conclude_ok worker (timeout os deadline m' w) e in
      let (on_time, ends) = by_deadline_in_time os late m' w done in
      let answered = by_deadline_finished os late m' w done in
      let last : (conclude os m worker (timeout os deadline m' w)).1 ≡ (m' w).1 =
        ap (λ (x : (Worker os m × Res (Bytes × Bytes)) × os.World). x.1) same
        ∙ ap (λ (x : Timed (Bytes × Bytes) × os.World). x.1) ends in
      (
        refl,
        ap (λ (x : (Worker os m × Res (Bytes × Bytes)) × os.World). x.0.0) same,
        on_time,
        subst (λ u. IsExchanged worker witness w u proof public) (sym last)
            (exchange-IsExchanged worker witness w answered),
      )

  run_request_err :
      (wrapped : Bool) (worker : Worker os m) (child : os.Child) (witness : Bytes) (deadline : ℕ)
      (w : os.World) {x : Error}
      → worker.process.child ≡ some child
      → (run_request os m wrapped worker witness deadline w).0.1 ≡ err x
      → IsStopped child (run_request os m wrapped worker witness deadline w)
  unfolding run_request IsStopped
  run_request_err true worker child witness deadline w running e = (refl, w, rw running refl)
  run_request_err false worker child witness deadline w running e =
      conclude_err worker child (timeout os deadline (exchange os m worker witness) w) running e

  -- If the counter fits a `u64` and the call returns a proof and a public witness, the worker keeps its
  -- process, its counter grew by one within a `u64`, the deadline has not passed, the request with this
  -- identifier and the witness was sent, and the response that was received next, and is the last thing that
  -- happened, has this identifier, no failure and both parts, neither of them empty.
  pub prove-IsServed :
      (worker : Worker os m) (witness : Bytes) (deadline : ℕ) (w : os.World) {proof public : Bytes}
      → worker.next_request_id < 2 ^ 64
      → (prove os m worker witness deadline w).0.1 ≡ ok (proof, public)
      → IsServed worker
          (prove os m worker witness deadline w).0.0
          witness
          deadline
          w
          (prove os m worker witness deadline w).1
          proof
          public
  unfolding prove
  prove-IsServed worker witness deadline w fits e =
      let (fresh, same, on_time, done) =
        run_request_ok _ (with_next_id os m worker) witness deadline w e in
      let id = next_id worker.next_request_id fits (==_false _ fresh) in
      let count = ap (λ (x : Worker os m). x.next_request_id) same in
      record {
        process = ap (λ (x : Worker os m). x.process) same;
        counted = count ∙ id;
        fits = rw count (mod-lt (worker.next_request_id + 1) (omega arith));
        on_time = on_time;
        between = done.between;
        response = done.response;
        sent = rw count done.sent;
        received = done.received;
        answer = rw count done.answer;
      }

  -- If a worker with a child fails a call, by an exhausted counter, an error or the deadline, it has no child
  -- any more, and the last thing done is to kill the child.
  pub prove-stops :
      (worker : Worker os m) (child : os.Child) (witness : Bytes) (deadline : ℕ) (w : os.World)
      {x : Error}
      → worker.process.child ≡ some child
      → (prove os m worker witness deadline w).0.1 ≡ err x
      → ((prove os m worker witness deadline w).0.0.process.child ≡ none)
        × (w' : os.World) × ((prove os m worker witness deadline w).1 ≡ os.kill child w')
  unfolding prove IsStopped
  prove-stops worker child witness deadline w running e =
      run_request_err _ (with_next_id os m worker) child witness deadline w running e
