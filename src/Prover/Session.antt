-- ===== src/Prover/Session.antt =====
-- The client's call `Worker::prove` and the loop of the worker's `serve`, joined by pipes.
use mathlib.Core.List.{append-nil}
use mathlib.Core.Path.{subst}
use veil.Sdk.Proving.Process.{stop}
use veil.Prelude.{
  ℕ, ◌+◌, ◌*◌, ◌%◌, ◌^◌, ◌≤◌, ◌<◌, ◌≡◌, ◌≢◌, refl, sym, ap, ◌∙◌, Bool, true, false, ◌==◌, Option,
  none, some, [], ◌++◌, length, leb, leb_iff, arith,
}
use veil.Prelude.Res.{ok, err}
use veil.Bytes.{Bytes, be_bytes}
use veil.Sdk.Error.{Res, prover}
use veil.Sdk.Os.{Os, frame, finished}
use veil.Sdk.Proving.Protocol.{
  Message, Request, Channel, max_response_bytes, frame_parts, send, receive,
}
use veil.Sdk.Proving.Worker.{
  Messages, Worker, validate_response, exchange, run_request, with_next_id, prove, conclude,
}
use veil.Prover.{ProveFn, answer, read_message, write_message, response_limit, serve_one}
use veil.Prover.Framing.{IsMessage, frame_parts_iff, read_message-frame_parts}
use veil.Prover.Answers.{same_id, admit_next, validate_response-answer}

-- The pipes of a worker's process lead to the worker: what is written waits to be read, and the next frame is
-- what the worker's loop writes for what waits. `expects` is the identifier that the worker expects.
pub record IsConnected (os : Os) (m : Messages) (prove_fn : ProveFn) (channel : Channel os)
    : Type 0 where
  pub waiting : os.World → Bytes
  pub expects : os.World → ℕ
  pub writes :
      (bytes : Bytes) (w : os.World)
      → (w' : os.World) × (os.write_all channel.input bytes w ≡ (true, w'))
        × (waiting w' ≡ waiting w ++ bytes)
        × (expects w' ≡ expects w)
  pub flushes :
      (w : os.World)
      → (w' : os.World) × (os.flush channel.input w ≡ (true, w'))
        × (waiting w' ≡ waiting w)
        × (expects w' ≡ expects w)
  pub answers :
      (w : os.World) (body rest : Bytes) (next : ℕ)
      → serve_one m.request m.response prove_fn (expects w) (waiting w)
        ≡ some (be_bytes 4 (length body) ++ body, rest, next)
      → length body ≤ max_response_bytes
      → (w' : os.World) × (os.next_frame 4 max_response_bytes channel.output w ≡ (frame body, w'))
        × (waiting w' ≡ rest)
        × (expects w' ≡ next)

-- What the client should report for what the prover made.
abbrev outcome : Option (Bytes × Bytes) → Res (Bytes × Bytes)
outcome none = err (prover "worker rejected the proof request")
outcome (some made) = ok made

-- The worker waits for the client's next request.
pub record IsInStep {os : Os} {m : Messages} {prove_fn : ProveFn} (worker : Worker os m)
    (c : IsConnected os m prove_fn worker.process.channel) (w : os.World) : Type 0 where
  pub nothing_waits : c.waiting w ≡ []
  pub same_count : c.expects w ≡ worker.next_request_id + 1

write_message-framed :
    {M : Type 0} (m : Message M) (message : M) (body : Bytes)
    → m.encode message ≡ some body
    → length body ≤ response_limit
    → write_message m message ≡ some (be_bytes 4 (length body) ++ body)
unfolding write_message
write_message-framed m message body e fits =
    let within : leb (length body) response_limit ≡ true = (leb_iff _ _).1 fits in
    let small : length body % 2 ^ 32 ≡ length body = omega (arith, fits) in
    rw (e, within, small) refl

-- The client reports what the prover has made.
validate_response-outcome :
    (prove_fn : ProveFn) (request : Request) (made : Option (Bytes × Bytes))
    → prove_fn request.witness ≡ made
    → ((proof public : Bytes) → made ≡ some (proof, public) → (proof ≢ []) × (public ≢ []))
    → validate_response request.id (answer prove_fn request) ≡ outcome made
unfolding validate_response answer
validate_response-outcome prove_fn request none e given = rw (e, same_id request.id) refl
validate_response-outcome prove_fn request (some (proof, public)) e given =
    let (p, u) = given proof public refl in
    (validate_response-answer prove_fn request proof public).1 (e, p, u)

-- The worker serves the request that the client has framed.
serve_one-frame_parts :
    (os : Os) (m : Messages) (prove_fn : ProveFn) (request : Request) (next : ℕ)
    {size body reply : Bytes}
    → IsMessage m.request
    → frame_parts os m.request request ≡ ok (size, body)
    → request.id ≡ next
    → next + 1 < 2 ^ 64
    → write_message m.response (answer prove_fn request) ≡ some reply
    → serve_one m.request m.response prove_fn next (size ++ body) ≡ some (reply, [], next + 1)
unfolding serve_one
serve_one-frame_parts os m prove_fn request next {size} {body} {reply} decodes framed id fits
      replied =
    let read : read_message m.request (size ++ body) ≡ some (request, []) =
      rw (append-nil body) at (read_message-frame_parts os m.request request [] decodes framed) in
    rw (read, admit_next request next id fits, replied) refl

module _ (os : Os) (m : Messages) (prove_fn : ProveFn) (reads_request : IsMessage m.request)
    (reads_response : IsMessage m.response) (worker : Worker os m)
    (c : IsConnected os m prove_fn worker.process.channel) where
  -- What is exchanged when the worker answers.
  exchange_answered :
      (witness : Bytes) (w : os.World) {size asked answered : Bytes}
      → c.waiting w ≡ []
      → c.expects w ≡ worker.next_request_id
      → worker.next_request_id + 1 < 2 ^ 64
      → frame_parts os m.request (record { id = worker.next_request_id; witness = witness })
        ≡ ok (size, asked)
      → m.response.encode
          (answer prove_fn (record { id = worker.next_request_id; witness = witness }))
        ≡ some answered
      → length answered ≤ response_limit
      → ((proof public : Bytes)
          → prove_fn witness ≡ some (proof, public)
          → (proof ≢ []) × (public ≢ []))
      → (w' : os.World) × (exchange os m worker witness w ≡ (outcome (prove_fn witness), w'))
        × (c.waiting w' ≡ [])
        × (c.expects w' ≡ worker.next_request_id + 1)
  unfolding exchange send receive IsMessage
  exchange_answered witness w {size} {asked} {answered} nothing count fits framed encoded small
        given =
      let request : Request = record { id = worker.next_request_id; witness = witness } in
      let (w1, wrote1, waits1, count1) = c.writes size w in
      let (w2, wrote2, waits2, count2) = c.writes asked w1 in
      let (w3, flushed, waits3, count3) = c.flushes w2 in
      let input : c.waiting w3 ≡ size ++ asked =
        waits3 ∙ waits2 ∙ ap (λ bs. bs ++ asked) (waits1 ∙ ap (λ bs. bs ++ size) nothing) in
      let same : c.expects w3 ≡ worker.next_request_id = count3 ∙ count2 ∙ count1 ∙ count in
      let served =
        serve_one-frame_parts os m prove_fn request worker.next_request_id reads_request framed refl
          fits (write_message-framed m.response (answer prove_fn request) answered encoded small) in
      let (w4, received, waits4, count4) =
        c.answers w3 answered [] (worker.next_request_id + 1) (rw (input, same) served) small in
      let decoded = reads_response (answer prove_fn request) answered encoded in
      (
        w4,
        rw
            (
              framed,
              wrote1,
              wrote2,
              flushed,
              received,
              decoded,
              validate_response-outcome prove_fn request (prove_fn witness) refl given,
            )
            refl,
        waits4,
        count4,
      )

module _ (os : Os) (m : Messages) where
  -- A request that is on time is concluded with the result of the exchange.
  run_request_on_time :
      (wrapped : Bool) (worker : Worker os m) (witness : Bytes) (deadline : ℕ) (w w' : os.World)
      (r : Res (Bytes × Bytes))
      → wrapped ≡ false
      → os.expires deadline w ≡ false
      → exchange os m worker witness w ≡ (r, w')
      → run_request os m wrapped worker witness deadline w ≡ conclude os m worker (finished r, w')
  unfolding run_request
  run_request_on_time wrapped worker witness deadline w w' r fresh on_time e =
      rw (fresh, on_time, e) refl

  -- What a call leaves, for what the prover has made: either the client has it, and the worker is in step for the
  -- next call; or the client has an error, and the worker's child is killed.
  pub Reports :
      {prove_fn : ProveFn} (worker : Worker os m)
      → IsConnected os m prove_fn worker.process.channel
      → os.Child
      → (Worker os m × Res (Bytes × Bytes)) × os.World
      → Option (Bytes × Bytes)
      → Type 0
  Reports worker c child t (some made) =
      (w' : os.World) × (t
        ≡ ((record worker { next_request_id = worker.next_request_id + 1 }, ok made), w'))
      × (c.waiting w' ≡ [])
      × (c.expects w' ≡ worker.next_request_id + 2)
  Reports worker c child t none =
      (w' : os.World) × (t ≡ (
        (
          record {
            process = record { child = none; channel = worker.process.channel };
            next_request_id = worker.next_request_id + 1;
          },
          err (prover "worker rejected the proof request"),
        ),
        os.kill child w',
      ))

  concluded-Reports :
      {prove_fn : ProveFn} (worker : Worker os m)
      (c : IsConnected os m prove_fn worker.process.channel) (child : os.Child)
      (made : Option (Bytes × Bytes)) (w' : os.World)
      → worker.process.child ≡ some child
      → c.waiting w' ≡ []
      → c.expects w' ≡ worker.next_request_id + 2
      → Reports worker c child
          (conclude os m
            (record worker { next_request_id = worker.next_request_id + 1 })
            (finished (outcome made), w'))
          made
  unfolding Reports stop
  concluded-Reports worker c child (some made) w' running waits count = (w', refl, waits, count)
  concluded-Reports worker c child none w' running waits count = (w', rw running refl)

-- A call of the client whose worker is connected and in step reports what the prover makes of the witness. A proof
-- that it makes is returned with its public witness, and the worker keeps its process, has the next identifier
-- and is in step for the next call. If it makes none, the call fails with the message of a rejected request,
-- and the last thing done is to kill the child. Decoding is taken to undo encoding, the identifiers are not used
-- up, the deadline does not pass, the request and the response are encoded within their limits, and a proof
-- and its public witness are never empty.
pub prove-outcome :
    (os : Os) (m : Messages) (prove_fn : ProveFn) (worker : Worker os m)
    (c : IsConnected os m prove_fn worker.process.channel) (child : os.Child) (witness : Bytes)
    (deadline : ℕ) (w : os.World) {asked answered : Bytes}
    → worker.process.child ≡ some child
    → IsMessage m.request
    → IsMessage m.response
    → IsInStep worker c w
    → worker.next_request_id + 2 < 2 ^ 64
    → os.expires deadline w ≡ false
    → m.request.encode (record { id = worker.next_request_id + 1; witness = witness }) ≡ some asked
    → length asked ≤ 2 * 2 ^ 20
    → m.response.encode
        (answer prove_fn (record { id = worker.next_request_id + 1; witness = witness }))
      ≡ some answered
    → length answered ≤ 64 * 2 ^ 10
    → ((proof public : Bytes)
        → prove_fn witness ≡ some (proof, public)
        → (proof ≢ []) × (public ≢ []))
    → Reports os m worker c child (prove os m worker witness deadline w) (prove_fn witness)
unfolding prove
prove-outcome os m prove_fn worker c child witness deadline w {asked} {answered} running
      reads_request reads_response step fits on_time encoded small replied short given =
    let n = worker.next_request_id in
    let id : (n + 1) % 2 ^ 64 ≡ n + 1 = omega (arith, fits) in
    let fresh : ((n + 1) % 2 ^ 64 == 0) ≡ false = ground arith in
    let framed =
      (frame_parts_iff os m.request (record { id = n + 1; witness = witness }) _ asked).1
        (encoded, small, refl) in
    let (w', exchanged, waits, count) =
      exchange_answered os m prove_fn reads_request reads_response (with_next_id os m worker) c
        witness w {size = be_bytes 4 (length asked)} {asked = asked} {answered = answered}
        step.nothing_waits (step.same_count ∙ sym id) (rw id (omega (arith, fits))) (rw id framed)
        (rw id replied) short given in
    let concluded =
      concluded-Reports os m worker c child (prove_fn witness) w' running waits
        (count ∙ (rw id (omega arith))) in
    let done =
      run_request_on_time os m _ (with_next_id os m worker) witness deadline w w' _ fresh on_time
        exchanged in
    let renumbered : conclude os m (with_next_id os m worker)
          (finished (outcome (prove_fn witness)), w')
        ≡ conclude os m (record worker { next_request_id = n + 1 })
            (finished (outcome (prove_fn witness)), w') =
      ap
        (λ (k : ℕ).
          conclude os m (record worker { next_request_id = k })
            (finished (outcome (prove_fn witness)), w'))
        id in
    subst (λ t. Reports os m worker c child t (prove_fn witness)) (sym (done ∙ renumbered))
      concluded
