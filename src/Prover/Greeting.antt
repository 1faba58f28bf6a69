-- ===== src/Prover/Greeting.antt =====
-- What the worker's `serve` writes first, and what the client's `Worker::start` makes of it.
use mathlib.Core.Option.{some-injective}
use veil.Prelude.{
  ℕ, ◌%◌, ◌^◌, ◌≡◌, refl, sym, ap, ◌∙◌, Bool, true, false, Option, none, some, ◌++◌, length,
  if◌then◌else◌, append-injective,
}
use veil.Prelude.Res.{ok, err}
use veil.Bytes.{Bytes, bytes_eq, be_bytes}
use veil.Bytes.Laws.{length-be_bytes}
use veil.Sdk.Error.{prover}
use veil.Sdk.Os.{Os, FilePath, frame, timeout}
use veil.Sdk.Proving.Protocol.{Message, Ready, max_response_bytes, receive}
use veil.Sdk.Proving.Process.{Process, start_process, stop_child}
use veil.Sdk.Proving.Worker.{Messages, greet, start_worker}
use veil.Prover.{protocol_version, framed, write_body, write_message, greeting}
use veil.Prover.Framing.{IsMessage}

framed_inv :
    (fits : Bool) (b body : Bytes) (n : ℕ) → framed fits b ≡ some (be_bytes 4 n ++ body) → b ≡ body
framed_inv true b body n e =
    (append-injective (be_bytes 4 (length b % 2 ^ 32)) (be_bytes 4 n)
      (length-be_bytes 4 (length b % 2 ^ 32) ∙ sym (length-be_bytes 4 n)) (some-injective _ _ e)).1
framed_inv false b body n e = absurd (cc)

write_body_inv :
    (o : Option Bytes) (body : Bytes) (n : ℕ)
    → write_body o ≡ some (be_bytes 4 n ++ body)
    → o ≡ some body
write_body_inv none body n e = absurd (cc)
write_body_inv (some b) body n e = ap some (framed_inv _ b body n e)

-- What is written for a message is its encoding behind its length.
greeting_inv :
    (m : Message Ready) (offered body : Bytes)
    → greeting m offered ≡ some (be_bytes 4 (length body) ++ body)
    → m.encode (record { protocol = protocol_version; artifact = offered }) ≡ some body
unfolding write_message
greeting_inv m offered body e = write_body_inv _ body (length body) e

module _ (os : Os) (m : Messages) where
  -- A greeting decides whether the worker is taken.
  greeted :
      (p : Process os) (artifact offered : Bytes) (deadline : ℕ) (w1 w2 : os.World) {body : Bytes}
      → IsMessage m.ready
      → m.ready.encode (record { protocol = protocol_version; artifact = offered }) ≡ some body
      → os.expires deadline w1 ≡ false
      → os.next_frame 4 max_response_bytes p.channel.output w1 ≡ (frame body, w2)
      → greet os m p artifact (timeout os deadline (receive os m.ready p.channel) w1) ≡ (
          if bytes_eq offered artifact
          then (ok (record { process = p; next_request_id = 0 }), w2)
          else (err (prover "worker identity does not match"), stop_child os p.child w2))
  unfolding receive IsMessage
  greeted p artifact offered deadline w1 w2 reads encoded on_time received =
      rw (on_time, received, reads _ _ encoded) refl

  -- A worker that greets is taken exactly for the artifact that it has: if the process starts, its first
  -- frame is the greeting in time, and decoding undoes encoding, then the client returns a worker whose
  -- counter is zero if the artifact is its own, and otherwise refuses it and kills the process.
  pub start_worker-greeting :
      (executable directory : FilePath) (artifact offered : Bytes) (deadline : ℕ)
      (w w1 w2 : os.World) (p : Process os) (body : Bytes)
      → IsMessage m.ready
      → start_process os executable directory w ≡ (ok p, w1)
      → greeting m.ready offered ≡ some (be_bytes 4 (length body) ++ body)
      → os.expires deadline w1 ≡ false
      → os.next_frame 4 max_response_bytes p.channel.output w1 ≡ (frame body, w2)
      → start_worker os m executable directory artifact deadline w ≡ (
          if bytes_eq offered artifact
          then (ok (record { process = p; next_request_id = 0 }), w2)
          else (err (prover "worker identity does not match"), stop_child os p.child w2))
  unfolding start_worker
  start_worker-greeting executable directory artifact offered deadline w w1 w2 p body reads started
        greets on_time received =
      rw started (
        greeted p artifact offered deadline w1 w2 reads (greeting_inv m.ready offered body greets)
          on_time received)
