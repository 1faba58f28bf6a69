-- ===== src/Tests/Session.antt =====
-- A worker behind pipes that compute: what is written is kept, and a frame is what the worker's loop writes.
use veil.Prelude.{
  ℕ, ◌≡◌, ◌≢◌, refl, true, false, Option, none, some, [], ◌∷◌, ◌++◌, length, take, drop, ◌==◌,
  if◌then◌else◌, take-append-length, drop-append-length, arith,
}
use mathlib.Core.Option.{some-injective}
use veil.Prelude.Int.{ℤ, pos, negsuc}
use veil.Prelude.Res.{ok, err}
use veil.Bytes.{Bytes, bytes_eq, be_bytes}
use veil.Bytes.Laws.{length-be_bytes}
use veil.Sdk.Os.{Os, Frame, ended, frame}
use veil.Sdk.Proving.Protocol.{Ready, Response}
use veil.Sdk.Proving.Worker.{start_worker, Messages, Worker, prove}
use veil.Sdk.Error.{prover}
use veil.Sdk.Proving.Process.{Process, start_process}
use veil.Prover.{answer, serve_one, greeting, write_message}
use veil.Prover.Greeting.{start_worker-greeting}
use veil.Prover.Framing.{IsMessage}
use veil.Prover.Session.{Reports, IsConnected, IsInStep, prove-outcome}
use veil.Tests.ProvingWitnesses.{copying, toy_request-IsMessage}
use veil.Tests.Proving.{toy_os, toy_messages}

abbrev sign : ℤ → Bytes
sign (pos n) = 0 ∷ n ∷ []
sign (negsuc n) = 1 ∷ n ∷ []

abbrev unsign : ℕ → ℕ → ℤ
unsign s n = if s == 0 then pos n else negsuc n

abbrev encode_response : Response → Option Bytes
encode_response r = some (r.id ∷ length r.proof ∷ sign r.failure ++ (r.proof ++ r.public))

abbrev decode_response : Bytes → Option Response
decode_response (id ∷ size ∷ s ∷ n ∷ rest) =
    some (record { id = id; proof = take size rest; public = drop size rest; failure = unsign s n })
decode_response other = none

abbrev decode_ready : Bytes → Option Ready
decode_ready [] = none
decode_ready (version ∷ rest) = some (record { protocol = version; artifact = rest })

abbrev codec : Messages
codec = record toy_messages {
  ready = record { encode = λ x. some (x.protocol ∷ x.artifact); decode = decode_ready };
  response = record { encode = encode_response; decode = decode_response };
}

decoded_response :
    (id : ℕ) (proof public : Bytes) (failure : ℤ)
    → decode_response (id ∷ length proof ∷ sign failure ++ (proof ++ public))
      ≡ some (record { id = id; proof = proof; public = public; failure = failure })
decoded_response id proof public (pos n) =
    rw (take-append-length proof public, drop-append-length proof public) refl
decoded_response id proof public (negsuc n) =
    rw (take-append-length proof public, drop-append-length proof public) refl

codec_response-IsMessage : IsMessage codec.response
unfolding IsMessage
codec_response-IsMessage a body e =
    rw (← some-injective _ _ e) (decoded_response a.id a.proof a.public a.failure)

abbrev next_reply : Option (Bytes × Bytes × ℕ) → Bytes × ℕ → Frame × (Bytes × ℕ)
next_reply none w = (ended, w)
next_reply (some (reply, rest, next)) w = (frame (drop 4 reply), (rest, next))

abbrev piped_os : Os
piped_os = record toy_os {
  World = Bytes × ℕ;
  canonicalize = λ path w. some path;
  is_file = λ path w. true;
  spawn = λ command w. (some (0, some 1, some 2), w);
  write_all = λ pipe bytes w. (true, (w.0 ++ bytes, w.1));
  flush = λ pipe w. (true, w);
  next_frame =
      λ size limit pipe w. next_reply (serve_one codec.request codec.response copying w.1 w.0) w;
  kill = λ child w. w;
  expires = λ deadline w. false;
  abandon = λ w. w;
}

abbrev piped_worker : Worker piped_os codec
piped_worker = record {
  process = record { child = some 0; channel = record { input = 1; output = 2 } };
  next_request_id = 0;
}

drop_header : (body : Bytes) → drop 4 (be_bytes 4 (length body) ++ body) ≡ body
drop_header body =
    rw (length-be_bytes 4 (length body)) at (drop-append-length (be_bytes 4 (length body)) body)

connected : IsConnected piped_os codec copying piped_worker.process.channel
connected = record {
  waiting = λ w. w.0;
  expects = λ w. w.1;
  writes = λ bytes w. ((w.0 ++ bytes, w.1), refl, refl, refl);
  flushes = λ w. (w, refl, refl, refl);
  answers = λ w body rest next e fits. ((rest, next), rw (e, drop_header body) refl, refl, refl);
}

in_step : IsInStep piped_worker connected ([], 1)
unfolding connected
in_step = record { nothing_waits = refl; same_count = refl }

filled_proof :
    (proof public : Bytes)
    → copying (8 ∷ 9 ∷ []) ≡ some (proof, public)
    → (proof ≢ []) × (public ≢ [])
filled_proof proof public e = (λ p. absurd (cc (p, e)), λ p. absurd (cc (p, e)))

prove-outcome_example :
    Reports piped_os codec piped_worker connected 0
      (prove piped_os codec piped_worker (8 ∷ 9 ∷ []) 120 ([], 1))
      (copying (8 ∷ 9 ∷ []))
unfolding answer
prove-outcome_example =
    prove-outcome piped_os codec copying piped_worker connected 0 (8 ∷ 9 ∷ []) 120 ([], 1) refl
      toy_request-IsMessage codec_response-IsMessage in_step (omega arith) refl refl (omega arith)
      refl (omega arith) filled_proof

ready-IsMessage : IsMessage codec.ready
unfolding IsMessage
ready-IsMessage a body e = rw (← some-injective _ _ e) refl

abbrev said : Bytes
said = 1 ∷ 7 ∷ 7 ∷ []

abbrev fresh_process : Process toy_os
fresh_process = record { child = some 0; channel = record { input = 1; output = 2 } }

started : start_process toy_os [] [] (frame said ∷ []) ≡ (ok fresh_process, frame said ∷ [])
unfolding start_process
started = refl

greets : greeting codec.ready (7 ∷ 7 ∷ []) ≡ some (be_bytes 4 3 ++ said)
unfolding write_message be_bytes
greets = refl

start_worker-greeting_example :
    start_worker toy_os codec [] [] (7 ∷ 7 ∷ []) 120 (frame said ∷ []) ≡ (
      if bytes_eq (7 ∷ 7 ∷ []) (7 ∷ 7 ∷ [])
      then (ok (record { process = fresh_process; next_request_id = 0 }), [])
      else (err (prover "worker identity does not match"), []))
start_worker-greeting_example =
    start_worker-greeting toy_os codec [] [] (7 ∷ 7 ∷ []) (7 ∷ 7 ∷ []) 120 (frame said ∷ [])
      (frame said ∷ []) [] fresh_process said ready-IsMessage started greets refl refl
