-- ===== src/Sdk/Proving/Worker.antt =====
-- crates/veil402-sdk/src/proving/worker/mod.rs: the protocol with the worker.
pub mod Outcome
use veil.Prelude.{
  ℕ, ◌+◌, ◌%◌, ◌^◌, ◌==◌, Bool, true, false, not, ◌&&◌, ◌||◌, Option, none, some, List, [], ◌∷◌,
  if◌then◌else◌,
}
use veil.Prelude.Res as Res
use veil.Prelude.Res.{ok, err, ok_or, require}
use veil.Bytes.{Bytes, bytes_eq}
use veil.Sdk.Error.{Error, Res, prover}
use veil.Sdk.Error as Error
use veil.Sdk.Os.{Os, Io, FilePath, Timed, finished, elapsed, ◌>>=◌, ◌>>◌, lift, timeout}
use veil.Sdk.Proving.Protocol.{
  Ready, Request, Response, Failure, unspecified, prove_failed, try_failure, Message, Channel, send,
  receive,
}
use veil.Sdk.Proving.Process.{Process, start_process, stop, stop_child}

abbrev pub version : ℕ
version = 1

abbrev pub is_unspecified : Failure → Bool
is_unspecified unspecified = true
is_unspecified prove_failed = false

abbrev pub is_empty : Bytes → Bool
is_empty [] = true
is_empty (b ∷ bs) = false

-- The messages that the client sends and receives.
pub record Messages : Type 0 where
  pub ready : Message Ready
  pub request : Message Request
  pub response : Message Response

-- `validate_response`, by the identifier of the request
unfoldable pub validate_response : ℕ → Response → Res (Bytes × Bytes)
validate_response id response =
    Res.◌>>◌ (require (response.id == id) (prover "worker response ID does not match")) (
      Res.◌>>=◌ (ok_or (try_failure response.failure) (prover "worker response is malformed"))
        λ failure.
          Res.◌>>◌ (require (is_unspecified failure) (prover "worker rejected the proof request")) (
            Res.◌>>◌
              (require (not (is_empty response.proof || is_empty response.public))
                (prover "worker response is incomplete"))
              (ok (response.proof, response.public))))

module _ (os : Os) (m : Messages) where
  pub record Worker : Type 0 where
    pub process : Process os
    pub next_request_id : ℕ

  -- The `match` on what the worker has said first.
  abbrev pub greet : Process os → Bytes → Timed Ready × os.World → Res Worker × os.World
  greet p artifact (finished (ok ready), w) =
      if (ready.protocol == version) && bytes_eq ready.artifact artifact
      then (ok (record { process = p; next_request_id = 0 }), w)
      else (err (prover "worker identity does not match"), stop_child os p.child w)
  greet p artifact (finished (err e), w) = (err e, stop_child os p.child w)
  greet p artifact (elapsed, w) = (err Error.timeout, stop_child os p.child w)

  unfoldable pub start_worker : FilePath → FilePath → Bytes → ℕ → Io os.World Worker
  unfolding receive start_process
  start_worker executable directory artifact deadline = do
    process ← start_process os executable directory
    λ w. greet process artifact (timeout os deadline (receive os m.ready process.channel) w)

  unfoldable pub exchange : Worker → Bytes → Io os.World (Bytes × Bytes)
  unfolding send receive validate_response
  exchange worker witness = do
    send os m.request worker.process.channel
        (record { id = worker.next_request_id; witness = witness })
    response ← receive os m.response worker.process.channel
    lift (validate_response worker.next_request_id response)

  abbrev pub stopped : Worker → os.World → Worker × os.World
  stopped worker w = let (p, w') = stop os worker.process w in (record worker { process = p }, w')

  -- The worker after a call, and its result.
  abbrev pub failed : Worker → Error → os.World → (Worker × Res (Bytes × Bytes)) × os.World
  failed worker e w = let (worker', w') = stopped worker w in ((worker', err e), w')

  abbrev pub conclude :
      Worker → Timed (Bytes × Bytes) × os.World → (Worker × Res (Bytes × Bytes)) × os.World
  conclude worker (finished (ok proof), w) = ((worker, ok proof), w)
  conclude worker (finished (err e), w) = failed worker e w
  conclude worker (elapsed, w) = failed worker Error.timeout w

  -- The request, unless its identifier has wrapped around to zero.
  unfoldable pub run_request :
      Bool → Worker → Bytes → ℕ → os.World → (Worker × Res (Bytes × Bytes)) × os.World
  unfolding stop
  run_request true worker witness deadline w =
      failed worker (prover "worker request ID was exhausted") w
  run_request false worker witness deadline w =
      conclude worker (timeout os deadline (exchange worker witness) w)

  abbrev pub with_next_id : Worker → Worker
  with_next_id worker = record worker { next_request_id = (worker.next_request_id + 1) % 2 ^ 64 }

  -- `Worker::prove`
  unfoldable pub prove : Worker → Bytes → ℕ → os.World → (Worker × Res (Bytes × Bytes)) × os.World
  unfolding run_request
  prove worker witness deadline w =
      run_request ((with_next_id worker).next_request_id == 0) (with_next_id worker) witness
        deadline w
