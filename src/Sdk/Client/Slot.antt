-- ===== src/Sdk/Client/Slot.antt =====
-- The worker that `Veil` keeps between its calls.
use veil.Prelude.{
  ℕ, ◌^◌, ◌<◌, ◌≡◌, inl, inr, sym, ap, ◌∙◌, ◌&&◌, ◌==◌, Option, none, some, Bool-cases, arith,
}
use veil.Prelude.Res.{ok, err, ok-injective}
use veil.Bytes.{Bytes, bytes_eq}
use veil.Sdk.Error.{prover, artifacts}
use veil.Sdk.Os.{Os, FilePath, Timed, finished, elapsed, ask, settle, timeout}
use veil.Sdk.Os.Laws.{continue_inv}
use veil.Sdk.Proving.Protocol.{Ready, receive}
use veil.Sdk.Proving.Process.{Process, worker_command, take_pipes, test_file, start_process}
use veil.Sdk.Proving.Worker.{Messages, Worker, version, greet, start_worker}
use veil.Sdk.Proving.Worker.Outcome.{IsServed}

module _ (os : Os) where
  HasChild : Option os.Child → Type 0
  HasChild child = (c : os.Child) × (child ≡ some c)

  take_pipes_child :
      (x : os.Child × Option os.In × Option os.Out) (w : os.World) {p : Process os}
      → (take_pipes os x w).0 ≡ ok p
      → HasChild p.child
  unfolding HasChild
  take_pipes_child (child, none, output) w e = absurd (cc)
  take_pipes_child (child, some input, none) w e = absurd (cc)
  take_pipes_child (child, some input, some output) w e =
      (child, ap (λ (x : Process os). x.child) (sym (ok-injective _ _ e)))

  start_process_child :
      (executable directory : FilePath) (w : os.World) {p : Process os}
      → (start_process os executable directory w).0 ≡ ok p
      → HasChild p.child
  unfolding start_process
  start_process_child executable directory w e =
      let (program, w1, _, e1) =
        continue_inv
          (ask (os.canonicalize executable) (prover "worker executable is unavailable") w) _ e in
      let (_, w2, _, e2) = continue_inv (test_file os program w1) _ e1 in
      let (directory', w3, _, e3) =
        continue_inv
          (ask (os.canonicalize directory) (artifacts "artifact directory is unavailable") w2) _
          e2 in
      let (spawned, w4, _, e4) =
        continue_inv
          (settle (prover "worker could not start")
            (os.spawn (worker_command os program directory') w3))
          _ e3 in
      take_pipes_child spawned w4 e4

  module _ (m : Messages) where
    -- A worker between two calls: it has a child, and its counter is a `u64`.
    pub record IsIdle (worker : Worker os m) : Type 0 where
      pub child : os.Child
      pub running : worker.process.child ≡ some child
      pub fits : worker.next_request_id < 2 ^ 64

    greet-IsIdle :
        (p : Process os) (artifact : Bytes) (t : Timed Ready × os.World) {worker : Worker os m}
        → HasChild p.child
        → (greet os m p artifact t).0 ≡ ok worker
        → IsIdle worker
    unfolding HasChild
    greet-IsIdle p artifact (finished (ok ready), w) {worker} h e =
        elim (Bool-cases ((ready.protocol == version) && bytes_eq ready.artifact artifact)) [
          | inl same ↦
              let started : Worker os m = record { process = p; next_request_id = 0 } in
              let idle : IsIdle started = record {
                child = h.0;
                running = h.1;
                fits = omega arith;
              } in
              let found : started ≡ worker = ok-injective _ _ (rw same at e) in rw found at idle
          | inr other ↦ absurd (cc (rw other at e))
        ]
    greet-IsIdle p artifact (finished (err x), w) h e = absurd (cc)
    greet-IsIdle p artifact (elapsed, w) h e = absurd (cc)

    pub start_worker-IsIdle :
        (executable directory : FilePath) (artifact : Bytes) (deadline : ℕ) (w : os.World)
        {worker : Worker os m}
        → (start_worker os m executable directory artifact deadline w).0 ≡ ok worker
        → IsIdle worker
    unfolding start_worker
    start_worker-IsIdle executable directory artifact deadline w e =
        let (p, w1, e0, e1) = continue_inv (start_process os executable directory w) _ e in
        greet-IsIdle p artifact (timeout os deadline (receive os m.ready p.channel) w1)
          (start_process_child executable directory w e0) e1

    pub IsServed-IsIdle :
        {before after : Worker os m} {witness : Bytes} {deadline : ℕ} {w w' : os.World}
        {proof public : Bytes}
        → IsIdle before
        → IsServed os m before after witness deadline w w' proof public
        → IsIdle after
    IsServed-IsIdle h s = record {
      child = h.child;
      running = ap (λ (p : Process os). p.child) s.process ∙ h.running;
      fits = s.fits;
    }
