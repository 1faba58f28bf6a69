-- ===== src/Tests/ProvingWitnesses.antt =====
-- The theorems on the client's talk with its worker at concrete inputs.
use veil.Prelude.{
  ◌*◌, ◌^◌, ◌≤◌, ◌≡◌, ◌↔◌, ◌⊎◌, ℕ, refl, sym, ap, Option, List, none, some, [], ◌∷◌, ◌++◌,
  replicate, arith, append-injective,
}
use veil.Prelude.Res.{ok, err}
use mathlib.Core.Option.{some-injective}
use veil.Bytes.{be_bytes}
use veil.Program.Runtime.{Pubkey}
use veil.Sdk.Os.{Frame, frame}
use veil.Sdk.Proving.Protocol.{frame_parts}
use veil.Sdk.Proving.Worker.{prove}
use veil.Sdk.Proving.Worker.Outcome.{IsServed, prove-IsServed, prove-stops}
use veil.Sdk.Proving.Artifacts.{open_artifacts}
use veil.Sdk.Proving.Artifacts.Checks.{IsChecked, open_artifacts_iff}
use veil.Sdk.Proving.Witness.{build_witness}
use veil.Sdk.Client.{prove_plan}
use veil.Sdk.Client.Proving.{IsReady, IsProved, prove_plan-IsProved, prove_plan_error}
use veil.Sdk.Client.Running.{IsLife, IsRunning, opened, proved, Calls-IsRunning}
use veil.Prover.{ProveFn, read_message}
use veil.Prover.Framing.{IsMessage, read_message-frame_parts, frame_parts_iff}
use veil.Tests.Client.{planned, public, mint, pool_run}
use veil.Tests.Proving.{
  toy_os, toy_messages, toy_files, toy_platform, toy_veil, naming_runtime, frames, open_run,
  proved_run, named_pool, silent_run, the_worker, served_run, stopped_run, first_request,
  framed_run,
}

pub empty-IsReady : IsReady toy_platform none
unfolding IsReady
empty-IsReady = tt

prove_plan-IsProved_example :
    IsProved toy_platform toy_veil none planned public frames
      (prove_plan toy_platform toy_veil none planned public frames)
      proved_run.0
prove_plan-IsProved_example =
    prove_plan-IsProved toy_platform toy_veil none planned public frames empty-IsReady proved_run.1

prove_plan_error_example :
    ((prove_plan toy_platform toy_veil none planned public []).0.0 ≡ none)
    ⊎ ((build_witness toy_platform.runtime.crypto toy_platform.noir toy_veil.artifacts.program
            planned public
          ≡ err silent_run.0)
        × ((prove_plan toy_platform toy_veil none planned public []).0.0 ≡ none)
        × ((prove_plan toy_platform toy_veil none planned public []).1 ≡ []))
prove_plan_error_example =
    prove_plan_error toy_platform toy_veil none planned public [] silent_run.1

-- The one child that this system starts, which it never ends.
abbrev toy_life : IsLife toy_os
toy_life = record {
  IsAlive = λ w c. c ≡ 0;
  spawned = λ command w {x} e. sym (
      ap (λ (y : ℕ × Option ℕ × Option ℕ). y.0)
        (some-injective (0, some 1, some 2) x
          (ap (λ (y : Option (ℕ × Option ℕ × Option ℕ) × List Frame). y.0) e)));
  writes_to = λ pipe bytes w c alive. alive;
  flushes = λ pipe w c alive. alive;
  reads_from = λ size limit pipe w c alive. alive;
}

Calls-IsRunning_example :
    IsReady toy_platform (prove_plan toy_platform toy_veil none planned public frames).0.0
    × IsRunning toy_platform toy_life
        (prove_plan toy_platform toy_veil none planned public frames).0.0
        (prove_plan toy_platform toy_veil none planned public frames).1
Calls-IsRunning_example =
    Calls-IsRunning toy_platform toy_life toy_veil
      (proved none planned public frames (opened frames))

pub own_vault :
    (owner : Pubkey)
    → naming_runtime.get_associated_token_address owner named_pool.mint ≡ named_pool.vault
    → owner ≡ named_pool.address
unfolding named_pool pool_run
own_vault owner e = (append-injective mint mint refl e).1

prove-IsServed_example :
    IsServed toy_os toy_messages the_worker
      (prove toy_os toy_messages the_worker (1 ∷ []) 120 (frame (9 ∷ []) ∷ [])).0.0
      (1 ∷ [])
      120
      (frame (9 ∷ []) ∷ [])
      (prove toy_os toy_messages the_worker (1 ∷ []) 120 (frame (9 ∷ []) ∷ [])).1
      (1 ∷ replicate 387 0)
      (9 ∷ [])
prove-IsServed_example =
    prove-IsServed toy_os toy_messages the_worker (1 ∷ []) 120 (frame (9 ∷ []) ∷ []) (omega arith)
      served_run

prove-stops_example :
    ((prove toy_os toy_messages the_worker (1 ∷ []) 120 []).0.0.process.child ≡ none)
    × (w' : toy_os.World) × ((prove toy_os toy_messages the_worker (1 ∷ []) 120 []).1
        ≡ toy_os.kill 0 w')
prove-stops_example =
    prove-stops toy_os toy_messages the_worker 0 (1 ∷ []) 120 [] refl stopped_run.1

open_artifacts_iff_example :
    (open_artifacts toy_files [] ≡ ok open_run.0) ↔ IsChecked toy_files [] open_run.0
open_artifacts_iff_example = open_artifacts_iff toy_files [] open_run.0

pub toy_request-IsMessage : IsMessage toy_messages.request
unfolding IsMessage
toy_request-IsMessage a body e = rw (← some-injective _ _ e) refl

read_message-frame_parts_example :
    read_message toy_messages.request ((0 ∷ 0 ∷ 0 ∷ 3 ∷ []) ++ ((1 ∷ 8 ∷ 9 ∷ []) ++ (5 ∷ [])))
    ≡ some (first_request, 5 ∷ [])
read_message-frame_parts_example =
    read_message-frame_parts toy_os toy_messages.request first_request (5 ∷ [])
      toy_request-IsMessage framed_run

frame_parts_iff_example :
    (frame_parts toy_os toy_messages.request first_request
      ≡ ok (0 ∷ 0 ∷ 0 ∷ 3 ∷ [], 1 ∷ 8 ∷ 9 ∷ []))
    ↔ ((toy_messages.request.encode first_request ≡ some (1 ∷ 8 ∷ 9 ∷ []))
        × (3 ≤ 2 * 2 ^ 20)
        × (0 ∷ 0 ∷ 0 ∷ 3 ∷ [] ≡ be_bytes 4 3))
frame_parts_iff_example =
    frame_parts_iff toy_os toy_messages.request first_request (0 ∷ 0 ∷ 0 ∷ 3 ∷ []) (1 ∷ 8 ∷ 9 ∷ [])

-- A prover that proves what it is given.
abbrev pub copying : ProveFn
copying = λ witness. some (witness, 4 ∷ [])
