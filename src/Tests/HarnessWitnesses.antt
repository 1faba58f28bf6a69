-- ===== src/Tests/HarnessWitnesses.antt =====
-- The theorems on the end-to-end tests' transactions at concrete inputs.
use veil.Prelude.{◌≡◌, refl, some, replicate}
use veil.Program.State.{program_id}
use veil.Sdk.Solana.Instruction.{request}
use veil.Harness.{transact_instruction}
use veil.Harness.Metas.{of_request, transact_instruction-build_instruction}
use veil.Tests.Runtime.{toy_runtime}
use veil.Tests.Client.{toy_codec, pool_run, proof, public, external_run, instruction_run}

own : pool_run.0.program ≡ program_id
unfolding pool_run
own = refl

transact_instruction-build_instruction_example :
    transact_instruction toy_runtime toy_codec pool_run.0 (replicate 32 15) (
      of_request
        (request toy_runtime pool_run.0 proof external_run.0 public.amount (replicate 32 15)))
    ≡ some instruction_run.0
transact_instruction-build_instruction_example =
    transact_instruction-build_instruction toy_runtime toy_codec pool_run.0 proof external_run.0
      public.amount (replicate 32 15) own instruction_run.1
