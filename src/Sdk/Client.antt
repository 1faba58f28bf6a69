-- ===== src/Sdk/Client.antt =====
-- crates/veil402-sdk/src/client/mod.rs: `Veil`, which proves transactions and builds instructions.
pub mod Slot
pub mod Proving
pub mod Running
use veil.Prelude.{ℕ, Bool, true, false, Option, none, some, List, if◌then◌else◌}
use veil.Prelude.Int.{ℤ, pos}
use veil.Prelude.Res as Res
use veil.Prelude.Res.{ok, err}
use veil.Bytes.{Bytes, bytes_eq}
use veil.Program.Runtime.{Pubkey, Runtime}
use veil.Sdk.Error.{Error, Res, prover, withdrawal}
use veil.Sdk.Os.{Os, FilePath, Io}
use veil.Sdk.Field.{Rng}
use veil.Sdk.Transaction.{PublicInputs, Plan, Public, Transaction, witness_bytes, plan}
use veil.Sdk.Solana.{Pool, External, Withdrawal, Proof, new_external, bind, public_amount}
use veil.Sdk.Solana.Instruction.{Instruction, Codec, build_instruction}
use veil.Sdk.Proving.Process.{stop_child}
use veil.Sdk.Proving.Worker.{Messages, Worker, start_worker, prove}
use veil.Sdk.Proving.Artifacts.{ArtifactLib, Artifacts, open_artifacts}
use veil.Sdk.Proving.Witness.{Noir, Witness, build_witness}

pub record Config : Type 0 where
  pub worker_executable : FilePath
  pub artifact_directory : FilePath
  pub timeout : ℕ

-- `Config::new`: 120 seconds
abbrev pub new_config : FilePath → FilePath → Config
new_config worker directory = record {
  worker_executable = worker;
  artifact_directory = directory;
  timeout = 120;
}

-- `Config::timeout`
abbrev pub with_timeout : Config → ℕ → Config
with_timeout config seconds = record config { timeout = seconds }

-- Everything that the client is compiled against.
pub record Platform : Type 1 where
  pub runtime : Runtime
  pub rng : Rng
  pub codec : Codec
  pub os : Os
  pub messages : Messages
  pub files : ArtifactLib
  pub noir : Noir files.Program

pub record Prepared : Type 0 where
  pub proof : Proof
  pub instruction : Instruction

module _ (f : Platform) where
  -- `Veil`, but for its worker, which is the state of the functions below.
  pub record Veil : Type 0 where
    pub artifacts : Artifacts f.files
    pub artifact_directory : FilePath
    pub worker_executable : FilePath
    pub timeout : ℕ

  -- The worker between two calls.
  abbrev pub Slot : Type 0
  Slot = Option (Worker f.os f.messages)

  -- `Veil::open`; the slot is empty then.
  unfoldable pub open_veil : Config → Res Veil
  unfolding open_artifacts
  open_veil config = Res.◌>>=◌ (open_artifacts f.files config.artifact_directory) λ opened.
      ok (record {
        artifacts = opened;
        artifact_directory = config.artifact_directory;
        worker_executable = config.worker_executable;
        timeout = config.timeout;
      })

  -- The worker of the slot, or a new one.
  abbrev pub take_worker : Veil → Slot → Io f.os.World (Worker f.os f.messages)
  take_worker v (some worker) w = (ok worker, w)
  take_worker v none w =
      start_worker f.os f.messages v.worker_executable v.artifact_directory v.artifacts.manifest.id
        v.timeout w

  -- The slot after a call, its result, and the world.
  abbrev pub Called : Type 0 → Type 0
  Called A = (Slot × Res A) × f.os.World

  -- What is done with the answer of the worker: it is kept only when it proved these public inputs.
  abbrev pub keep_worker :
      Veil → Witness → (Worker f.os f.messages × Res (Bytes × Bytes)) × f.os.World → Called Proof
  keep_worker v witness ((worker, err e), w) =
      ((none, err e), stop_child f.os worker.process.child w)
  keep_worker v witness ((worker, ok (bytes, public)), w) =
      if bytes_eq public (witness_bytes witness.public)
      then (
        (
          some worker,
          ok (record {
            bytes = bytes;
            public = witness.public;
            artifact = v.artifacts.manifest.id;
          }),
        ),
        w,
      )
      else (
        (none, err (prover "public witness does not match transaction")),
        stop_child f.os worker.process.child w,
      )

  abbrev pub use_worker : Veil → Witness → Res (Worker f.os f.messages) × f.os.World → Called Proof
  use_worker v witness (err e, w) = ((none, err e), w)
  use_worker v witness (ok worker, w) =
      keep_worker v witness (prove f.os f.messages worker witness.bytes v.timeout w)

  abbrev pub prove_witness : Veil → Slot → Res Witness → f.os.World → Called Proof
  prove_witness v slot (err e) w = ((slot, err e), w)
  prove_witness v slot (ok witness) w = use_worker v witness (take_worker v slot w)

  -- `Veil::prove`
  unfoldable pub prove_plan : Veil → Slot → Plan → Public → f.os.World → Called Proof
  unfolding build_witness start_worker prove witness_bytes
  prove_plan v slot p public w =
      prove_witness v slot (build_witness f.runtime.crypto f.noir v.artifacts.program p public) w

  abbrev pub finish : Pool → External → ℤ → Pubkey → Called Proof → Called Prepared
  finish pool external amount payer ((slot, err e), w) = ((slot, err e), w)
  finish pool external amount payer ((slot, ok proof), w) = (
    (
      slot,
      Res.◌>>=◌ (build_instruction f.runtime f.codec pool proof external amount payer)
          λ instruction. ok (record { proof = proof; instruction = instruction }),
    ),
    w,
  )

  -- What is proved: the plan, its public data, and the data outside the circuit.
  unfoldable pub planned :
      ℕ → Pool → Transaction → Pubkey → ℤ → f.rng.State → Res (Plan × External × Public)
  unfolding plan new_external bind
  planned fuel pool transaction recipient amount entropy =
      Res.◌>>=◌ (plan f.runtime.crypto f.rng fuel transaction pool.asset entropy) λ (p, entropy').
        Res.◌>>=◌ (new_external p recipient) λ external.
          Res.◌>>=◌ (bind f.runtime pool external amount)
            λ hash. ok (p, external, record { amount = amount; hash = hash })

  abbrev pub proceed :
      Veil
      → Slot
      → Pool
      → ℤ
      → Pubkey
      → Res (Plan × External × Public)
      → f.os.World
      → Called Prepared
  proceed v slot pool amount payer (err e) w = ((slot, err e), w)
  proceed v slot pool amount payer (ok (p, external, public)) w =
      finish pool external amount payer (prove_plan v slot p public w)

  -- `Veil::prepare`, with fuel for the draws of the plan
  unfoldable pub prepare :
      ℕ
      → Veil
      → Slot
      → Pool
      → Transaction
      → Pubkey
      → ℤ
      → Pubkey
      → f.rng.State
      → f.os.World
      → Called Prepared
  unfolding planned prove_plan build_instruction
  prepare fuel v slot pool transaction recipient amount payer entropy w =
      proceed v slot pool amount payer (planned fuel pool transaction recipient amount entropy) w

  unfoldable pub transfer :
      ℕ → Veil → Slot → Pool → Transaction → Pubkey → f.rng.State → f.os.World → Called Prepared
  unfolding prepare
  transfer fuel v slot pool transaction payer entropy w =
      prepare fuel v slot pool transaction pool.address (pos 0) payer entropy w

  unfoldable pub withdraw :
      ℕ
      → Veil
      → Slot
      → Pool
      → Transaction
      → Withdrawal
      → Pubkey
      → f.rng.State
      → f.os.World
      → Called Prepared
  unfolding prepare
  withdraw fuel v slot pool transaction wd payer entropy w =
      if bytes_eq wd.recipient pool.address
      then ((slot, err (withdrawal "recipient resolves to the pool vault")), w)
      else prepare fuel v slot pool transaction wd.recipient (public_amount wd) payer entropy w
