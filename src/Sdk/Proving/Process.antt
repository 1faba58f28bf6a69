-- ===== src/Sdk/Proving/Process.antt =====
-- crates/veil402-sdk/src/proving/worker/process.rs: the worker's process.
use veil.Prelude.{Option, none, some, [], ◌∷◌}
use veil.Prelude.Res.{ok, err, require}
use veil.Bytes.{ascii}
use veil.Sdk.Error.{prover, artifacts}
use veil.Sdk.Os.{Os, Io, FilePath, Command, ◌>>=◌, ◌>>◌, ask, settle}
use veil.Sdk.Proving.Protocol.{Channel}

module _ (os : Os) where
  -- `child` is taken when the process is stopped.
  pub record Process : Type 0 where
    pub child : Option os.Child
    pub channel : Channel os

  abbrev pub worker_command : FilePath → FilePath → Command
  worker_command executable directory = record {
    program = executable;
    arguments = ascii "-artifacts" ∷ directory ∷ [];
    current_dir = directory;
  }

  -- A child whose pipes are missing is dropped, and so killed.
  abbrev pub take_pipes : os.Child × Option os.In × Option os.Out → Io os.World Process
  take_pipes (child, none, output) w = (err (prover "worker input is unavailable"), os.kill child w)
  take_pipes (child, some input, none) w =
      (err (prover "worker output is unavailable"), os.kill child w)
  take_pipes (child, some input, some output) w =
      (ok (record { child = some child; channel = record { input = input; output = output } }), w)

  abbrev pub test_file : FilePath → Io os.World (Unit {0})
  test_file path w = (require (os.is_file path w) (prover "worker executable is unavailable"), w)

  unfoldable pub start_process : FilePath → FilePath → Io os.World Process
  start_process executable directory = do
    program ← ask (os.canonicalize executable) (prover "worker executable is unavailable")
    test_file program
    directory' ← ask (os.canonicalize directory) (artifacts "artifact directory is unavailable")
    spawned ← λ w.
        settle (prover "worker could not start") (os.spawn (worker_command program directory') w)
    take_pipes spawned

  -- `stop`, and `drop` as far as the child is concerned.
  abbrev pub stop_child : Option os.Child → os.World → os.World
  stop_child none w = w
  stop_child (some child) w = os.kill child w

  unfoldable pub stop : Process → os.World → Process × os.World
  stop p w = (record p { child = none }, stop_child p.child w)
