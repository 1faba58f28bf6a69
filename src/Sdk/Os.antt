-- ===== src/Sdk/Os.antt =====
-- What the client takes from the operating system and tokio: the worker's process and its pipes, the
-- clock and the file system. Paths, and strings that the client compares, are their bytes.
use Prim.Native.String.{String}
pub mod Laws
use veil.Prelude.{ℕ, Bool, true, false, Option, none, some, List}
use veil.Prelude.Res.{ok, err}
use veil.Bytes.{Bytes}
use veil.Sdk.Error.{Error, Res}

abbrev pub FilePath : Type 0
FilePath = Bytes

-- What `Command` is given. Its standard error is null, its environment empty, its input and output
-- are pipes, and it leads a process group that is killed with it.
pub record Command : Type 0 where
  pub program : FilePath
  pub arguments : List Bytes
  pub current_dir : FilePath

-- One item of a `FramedRead` stream of length-delimited frames.
pub data Frame : Type 0 where
  ended oversized : Frame
  frame : Bytes → Frame

-- `World` is everything outside the client.
pub record Os : Type 1 where
  pub World : Type 0
  pub Child : Type 0
  pub In : Type 0
  pub Out : Type 0
  pub canonicalize : FilePath → World → Option FilePath
  pub is_file : FilePath → World → Bool
  -- the child with its two pipes, where they are there
  pub spawn : Command → World → Option (Child × Option In × Option Out) × World
  pub write_all : In → Bytes → World → Bool × World
  pub flush : In → World → Bool × World
  -- the sizes of the length field and of the longest frame come first
  pub next_frame : ℕ → ℕ → Out → World → Frame × World
  -- `start_kill`, and the end of the child
  pub kill : Child → World → World
  -- whether the deadline passes before an exchange that begins now is done
  pub expires : ℕ → World → Bool
  -- what an exchange leaves behind that its deadline cuts off
  pub abandon : World → World

-- An asynchronous call of the client: its result, and the world after it. An error ends the call and
-- keeps what has been done.
abbrev pub Io {ℓ} : Type 0 → Type ℓ → Type ℓ
Io W A = W → Res A × W

-- What `tokio::time::timeout` returns.
pub data Timed {ℓ} (A : Type ℓ) : Type ℓ where
  finished : Res A → Timed A
  elapsed : Timed A

module _ {ℓ κ} {W : Type 0} {A : Type ℓ} {B : Type κ} where
  abbrev pub continue : Res A × W → (A → Io W B) → Res B × W
  continue (ok a, w) f = f a w
  continue (err e, w) f = (err e, w)

  infixl 5 ◌>>=◌
  abbrev pub ◌>>=◌ : Io W A → (A → Io W B) → Io W B
  ◌>>=◌ m f w = continue (m w) f

module _ {ℓ} {W : Type 0} {A : Type ℓ} where
  infixl 5 ◌>>◌
  abbrev pub ◌>>◌ : Io W (Unit {0}) → Io W A → Io W A
  m >> k = m >>= λ _. k

  abbrev pub lift : Res A → Io W A
  lift r w = (r, w)

  abbrev pub return : A → Io W A
  return a w = (ok a, w)

  -- An optional value that the world is asked for.
  abbrev pub ask : (W → Option A) → Error → Io W A
  ask q e w = elim (q w) [ none ↦ (err e, w) | some a ↦ (ok a, w) ]

  abbrev pub settle : Error → Option A × W → Res A × W
  settle e (none, w) = (err e, w)
  settle e (some a, w) = (ok a, w)

module _ {W : Type 0} where
  abbrev pub tested : Error → Bool × W → Res (Unit {0}) × W
  tested e (true, w) = (ok tt, w)
  tested e (false, w) = (err e, w)

  -- A call of the operating system that succeeds or fails.
  abbrev pub attempt : (W → Bool × W) → Error → Io W (Unit {0})
  attempt call e w = tested e (call w)

module _ {ℓ} {A : Type ℓ} (os : Os) where
  abbrev pub in_time : Res A × os.World → Timed A × os.World
  in_time (r, w) = (finished r, w)

  abbrev pub by_deadline : Bool → Io os.World A → os.World → Timed A × os.World
  by_deadline true m w = (elapsed, os.abandon w)
  by_deadline false m w = in_time (m w)

  -- `tokio::time::timeout`
  abbrev pub timeout : ℕ → Io os.World A → os.World → Timed A × os.World
  timeout d m w = by_deadline (os.expires d w) m w
