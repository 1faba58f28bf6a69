-- ===== src/Sdk/Proving/Protocol.antt =====
-- crates/veil402-sdk/src/proving/worker/protocol.rs and generated.rs: messages and their channel.
pub mod Names
use veil.Prelude.{ℕ, zero, suc, ◌*◌, ◌^◌, Option, none, some, length, ltb, leb, if◌then◌else◌}
use veil.Prelude.Int.{ℤ, pos}
use veil.Prelude.Res as Res
use veil.Prelude.Res.{ok, err, ok_or, require}
use veil.Bytes.{Bytes, bytes_eq, ascii, be_bytes}
use veil.Sdk.Error.{Res, prover}
use veil.Sdk.Os.{Os, Io, Frame, ended, oversized, frame, ◌>>=◌, ◌>>◌, lift, attempt}

abbrev pub max_request_bytes : ℕ
max_request_bytes = 2 * 2 ^ 20

abbrev pub max_response_bytes : ℕ
max_response_bytes = 64 * 2 ^ 10

pub record Ready : Type 0 where
  pub protocol : ℕ
  pub artifact : Bytes

pub record Request : Type 0 where
  pub id : ℕ
  pub witness : Bytes

pub record Response : Type 0 where
  pub id : ℕ
  pub proof : Bytes
  pub public : Bytes
  pub failure : ℤ

pub data Failure : Type 0 where
  unspecified prove_failed : Failure

-- `Failure::try_from`
abbrev pub try_failure : ℤ → Option Failure
try_failure (pos zero) = some unspecified
try_failure (pos (suc zero)) = some prove_failed
try_failure other = none

-- `as_str_name` and `from_str_name`
unfoldable pub as_str_name : Failure → Bytes
as_str_name unspecified = ascii "FAILURE_UNSPECIFIED"
as_str_name prove_failed = ascii "FAILURE_PROVE_FAILED"

unfoldable pub from_str_name : Bytes → Option Failure
from_str_name value =
    if bytes_eq value (ascii "FAILURE_UNSPECIFIED")
    then some unspecified
    else if bytes_eq value (ascii "FAILURE_PROVE_FAILED")
    then some prove_failed
    else none

-- `prost::Message` for one type of messages
pub record Message (M : Type 0) : Type 0 where
  pub encode : M → Option Bytes
  pub decode : Bytes → Option M

module _ (os : Os) where
  pub record Channel : Type 0 where
    pub input : os.In
    pub output : os.Out

  -- The frame that `send` writes, its length first.
  unfoldable pub frame_parts : {M : Type 0} → Message M → M → Res (Bytes × Bytes)
  frame_parts m message =
      Res.◌>>=◌ (ok_or (m.encode message) (prover "worker request could not be encoded")) λ body.
        Res.◌>>◌
          (require (leb (length body) max_request_bytes) (prover "witness exceeded its size limit"))
          (Res.◌>>◌
            (require (ltb (length body) (2 ^ 32)) (prover "witness exceeded its size limit"))
            (ok (be_bytes 4 (length body), body)))

  unfoldable pub send : {M : Type 0} → Message M → Channel → M → Io os.World (Unit {0})
  unfolding frame_parts
  send m channel message = do
    (size, body) ← lift (frame_parts m message)
    attempt (os.write_all channel.input size) (prover "worker input failed")
    attempt (os.write_all channel.input body) (prover "worker input failed")
    attempt (os.flush channel.input) (prover "worker input failed")

  abbrev pub decoded : {M : Type 0} → Message M → Frame × os.World → Res M × os.World
  decoded m (ended, w) = (err (prover "worker stopped"), w)
  decoded m (oversized, w) = (err (prover "worker response exceeded its limit"), w)
  decoded m (frame body, w) = (ok_or (m.decode body) (prover "worker response is malformed"), w)

  unfoldable pub receive : {M : Type 0} → Message M → Channel → Io os.World M
  receive m channel w = decoded m (os.next_frame 4 max_response_bytes channel.output w)
