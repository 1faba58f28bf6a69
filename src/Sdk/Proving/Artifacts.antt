-- ===== src/Sdk/Proving/Artifacts.antt =====
-- crates/veil402-sdk/src/proving/artifacts.rs: the pinned manifest and the files it names.
pub mod Checks
use veil.Prelude.{ℕ, Bool, Option, none, some, List, [], ◌∷◌}
use veil.Prelude.Res.{ok, err, ok_or, require, ◌>>=◌, ◌>>◌}
use veil.Bytes.{Bytes, bytes_eq, ascii}
use veil.Sdk.Error.{Error, Res, artifacts}
use veil.Sdk.Os.{FilePath}

abbrev pub noir_version : Bytes
noir_version = ascii "1.0.0-beta.22+c57152f91260ecdb9faad4efc20abb14b6d2ece7"

pub record Files : Type 0 where
  pub acir : Bytes
  pub ccs : Bytes
  pub pk : Bytes
  pub vk : Bytes

pub record Manifest : Type 0 where
  pub id : Bytes
  pub noir : Bytes
  pub circuit : Bytes
  pub files : Files

-- The content of files by path while they are read, the JSON decoders, the digest, and the manifest that the build includes.
pub record ArtifactLib : Type 1 where
  pub Program : Type 0
  pub join : FilePath → Bytes → FilePath
  pub read : FilePath → Option Bytes
  pub parse_manifest : Bytes → Option Manifest
  pub parse_program : Bytes → Option Program
  pub noir_version_of : Program → Bytes
  pub hash_of : Program → Bytes
  pub sha256 : Bytes → Bytes
  pub hex_encode : Bytes → Bytes
  pub pinned_manifest : Bytes

module _ (l : ArtifactLib) where
  pub record Artifacts : Type 0 where
    pub manifest : Manifest
    pub program : l.Program

  unfoldable pub checked_file : FilePath → Bytes → Bytes → Res Bytes
  checked_file directory name expected = do
    bytes ← ok_or (l.read (l.join directory name)) (artifacts "artifact is unavailable")
    require (bytes_eq (l.hex_encode (l.sha256 bytes)) expected)
        (artifacts "artifact checksum does not match")
    ok bytes

  -- `Artifacts::open`
  unfoldable pub open_artifacts : FilePath → Res Artifacts
  unfolding checked_file
  open_artifacts directory = do
    manifest_bytes ←
        ok_or (l.read (l.join directory (ascii "manifest.json")))
          (artifacts "manifest is unavailable")
    require (bytes_eq manifest_bytes l.pinned_manifest)
        (artifacts "manifest does not match this SDK")
    manifest ← ok_or (l.parse_manifest manifest_bytes) (artifacts "manifest is malformed")
    require (bytes_eq manifest.noir noir_version) (artifacts "Noir version does not match")
    program_bytes ← checked_file directory (ascii "transaction.json") manifest.files.acir
    program ← ok_or (l.parse_program program_bytes) (artifacts "ACIR is malformed")
    require (bytes_eq (l.noir_version_of program) manifest.noir)
        (artifacts "ACIR Noir version does not match")
    require (bytes_eq (l.hash_of program) manifest.circuit)
        (artifacts "circuit hash does not match")
    _ ← checked_file directory (ascii "transaction.ccs") manifest.files.ccs
    _ ← checked_file directory (ascii "transaction.pk") manifest.files.pk
    _ ← checked_file directory (ascii "transaction.vk") manifest.files.vk
    ok (record { manifest = manifest; program = program })
