-- ===== src/Sdk/Proving/Artifacts/Checks.antt =====
-- What an opened artifact bundle has been checked for.
use veil.Prelude.{◌≡◌, ◌↔◌, refl, ap, ◌∙◌, some}
use veil.Prelude.Res.{
  ok, ok_or, require, require-true, bind_inv, then_inv, require-eq-ok, ok_or-eq-ok, ok-injective,
}
use mathlib.Core.Path.{subst}
use veil.Bytes.{Bytes, bytes_eq, bytes_eq_iff, ascii}
use veil.Sdk.Error.{Error, artifacts}
use veil.Sdk.Os.{FilePath}
use veil.Sdk.Proving.Artifacts.{noir_version, ArtifactLib, Artifacts, checked_file, open_artifacts}

equal_bytes : (a b : Bytes) (e : Error) → require (bytes_eq a b) e ≡ ok tt → a ≡ b
equal_bytes a b e h = (bytes_eq_iff a b).0 (require-eq-ok _ e h)

require_equal : (a b : Bytes) (e : Error) → a ≡ b → require (bytes_eq a b) e ≡ ok tt
require_equal a b e h = require-true _ e ((bytes_eq_iff a b).1 h)

module _ (l : ArtifactLib) (directory : FilePath) where
  -- The file has this content, and the content this digest.
  pub record IsFile (name expected bytes : Bytes) : Type 0 where
    pub content : l.read (l.join directory name) ≡ some bytes
    pub digest : l.hex_encode (l.sha256 bytes) ≡ expected

  checked_file_iff :
      (name expected bytes : Bytes)
      → (checked_file l directory name expected ≡ ok bytes) ↔ IsFile name expected bytes
  unfolding checked_file
  checked_file_iff name expected bytes = (
    λ e.
        bind_inv (ok_or (l.read (l.join directory name)) (artifacts "artifact is unavailable")) _ e
          λ b e0 h0.
            then_inv
              (require (bytes_eq (l.hex_encode (l.sha256 b)) expected)
                (artifacts "artifact checksum does not match"))
              _ h0
              λ e1 h1.
                let whole : IsFile name expected b = record {
                  content = ok_or-eq-ok _ (artifacts "artifact is unavailable") e0;
                  digest = equal_bytes _ _ (artifacts "artifact checksum does not match") e1;
                } in
                subst (λ (x : Bytes). IsFile name expected x) (ok-injective _ _ h1) whole,
    λ h.
        rw (h.content, require_equal _ _ (artifacts "artifact checksum does not match") h.digest)
          refl,
  )

  -- The manifest is the pinned one, the circuit is the one it names, made by the pinned version of Noir, and
  -- each file has the digest that the manifest gives.
  pub record IsChecked (a : Artifacts l) : Type 0 where
    pub manifest_file : l.read (l.join directory (ascii "manifest.json")) ≡ some l.pinned_manifest
    pub manifest : l.parse_manifest l.pinned_manifest ≡ some a.manifest
    pub noir : a.manifest.noir ≡ noir_version
    pub program_bytes : Bytes
    pub acir : IsFile (ascii "transaction.json") a.manifest.files.acir program_bytes
    pub program : l.parse_program program_bytes ≡ some a.program
    pub program_noir : l.noir_version_of a.program ≡ a.manifest.noir
    pub circuit : l.hash_of a.program ≡ a.manifest.circuit
    pub ccs : (bytes : Bytes) × IsFile (ascii "transaction.ccs") a.manifest.files.ccs bytes
    pub pk : (bytes : Bytes) × IsFile (ascii "transaction.pk") a.manifest.files.pk bytes
    pub vk : (bytes : Bytes) × IsFile (ascii "transaction.vk") a.manifest.files.vk bytes

  open_artifacts-IsChecked : {a : Artifacts l} → open_artifacts l directory ≡ ok a → IsChecked a
  unfolding open_artifacts
  open_artifacts-IsChecked {a} e =
      bind_inv
        (ok_or (l.read (l.join directory (ascii "manifest.json")))
          (artifacts "manifest is unavailable"))
        _ e
        λ manifest_bytes e0 h0.
          then_inv
            (require (bytes_eq manifest_bytes l.pinned_manifest)
              (artifacts "manifest does not match this SDK"))
            _ h0
            λ e1 h1.
              bind_inv (ok_or (l.parse_manifest manifest_bytes) (artifacts "manifest is malformed"))
                _ h1
                λ manifest e2 h2.
                  then_inv
                    (require (bytes_eq manifest.noir noir_version)
                      (artifacts "Noir version does not match"))
                    _ h2
                    λ e3 h3.
                      bind_inv
                        (checked_file l directory (ascii "transaction.json") manifest.files.acir) _
                        h3
                        λ program_bytes e4 h4.
                          bind_inv
                            (ok_or (l.parse_program program_bytes) (artifacts "ACIR is malformed"))
                            _ h4
                            λ program e5 h5.
                              then_inv
                                (require (bytes_eq (l.noir_version_of program) manifest.noir)
                                  (artifacts "ACIR Noir version does not match"))
                                _ h5
                                λ e6 h6.
                                  then_inv
                                    (require (bytes_eq (l.hash_of program) manifest.circuit)
                                      (artifacts "circuit hash does not match"))
                                    _ h6
                                    λ e7 h7.
                                      bind_inv
                                        (checked_file l directory (ascii "transaction.ccs")
                                          manifest.files.ccs)
                                        _ h7
                                        λ ccs e8 h8.
                                          bind_inv
                                            (checked_file l directory (ascii "transaction.pk")
                                              manifest.files.pk)
                                            _ h8
                                            λ pk e9 h9.
                                              bind_inv
                                                (checked_file l directory (ascii "transaction.vk")
                                                  manifest.files.vk)
                                                _ h9
                                                λ vk e10 h10.
                                                  let pinned =
                                                    equal_bytes _ _
                                                      (artifacts "manifest does not match this SDK")
                                                      e1 in
                                                  let made : Artifacts l = record {
                                                    manifest = manifest;
                                                    program = program;
                                                  } in
                                                  let whole : IsChecked made = record {
                                                    manifest_file =
                                                        ok_or-eq-ok _
                                                          (artifacts "manifest is unavailable") e0
                                                        ∙ ap some pinned;
                                                    manifest = rw (← pinned) (
                                                        ok_or-eq-ok _
                                                          (artifacts "manifest is malformed") e2);
                                                    noir =
                                                        equal_bytes _ _
                                                          (artifacts "Noir version does not match")
                                                          e3;
                                                    program_bytes = program_bytes;
                                                    acir = (checked_file_iff _ _ _).0 e4;
                                                    program =
                                                        ok_or-eq-ok _
                                                          (artifacts "ACIR is malformed") e5;
                                                    program_noir =
                                                        equal_bytes _ _
                                                          (artifacts
                                                            "ACIR Noir version does not match")
                                                          e6;
                                                    circuit =
                                                        equal_bytes _ _
                                                          (artifacts "circuit hash does not match")
                                                          e7;
                                                    ccs = (ccs, (checked_file_iff _ _ _).0 e8);
                                                    pk = (pk, (checked_file_iff _ _ _).0 e9);
                                                    vk = (vk, (checked_file_iff _ _ _).0 e10);
                                                  } in
                                                  subst IsChecked (ok-injective made a h10) whole

  IsChecked-open_artifacts : {a : Artifacts l} → IsChecked a → open_artifacts l directory ≡ ok a
  unfolding open_artifacts
  IsChecked-open_artifacts {a} h =
      rw
        (
          h.manifest_file,
          require_equal l.pinned_manifest l.pinned_manifest
              (artifacts "manifest does not match this SDK") refl,
          h.manifest,
          require_equal _ _ (artifacts "Noir version does not match") h.noir,
          (checked_file_iff _ _ _).1 h.acir,
          h.program,
          require_equal _ _ (artifacts "ACIR Noir version does not match") h.program_noir,
          require_equal _ _ (artifacts "circuit hash does not match") h.circuit,
          (checked_file_iff _ _ _).1 h.ccs.1,
          (checked_file_iff _ _ _).1 h.pk.1,
          (checked_file_iff _ _ _).1 h.vk.1,
        )
        refl

  -- A bundle is opened exactly when it has passed every check: manifest, version, circuit and digests.
  pub open_artifacts_iff : (a : Artifacts l) → (open_artifacts l directory ≡ ok a) ↔ IsChecked a
  open_artifacts_iff a = (open_artifacts-IsChecked, IsChecked-open_artifacts)
