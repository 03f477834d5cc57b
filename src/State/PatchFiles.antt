-- ===== src/State/PatchFiles.antt =====
-- crates/fcb_core/src/state.rs: the paths below patches/, the files there, and the artifact that a
-- binary diff makes (`validate_payload_contract`, `find_diff_base`, `snapshot_replace_chained_diff`).
-- The constant `snapshot_replace` of a build is the feature of that name.
use fl_codepush_box.Prelude.{
  decimal, ℕ, Bool, true, false, not, ◌&&◌, Option, none, some, List, [], ◌∷◌, ◌++◌, if◌then◌else◌,
  Str, Bytes, codes, bytes_eq, starts_with, Result, ok, err, ◌>>=◌, ◌>>◌, refuse_if, ok_or,
}
use fl_codepush_box.Host.{Host}
use fl_codepush_box.Manifest.{PatchManifest}
use fl_codepush_box.Signing.{SigningError}
use fl_codepush_box.Bytecode.Format.{BytecodeError}
use fl_codepush_box.Bytecode.Load.{from_slice_envelope}
use fl_codepush_box.Diff.{DiffError, apply_binary_diff}
use fl_codepush_box.State.{InstalledPatch}

pub data InstallError : Type 0 where
  manifest_unreadable manifest_json : InstallError
  signing : SigningError → InstallError
  payload_unreadable payload_hash : InstallError
  payload_kind unsupported_backend no_diff_algorithm no_base_hash no_output_hash : InstallError
  bytecode : BytecodeError → InstallError
  no_base baseline_unreadable baseline_hash : InstallError
  diff : DiffError → InstallError
  artifact_hash backend_disabled : InstallError

-- A failure of another component, as a failure of the install.
abbrev pub map_err : {E A : Type 0} → (E → InstallError) → Result E A → Result InstallError A
map_err f (ok a) = ok a
map_err f (err e) = err (f e)

unfoldable pub patch_dir : ℕ → Str
patch_dir p = codes "patches/" ++ (decimal p ++ codes "/")

unfoldable pub manifest_file : ℕ → Str
manifest_file p = patch_dir p ++ codes "manifest.json"

unfoldable pub payload_file : ℕ → Str
payload_file p = patch_dir p ++ codes "payload.bin"

unfoldable pub artifact_file : ℕ → Str
artifact_file p = patch_dir p ++ codes "libapp.so"

-- `fs::read(cache_dir.join(path))`
pub read_file : List (Str × Bytes) → Str → Option Bytes
read_file [] path = none
read_file ((p, bytes) ∷ files) path =
    let later = read_file files path in if bytes_eq p path then some bytes else later

-- `atomic_write_bytes(&cache_dir.join(path), bytes)`
pub write_file : Str → Bytes → List (Str × Bytes) → List (Str × Bytes)
write_file path bytes [] = (path, bytes) ∷ []
write_file path bytes ((p, old) ∷ files) =
    let rest = write_file path bytes files in
    if bytes_eq p path then (p, bytes) ∷ files else (p, old) ∷ rest

-- `fs::remove_dir_all(&patch_dir)`
pub remove_dir : Str → List (Str × Bytes) → List (Str × Bytes)
remove_dir dir [] = []
remove_dir dir ((p, bytes) ∷ files) =
    let rest = remove_dir dir files in if starts_with dir p then rest else (p, bytes) ∷ rest

abbrev missing : {A : Type 0} → Option A → Bool
missing none = true
missing (some _) = false

abbrev pub bytecode_backend : Str
bytecode_backend = codes "bytecode"

abbrev pub snapshot_backend : Str
snapshot_backend = codes "snapshot_replace"

module _ (h : Host) where
  abbrev bytecode_contract : PatchManifest → Bytes → Result InstallError (Unit {0})
  bytecode_contract m payload = do
    refuse_if (not (bytes_eq m.payload.kind (codes "bytecode_module"))) payload_kind
    _ ← map_err bytecode (from_slice_envelope h.parse_module payload)
    ok tt

  abbrev snapshot_contract : PatchManifest → Result InstallError (Unit {0})
  snapshot_contract m = do
    refuse_if (not (bytes_eq m.payload.kind (codes "binary_diff"))) payload_kind
    refuse_if (missing m.payload.diff_algorithm) no_diff_algorithm
    refuse_if (missing m.payload.base_hash) no_base_hash
    refuse_if (missing m.payload.output_hash) no_output_hash

  unfoldable pub validate_payload_contract :
      Bool → PatchManifest → Bytes → Result InstallError (Unit {0})
  validate_payload_contract snapshot_replace m payload =
      if bytes_eq m.backend bytecode_backend
      then bytecode_contract m payload
      else if snapshot_replace && bytes_eq m.backend snapshot_backend
      then snapshot_contract m
      else err unsupported_backend

  -- The artifact of an installed patch, if it is there and has the hash.
  abbrev matching : Str → List (Str × Bytes) → Option Str → Option Bytes
  matching hash files none = none
  matching hash files (some path) = elim (read_file files path) [
    | none ↦ none
    | some bytes ↦ if bytes_eq (h.sha256_hex bytes) hash then some bytes else none
  ]

  -- The loop of `find_diff_base`, from the last installed patch to the first.
  pub last_matching : Str → List (Str × Bytes) → List InstalledPatch → Option Bytes
  last_matching hash files [] = none
  last_matching hash files (i ∷ is) = elim (last_matching hash files is) [
    | some bytes ↦ some bytes
    | none ↦ matching hash files i.artifact_path
  ]

  -- The baseline is a path that may be absent, and a file that may be unreadable.
  abbrev baseline_base : Str → Option (Option Bytes) → Result InstallError Bytes
  baseline_base hash none = err no_base
  baseline_base hash (some none) = err baseline_unreadable
  baseline_base hash (some (some bytes)) =
      if bytes_eq (h.sha256_hex bytes) hash then ok bytes else err baseline_hash

  pub find_diff_base :
      Str
      → List (Str × Bytes)
      → List InstalledPatch
      → Option (Option Bytes)
      → Result InstallError Bytes
  find_diff_base hash files installed baseline = elim (last_matching hash files installed) [
    | some bytes ↦ ok bytes
    | none ↦ baseline_base hash baseline
  ]

  abbrev hash_differs : Option Str → Bytes → Bool
  hash_differs none artifact = false
  hash_differs (some hash) artifact = not (bytes_eq (h.sha256_hex artifact) hash)

  pub snapshot_replace_chained_diff :
      PatchManifest
      → Bytes
      → List (Str × Bytes)
      → List InstalledPatch
      → Option (Option Bytes)
      → Result InstallError Bytes
  snapshot_replace_chained_diff m payload files installed baseline = do
    algorithm ← ok_or m.payload.diff_algorithm no_diff_algorithm
    expected ← ok_or m.payload.base_hash no_base_hash
    base ← find_diff_base expected files installed baseline
    artifact ← map_err diff (apply_binary_diff h algorithm base payload)
    refuse_if (hash_differs m.payload.output_hash artifact) artifact_hash
    ok artifact
