-- ===== src/State/Install.antt =====
-- crates/fcb_core/src/state.rs: `install_payload` and `install_payload_with_baseline`. The manifest
-- and the payload are files that may be unreadable, and that do not change while they are read.
pub mod Outcome
pub mod Pending
pub mod Pruned
pub mod NextLaunch
pub mod Keeps
mod Examples
use fl_codepush_box.Prelude.{
  ℕ, Bool, true, false, not, Option, none, some, List, [], ◌∷◌, ◌++◌, if◌then◌else◌, Str, Bytes,
  codes, bytes_eq, length, Result, ok, err, ◌>>=◌, ◌>>◌, refuse_if, ok_or,
}
use fl_codepush_box.Host.{Host}
use fl_codepush_box.Manifest.{PatchManifest}
use fl_codepush_box.Signing.{verify_patch_manifest}
use fl_codepush_box.State.{State, InstalledPatch, state_schema_version}
use fl_codepush_box.State.Disk.{Disk, save_state, load_state}
use fl_codepush_box.State.PatchFiles.{
  InstallError, map_err, patch_dir, manifest_file, payload_file, artifact_file, write_file,
  remove_dir, snapshot_backend, validate_payload_contract, snapshot_replace_chained_diff,
  manifest_unreadable, manifest_json, signing, payload_unreadable, payload_hash, backend_disabled,
}
use fl_codepush_box.State.Prune.{retain_others, sort_patches, prune}

-- The entry that the install adds.
abbrev pub entry : Str → PatchManifest → Option Str → InstalledPatch
entry now m artifact = record {
  patch_number = m.patch_number;
  backend = m.backend;
  manifest_path = manifest_file m.patch_number;
  payload_path = payload_file m.patch_number;
  artifact_path = artifact;
  installed_at = now;
}

-- The state before the pruning.
unfoldable pub announced : Str → PatchManifest → Option Str → State → State
announced now m artifact s = record s {
  schema_version = state_schema_version;
  release_version = m.release_version;
  pending_patch_number = some m.patch_number;
  boot_attempts = 0;
  installed = sort_patches (retain_others m.patch_number s.installed ++ entry now m artifact ∷ []);
}

abbrev remove_dirs : List InstalledPatch → List (Str × Bytes) → List (Str × Bytes)
remove_dirs [] files = files
remove_dirs (i ∷ is) files = remove_dirs is (remove_dir (patch_dir i.patch_number) files)

abbrev pub pruned : State → State
pruned s = record s { installed = (prune (length s.installed) s s.installed).0 }

-- The pruning and the `save_state` that ends the install.
unfoldable pub store_installed : Disk → State → Disk
store_installed d s =
    save_state
      (record d {
        patch_files = remove_dirs (prune (length s.installed) s s.installed).1 d.patch_files;
      })
      (pruned s)

module _ (h : Host) (snapshot_replace : Bool) where
  -- The checks before anything is written: the manifest's bytes and itself, and the payload.
  unfoldable pub checked :
      Str → Option Bytes → Option Bytes → Result InstallError (Bytes × PatchManifest × Bytes)
  checked public_key_b64 manifest payload = do
    manifest_bytes ← ok_or manifest manifest_unreadable
    m ← ok_or (h.parse_manifest manifest_bytes) manifest_json
    map_err signing (verify_patch_manifest h m public_key_b64)
    bytes ← ok_or payload payload_unreadable
    refuse_if (not (bytes_eq (h.sha256_hex bytes) m.payload.hash)) payload_hash
    validate_payload_contract h snapshot_replace m bytes
    ok (manifest_bytes, m, bytes)

  unfoldable pub write_patch : PatchManifest → Bytes → Bytes → Disk → Disk
  write_patch m manifest_bytes payload d = record d {
    patch_files =
        write_file (payload_file m.patch_number) payload
          (write_file (manifest_file m.patch_number) manifest_bytes d.patch_files);
  }

  -- The artifact, if the backend has one.
  unfoldable pub make_artifact :
      PatchManifest
      → Bytes
      → Option (Option Bytes)
      → Disk
      → State
      → Result InstallError (Option Bytes)
  make_artifact m payload baseline d s =
      if bytes_eq m.backend snapshot_backend
      then (if snapshot_replace
          then (snapshot_replace_chained_diff h m payload d.patch_files s.installed baseline
              >>= λ a. ok (some a))
          else err backend_disabled)
      else ok none

  abbrev pub write_artifact : ℕ → Option Bytes → Disk → Disk
  write_artifact p none d = d
  write_artifact p (some a) d = record d {
    patch_files = write_file (artifact_file p) a d.patch_files;
  }

  abbrev artifact_path_of : ℕ → Option Bytes → Option Str
  artifact_path_of p none = none
  artifact_path_of p (some a) = some (artifact_file p)

  unfoldable pub finish :
      Str
      → PatchManifest
      → Disk
      → State
      → Result InstallError (Option Bytes)
      → Disk × Result InstallError (Unit {0})
  finish now m d s (err e) = (d, err e)
  finish now m d s (ok a) = (
    store_installed (write_artifact m.patch_number a d)
        (announced now m (artifact_path_of m.patch_number a) s),
    ok tt,
  )

  -- What follows the checks.
  unfoldable pub store :
      Str
      → Option (Option Bytes)
      → Disk
      → Result InstallError (Bytes × PatchManifest × Bytes)
      → Disk × Result InstallError (Unit {0})
  store now baseline d (err e) = (d, err e)
  store now baseline d (ok (manifest_bytes, m, payload)) =
      let (d₁, s) = load_state now (write_patch m manifest_bytes payload d) in
      finish now m d₁ s (make_artifact m payload baseline d₁ s)

  unfoldable pub install_payload_with_baseline :
      Str
      → Option Bytes
      → Option Bytes
      → Str
      → Option (Option Bytes)
      → Disk
      → Disk × Result InstallError (Unit {0})
  install_payload_with_baseline now manifest payload public_key_b64 baseline d =
      store now baseline d (checked public_key_b64 manifest payload)

  unfoldable pub install_payload :
      Str → Option Bytes → Option Bytes → Str → Disk → Disk × Result InstallError (Unit {0})
  install_payload now manifest payload public_key_b64 d =
      install_payload_with_baseline now manifest payload public_key_b64 none d
