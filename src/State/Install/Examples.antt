-- ===== src/State/Install/Examples.antt =====
-- A concrete install of crates/fcb_core/src/state.rs, of patch 2 over an installed patch 1, and a
-- refused one.
use fl_codepush_box.Prelude.{
  ◌⊎◌, ◌≤◌, ◌≡◌, refl, ap, false, none, some, [], ◌∷◌, Bytes, codes, length, contains, Result, ok,
  err, arith, is_blank,
}
use fl_codepush_box.Host.Example.{example_host, example_manifest, example_payload, zeros}
use fl_codepush_box.Manifest.{PatchManifest}
use fl_codepush_box.Signing.{verify_b64, verify_patch_manifest}
use fl_codepush_box.Bytecode.Load.{from_slice_envelope}
use fl_codepush_box.Bytecode.Envelope.{
  validate_envelope, check_functions, check_source_map, check_debug_locals,
}
use fl_codepush_box.State.{State, InstalledPatch}
use fl_codepush_box.State.Patches.{migrate_state}
use fl_codepush_box.State.Disk.{Disk, stored, read_state, load_state}
use fl_codepush_box.State.Launch.{launch_patch}
use fl_codepush_box.State.PatchFiles.{InstallError, validate_payload_contract, payload_hash}
use fl_codepush_box.State.Prune.Length.{Ended}
use fl_codepush_box.State.Install.{
  checked, make_artifact, finish, store, install_payload_with_baseline,
}
use fl_codepush_box.State.Install.Outcome.{IsChecked, install_payload-err}
use fl_codepush_box.State.Install.Pruned.{IsDistinct}
use fl_codepush_box.State.Install.Pending.{
  IsInstalled, install_payload-IsInstalled, install_payload-length,
}
use fl_codepush_box.State.Install.NextLaunch.{install_payload-launch_patch}

abbrev one_patch : State
one_patch = record {
  schema_version = 2;
  release_version = codes "1.0";
  current_patch_number = 1;
  pending_patch_number = none;
  last_known_good_patch_number = some 1;
  boot_attempts = 0;
  bad_patches = [];
  last_launch = none;
  installed =
      record {
        patch_number = 1;
        backend = codes "bytecode";
        manifest_path = [];
        payload_path = [];
        artifact_path = none;
        installed_at = [];
      }
      ∷ [];
}

abbrev before : Disk
before = record {
  state_json = some (stored one_patch);
  corrupt_backups = [];
  events_log = none;
  patch_files = [];
}

abbrev install : Bytes → Disk × Result InstallError (Unit {0})
install payload =
    install_payload_with_baseline example_host false (codes "0") (some []) (some payload) (zeros 32)
      none before

accepted : (install example_payload).1 ≡ ok tt
unfolding install_payload_with_baseline checked store finish make_artifact verify_patch_manifest
    verify_b64 validate_payload_contract from_slice_envelope validate_envelope check_functions
    check_source_map check_debug_locals is_blank
accepted = refl

installed : install example_payload ≡ ((install example_payload).0, ok tt)
installed = ap (λ r. ((install example_payload).0, r)) accepted

install_payload-IsInstalled_example :
    (m : PatchManifest) × IsChecked example_host false (zeros 32) (some []) (some example_payload) m
    × IsInstalled m (load_state (codes "0") before).1 (install example_payload).0
install_payload-IsInstalled_example =
    install_payload-IsInstalled example_host false (codes "0") (zeros 32) (some [])
      (some example_payload) none before {d' = (install example_payload).0} installed

one_patch-IsDistinct : IsDistinct (load_state (codes "0") before).1
unfolding load_state read_state migrate_state
one_patch-IsDistinct = λ q. ground arith

install_payload-length_example :
    (s : State) × ((install example_payload).0.state_json ≡ some (stored s))
    × IsDistinct s
    × Ended s s.installed
    × (length s.installed ≤ 3)
    × ((length (load_state (codes "0") before).1.installed ≤ length s.installed)
        ⊎ (2 ≤ length s.installed))
install_payload-length_example =
    install_payload-length example_host false (codes "0") (zeros 32) (some [])
      (some example_payload) none before {d' = (install example_payload).0} one_patch-IsDistinct
      installed

not_bad : contains (load_state (codes "0") before).1.bad_patches 2 ≡ false
unfolding load_state read_state migrate_state
not_bad = refl

install_payload-launch_patch_example :
    (i : InstalledPatch) × ((launch_patch (codes "1") (install example_payload).0).1 ≡ some i)
    × (i.patch_number ≡ 2)
install_payload-launch_patch_example =
    install_payload-launch_patch example_host false (codes "0") (zeros 32) (some [])
      (some example_payload) none before (codes "1") [] example_manifest
      {d' = (install example_payload).0} refl refl not_bad installed

-- A payload whose hash is not the manifest's.
refused : install (8 ∷ []) ≡ (before, err payload_hash)
unfolding install_payload_with_baseline checked store verify_patch_manifest verify_b64
refused = refl

install_payload-err_example : before.state_json ≡ some (stored one_patch)
install_payload-err_example =
    install_payload-err example_host false (codes "0") (zeros 32) (some []) (some (8 ∷ [])) none
      before one_patch {d' = before} {x = payload_hash} refl refused
