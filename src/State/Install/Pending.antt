-- ===== src/State/Install/Pending.antt =====
-- crates/fcb_core/src/state.rs: the state that a successful install stores.
use fl_codepush_box.Prelude.{
  ◌≤◌, ◌≡◌, refl, Bool, true, false, ◌||◌, Option, some, Str, Bytes, length, ok, ◌⊎◌, inl, ltb,
  ◌==◌,
}
use fl_codepush_box.Host.{Host}
use fl_codepush_box.Manifest.{PatchManifest}
use fl_codepush_box.State.{State, state_schema_version}
use fl_codepush_box.State.Disk.{Disk, stored, load_state}
use fl_codepush_box.State.Patches.{is_installed, option_eq}
use fl_codepush_box.State.Prune.Length.{Ended}
use fl_codepush_box.State.Install.{announced, install_payload_with_baseline}
use fl_codepush_box.State.Install.Pruned.{
  IsDistinct, any_installed, pending-installed, kept, last-kept, outcome-IsDistinct, outcome-Ended,
  outcome-keeps, outcome-length,
}
use fl_codepush_box.State.Install.Outcome.{outcome, IsChecked, install-ok}

-- What state.json holds after a successful install of the manifest `m` over the state `s`.
pub record IsInstalled (m : PatchManifest) (s : State) (d : Disk) : Type 0 where
  pub state : State
  pub file : d.state_json ≡ some (stored state)
  pub pending : state.pending_patch_number ≡ some m.patch_number
  pub attempts : state.boot_attempts ≡ 0
  pub release : state.release_version ≡ m.release_version
  pub good : state.bad_patches ≡ s.bad_patches
  pub current : state.current_patch_number ≡ s.current_patch_number
  pub last_known_good : state.last_known_good_patch_number ≡ s.last_known_good_patch_number
  pub found : is_installed m.patch_number state.installed ≡ true
  pub schema : ltb state.schema_version state_schema_version ≡ false
  pub current_kept : is_installed s.current_patch_number state.installed ≡ (
      m.patch_number == s.current_patch_number || is_installed s.current_patch_number s.installed)
  pub last_known_good_kept : any_installed s.last_known_good_patch_number state.installed ≡ (
      option_eq s.last_known_good_patch_number m.patch_number
      || any_installed s.last_known_good_patch_number s.installed)

outcome-IsInstalled :
    (now : Str) (m : PatchManifest) (path : Option Str) (s : State) (d : Disk)
    → d.state_json ≡ some (stored (outcome now m path s))
    → IsInstalled m s d
unfolding announced
outcome-IsInstalled now m path s d e = record {
  state = outcome now m path s;
  file = e;
  pending = refl;
  attempts = refl;
  release = refl;
  good = refl;
  current = refl;
  last_known_good = refl;
  found = pending-installed now m path s;
  schema = refl;
  current_kept = kept now m path s s.current_patch_number (inl refl);
  last_known_good_kept = last-kept now m path s s.last_known_good_patch_number refl;
}

module _ (h : Host) (flag : Bool) (now key : Str) (manifest payload : Option Bytes)
    (baseline : Option (Option Bytes)) (d : Disk) where
  -- A successful install has parsed the manifest, verified its signature under the public key,
  -- found the payload's hash to be the manifest's, and accepted the payload's contract. The state
  -- that it stores has the patch pending and installed, with no boot attempts; it keeps the bad
  -- patches, the current and the last known good patch, and each of
  -- these two is installed afterwards if and only if it was, or is the new patch.
  pub install_payload-IsInstalled :
      {d' : Disk}
      → install_payload_with_baseline h flag now manifest payload key baseline d ≡ (d', ok tt)
      → (m : PatchManifest) × IsChecked h flag key manifest payload m
        × IsInstalled m (load_state now d).1 d'
  install_payload-IsInstalled {d'} k =
      let (m, path, seen, file) = install-ok h flag now key manifest payload baseline d k in
      (m, seen, outcome-IsInstalled now m path (load_state now d).1 d' file)

  -- If the loaded state has no patch number twice, a successful install stores a state that has
  -- none twice either. At most two patches are installed then, or each of them is the current, the
  -- pending or the last known good one, so there are at most three. There are no fewer patches
  -- than before, or at least two.
  pub install_payload-length :
      {d' : Disk}
      → IsDistinct (load_state now d).1
      → install_payload_with_baseline h flag now manifest payload key baseline d ≡ (d', ok tt)
      → (s : State) × (d'.state_json ≡ some (stored s))
        × IsDistinct s
        × Ended s s.installed
        × (length s.installed ≤ 3)
        × ((length (load_state now d).1.installed ≤ length s.installed) ⊎ (2 ≤ length s.installed))
  install_payload-length once k =
      let (m, path, seen, file) = install-ok h flag now key manifest payload baseline d k in
      let s = (load_state now d).1 in
      (
        outcome now m path s,
        file,
        outcome-IsDistinct now m path s once,
        outcome-Ended now m path s,
        outcome-length now m path s once,
        outcome-keeps now m path s once,
      )
