-- ===== src/State/Install/NextLaunch.antt =====
-- crates/fcb_core/src/state.rs: `launch_patch` after a successful install.
use fl_codepush_box.Prelude.{
  ◌≡◌, ap, sym, subst, Bool, false, Option, some, Str, Bytes, ok, contains,
}
use fl_codepush_box.Host.{Host}
use fl_codepush_box.Manifest.{PatchManifest}
use fl_codepush_box.State.{State, InstalledPatch}
use fl_codepush_box.State.Disk.{Disk, load_state}
use fl_codepush_box.State.Launch.{launch_patch}
use fl_codepush_box.State.Launch.Records.{load_state-stored}
use fl_codepush_box.State.Launch.Pending.{launch_patch-pending}
use fl_codepush_box.State.Install.{install_payload_with_baseline}
use fl_codepush_box.State.Install.Outcome.{IsChecked}
use fl_codepush_box.State.Install.Pending.{IsInstalled, install_payload-IsInstalled}

launches :
    (later : Str) (m : PatchManifest) (s : State) (d : Disk)
    → IsInstalled m s d
    → contains s.bad_patches m.patch_number ≡ false
    → (i : InstalledPatch) × ((launch_patch later d).1 ≡ some i) × (i.patch_number ≡ m.patch_number)
launches later m s d w good =
    launch_patch-pending later d w.state (load_state-stored later d w.state w.file w.schema)
      w.pending w.attempts (subst (λ bad. contains bad m.patch_number ≡ false) (sym w.good) good)
      w.found

same_manifest :
    (h : Host) (flag : Bool) (key : Str) (manifest payload : Option Bytes) (b : Bytes)
    (m m' : PatchManifest)
    → manifest ≡ some b
    → h.parse_manifest b ≡ some m
    → IsChecked h flag key manifest payload m'
    → m ≡ m'
same_manifest h flag key manifest payload b m m' e p c =
    let there = c.read in
    let parsed = c.parsed in
    let same : b ≡ c.manifest_bytes = cc (e, there) in cc (ap h.parse_manifest same, p, parsed)

module _ (h : Host) (flag : Bool) (now key : Str) (manifest payload : Option Bytes)
    (baseline : Option (Option Bytes)) (d : Disk) where
  -- After a successful install of a patch that is not listed as bad, the next launch returns that
  -- patch, also where an earlier launch was not confirmed.
  pub install_payload-launch_patch :
      (later : Str) (b : Bytes) (m : PatchManifest) {d' : Disk}
      → manifest ≡ some b
      → h.parse_manifest b ≡ some m
      → contains (load_state now d).1.bad_patches m.patch_number ≡ false
      → install_payload_with_baseline h flag now manifest payload key baseline d ≡ (d', ok tt)
      → (i : InstalledPatch) × ((launch_patch later d').1 ≡ some i)
        × (i.patch_number ≡ m.patch_number)
  install_payload-launch_patch later b m {d'} e p good k =
      let (m', seen, w) =
        install_payload-IsInstalled h flag now key manifest payload baseline d k in
      let same = same_manifest h flag key manifest payload b m m' e p seen in
      launches later m (load_state now d).1 d'
        (subst (λ x. IsInstalled x (load_state now d).1 d') (sym same) w) good
