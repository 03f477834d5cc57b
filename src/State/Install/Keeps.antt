-- ===== src/State/Install/Keeps.antt =====
-- crates/fcb_core/src/state.rs: what an install, successful or not, can leave in state.json.
use fl_codepush_box.Prelude.{
  ◌≡◌, refl, subst, sym, Bool, Option, none, some, Str, Bytes, Result, ok, err,
}
use fl_codepush_box.Host.{Host}
use fl_codepush_box.Manifest.{PatchManifest}
use fl_codepush_box.State.Disk.{
  Disk, StateFile, stored, unreadable, append_rollback_event, backup_corrupt_state, save_state,
  load_state,
}
use fl_codepush_box.State.PatchFiles.{InstallError}
use fl_codepush_box.State.Install.{
  write_patch, finish, store, store_installed, checked, install_payload_with_baseline,
}
use fl_codepush_box.State.Install.Outcome.{outcome, load_state-write_patch}

file-write_patch :
    (h : Host) (flag : Bool) (now : Str) (m : PatchManifest) (b p : Bytes) (d : Disk)
    (f : Option StateFile)
    → d.state_json ≡ f
    → (load_state now (write_patch h flag m b p d)).0.state_json ≡ (load_state now d).0.state_json
unfolding load_state write_patch append_rollback_event backup_corrupt_state
file-write_patch h flag now m b p d none e = rw e refl
file-write_patch h flag now m b p d (some (stored s)) e = rw e refl
file-write_patch h flag now m b p d (some (unreadable c x)) e = rw e refl

module _ (P : Option StateFile → Type 0) (h : Host) (flag : Bool) (now key : Str)
    (manifest payload : Option Bytes) (baseline : Option (Option Bytes)) (d : Disk)
    (before : P d.state_json) (loaded : P (load_state now d).0.state_json)
    (after : (m : PatchManifest) (path : Option Str)
      → P (some (stored (outcome now m path (load_state now d).1)))) where
  finish-keeps :
      (m : PatchManifest) (d₁ : Disk) (a : Result InstallError (Option Bytes))
      → P d₁.state_json
      → P (finish h flag now m d₁ (load_state now d).1 a).0.state_json
  unfolding finish store_installed save_state
  finish-keeps m d₁ (err e) k = k
  finish-keeps m d₁ (ok a) k = after m _

  store-keeps :
      (r : Result InstallError (Bytes × PatchManifest × Bytes))
      → P (store h flag now baseline d r).0.state_json
  unfolding store
  store-keeps (err e) = before
  store-keeps (ok (b, m, p)) = rw (load_state-write_patch h flag now m b p d d.state_json refl) (
      finish-keeps m _ _
        (subst P (sym (file-write_patch h flag now m b p d d.state_json refl)) loaded))

  -- A property of state.json that loading keeps and the outcome of an install has is kept.
  pub install-keeps :
      P (install_payload_with_baseline h flag now manifest payload key baseline d).0.state_json
  unfolding install_payload_with_baseline
  install-keeps = store-keeps (checked h flag key manifest payload)
