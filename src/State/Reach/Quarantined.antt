-- ===== src/State/Reach/Quarantined.antt =====
-- crates/fcb_core/src/state.rs: a patch that was marked bad is never launched again.
use fl_codepush_box.Prelude.{ℕ, ◌≡◌, ◌≢◌, refl, Bool, true, Option, some, Str, Bytes}
use fl_codepush_box.Host.{Host}
use fl_codepush_box.State.{InstalledPatch}
use fl_codepush_box.State.Disk.{Disk, clear_rollback_events}
use fl_codepush_box.State.Launch.{launch_patch, mark_failure}
use fl_codepush_box.State.Launch.Quarantine.{
  quarantines, IsQuarantined, load-IsQuarantined, launch_patch-IsQuarantined,
  launch_patch-ne_quarantined, ready_patch-IsQuarantined, mark_success-IsQuarantined,
  mark_failure-IsQuarantined, mark_failure-quarantines,
}
use fl_codepush_box.State.Install.{announced, install_payload_with_baseline}
use fl_codepush_box.State.Install.Keeps.{install-keeps}
use fl_codepush_box.State.Reach.{
  Step, Reaches, here, then, launching, readying, succeeding, failing, clearing, installing,
}

module _ (h : Host) (flag : Bool) where
  install-IsQuarantined :
      (now key : Str) (manifest payload : Option Bytes) (baseline : Option (Option Bytes))
      (d : Disk) (p : ℕ)
      → IsQuarantined p d
      → IsQuarantined p (install_payload_with_baseline h flag now manifest payload key baseline d).0
  unfolding announced
  install-IsQuarantined now key manifest payload baseline d p q =
      let loaded = load-IsQuarantined now d p d.state_json refl q in
      install-keeps (λ f. quarantines f p ≡ true) h flag now key manifest payload baseline d q
        loaded.1 (λ m path. loaded.0)

  Step-IsQuarantined :
      (p : ℕ) {d d' : Disk} → Step h flag d d' → IsQuarantined p d → IsQuarantined p d'
  unfolding clear_rollback_events
  Step-IsQuarantined p (launching now) q = launch_patch-IsQuarantined now _ p q
  Step-IsQuarantined p (readying now) q = ready_patch-IsQuarantined now _ p q
  Step-IsQuarantined p (succeeding now) q = mark_success-IsQuarantined now _ p q
  Step-IsQuarantined p (failing now r reason) q = mark_failure-IsQuarantined now _ r reason p q
  Step-IsQuarantined p clearing q = q
  Step-IsQuarantined p (installing now manifest payload key baseline) q =
      install-IsQuarantined now key manifest payload baseline _ p q

  -- A patch that state.json lists as bad is listed after every sequence of operations.
  pub reaches-IsQuarantined :
      (p : ℕ) {d d' : Disk} → Reaches h flag d d' → IsQuarantined p d → IsQuarantined p d'
  reaches-IsQuarantined p here q = q
  reaches-IsQuarantined p (then run s) q = Step-IsQuarantined p s (reaches-IsQuarantined p run q)

  -- After `mark_failure` of a patch, from any disk, and any sequence of operations, installs of the
  -- same patch included, a launch does not return that patch.
  pub launch_patch-ne_failed :
      (t₁ t₂ : Str) (d : Disk) (p : ℕ) (reason : Str) {d₁ d₂ : Disk} {i : InstalledPatch}
      → Reaches h flag (mark_failure t₁ d p reason) d₁
      → launch_patch t₂ d₁ ≡ (d₂, some i)
      → i.patch_number ≢ p
  launch_patch-ne_failed t₁ t₂ d p reason {d₁} run e =
      launch_patch-ne_quarantined t₂ d₁ p
        (reaches-IsQuarantined p run (mark_failure-quarantines t₁ d p reason)) e
