-- ===== src/State/Reach.antt =====
-- crates/fcb_core/src/state.rs: the runs of an updater, as sequences of its operations in any order.
pub mod Quarantined
pub mod Healthy
use fl_codepush_box.Prelude.{ℕ, Bool, Option, Str, Bytes}
use fl_codepush_box.Host.{Host}
use fl_codepush_box.State.Disk.{Disk, clear_rollback_events}
use fl_codepush_box.State.Launch.{launch_patch, ready_patch, mark_success, mark_failure}
use fl_codepush_box.State.Install.{install_payload_with_baseline}

module _ (h : Host) (snapshot_replace : Bool) where
  -- One operation, with the disk before it and after it. A process that dies between two
  -- operations leaves the disk between them.
  pub data Step : Disk → Disk → Type 0 where
    launching : (now : Str) {d : Disk} → Step d (launch_patch now d).0
    readying : (now : Str) {d : Disk} → Step d (ready_patch now d).0
    succeeding : (now : Str) {d : Disk} → Step d (mark_success now d).0
    failing : (now : Str) (p : ℕ) (reason : Str) {d : Disk} → Step d (mark_failure now d p reason)
    clearing : {d : Disk} → Step d (clear_rollback_events d)
    installing :
        (now : Str) (manifest payload : Option Bytes) (key : Str) (baseline : Option (Option Bytes))
        {d : Disk}
        → Step d
            (install_payload_with_baseline h snapshot_replace now manifest payload key baseline d).0

  pub data Reaches : Disk → Disk → Type 0 where
    here : {d : Disk} → Reaches d d
    then : {d₀ d₁ d₂ : Disk} → Reaches d₀ d₁ → Step d₁ d₂ → Reaches d₀ d₂
