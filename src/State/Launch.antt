-- ===== src/State/Launch.antt =====
-- crates/fcb_core/src/state.rs: `launch_patch`, `ready_patch`, `mark_success` and `mark_failure`.
-- Each takes the time, which `now_string` would read.
pub mod Records
pub mod CrashLoop
pub mod Quarantine
pub mod Confirm
pub mod Pending
pub mod Keeps
use fl_codepush_box.Prelude.{
  ℕ, zero, suc, Bool, true, false, Option, none, some, List, [], ◌∷◌, ◌++◌, if◌then◌else◌, leb, Str,
  codes, contains, bytes_eq, starts_with, Result, ok, err,
}
use fl_codepush_box.State.{
  State, LastLaunch, InstalledPatch, CrashRollbackEvent, saturating_add, max_boot_attempts,
  pending_success, success, failure_prefix,
}
use fl_codepush_box.State.Patches.{find_installed, mark_patch_bad, select_launch_patch_number}
use fl_codepush_box.State.Disk.{Disk, append_rollback_event, save_state, load_state}

-- The patch of a launch that was neither confirmed nor reported as failed.
abbrev pub unconfirmed : Option LastLaunch → Option ℕ
unconfirmed none = none
unconfirmed (some l) = if bytes_eq l.status pending_success then some l.patch_number else none

abbrev pub crash_event : Str → ℕ → State → CrashRollbackEvent
crash_event now p s = record {
  event_type = codes "crash_rollback";
  patch_number = p;
  boot_attempts = saturating_add s.boot_attempts 1;
  last_known_good_patch_number = s.last_known_good_patch_number;
  timestamp = now;
  reason = none;
}

-- The first half of `launch_patch`: the disk, the state, and whether the state changed.
unfoldable pub settle : Str → Disk → State → Option ℕ → Disk × State × Bool
settle now d s none = (d, s, false)
settle now d s (some p) =
    if leb max_boot_attempts (saturating_add s.boot_attempts 1)
    then (
      append_rollback_event d (crash_event now p s),
      record (mark_patch_bad s p) { last_launch = none },
      true,
    )
    else (d, record s { last_launch = none }, true)

abbrev save_if : Bool → Disk → State → Disk
save_if true d s = save_state d s
save_if false d s = d

abbrev pub launched : Str → State → ℕ → State
launched now s p = record s {
  boot_attempts = saturating_add s.boot_attempts 1;
  last_launch = some (record { patch_number = p; status = pending_success; started_at = now });
}

-- The second half: the patch chosen is looked up, and the launch is recorded if it is there.
unfoldable pub start : Str → Disk → State → Bool → Option ℕ → Disk × Option InstalledPatch
start now d s changed none = (save_if changed d s, none)
start now d s changed (some p) = elim (find_installed p s.installed) [
  | none ↦ (save_if changed d s, none)
  | some i ↦ (save_state d (launched now s p), some i)
]

unfoldable pub launch_patch : Str → Disk → Disk × Option InstalledPatch
unfolding settle start
launch_patch now d =
    let (d₁, s₁) = load_state now d in
    let (d₂, s₂, changed) = settle now d₁ s₁ (unconfirmed s₁.last_launch) in
    start now d₂ s₂ changed (select_launch_patch_number s₂)

abbrev ready : State → Option ℕ → Option InstalledPatch
ready s none = none
ready s (some p) = if contains s.bad_patches p then none else find_installed p s.installed

unfoldable pub ready_patch : Str → Disk → Disk × Option InstalledPatch
ready_patch now d = let (d₁, s) = load_state now d in (d₁, ready s s.pending_patch_number)

pub data MarkError : Type 0 where
  no_last_launch bad_patch failed_launch : MarkError

abbrev pub succeeded : State → LastLaunch → State
succeeded s last = record s {
  current_patch_number = last.patch_number;
  last_known_good_patch_number = some last.patch_number;
  pending_patch_number = none;
  boot_attempts = 0;
  last_launch = some (record last { status = success });
}

unfoldable pub confirm : Disk → State → Option LastLaunch → Disk × Result MarkError (Unit {0})
confirm d s none = (d, err no_last_launch)
confirm d s (some last) =
    if contains s.bad_patches last.patch_number
    then (d, err bad_patch)
    else if starts_with failure_prefix last.status
    then (d, err failed_launch)
    else (save_state d (succeeded s last), ok tt)

unfoldable pub mark_success : Str → Disk → Disk × Result MarkError (Unit {0})
unfolding confirm
mark_success now d = let (d₁, s) = load_state now d in confirm d₁ s s.last_launch

abbrev pub failed : Str → State → ℕ → Str → State
failed now s p reason = record (mark_patch_bad s p) {
  last_launch =
      some (record { patch_number = p; status = failure_prefix ++ reason; started_at = now });
}

unfoldable pub mark_failure : Str → Disk → ℕ → Str → Disk
mark_failure now d p reason =
    let (d₁, s) = load_state now d in save_state d₁ (failed now s p reason)
