-- ===== src/State/Examples.antt =====
-- Concrete runs of the updater of crates/fcb_core/src/state.rs.
use fl_codepush_box.Prelude.{
  true, inr, ℕ, ◌≡◌, ◌≢◌, refl, false, none, some, [], ◌∷◌, Str, codes, ok, arith,
}
use fl_codepush_box.Host.Example.{example_host}
use fl_codepush_box.State.{State, InstalledPatch, pending_success}
use fl_codepush_box.State.Patches.{migrate_state, mark_patch_bad, select_launch_patch_number}
use fl_codepush_box.State.Disk.{
  Disk, stored, read_state, append_rollback_event, keep_latest, save_state, load_state,
}
use fl_codepush_box.State.Launch.{settle, start, launch_patch, confirm, mark_success, mark_failure}
use fl_codepush_box.State.Launch.Keeps.{Holds}
use fl_codepush_box.State.Launch.CrashLoop.{crash_loop_ends}
use fl_codepush_box.State.Launch.Confirm.{
  Confirms, launch_patch-mark_success, launch_patch-mark_success-launch_patch,
}
use fl_codepush_box.State.Reach.{here, then, launching, failing}
use fl_codepush_box.State.Reach.Quarantined.{launch_patch-ne_failed}
use fl_codepush_box.State.Reach.Healthy.{IsHealthy, reaches-IsHealthy}

abbrev patch : ℕ → InstalledPatch
patch n = record {
  patch_number = n;
  backend = codes "bytecode";
  manifest_path = [];
  payload_path = [];
  artifact_path = none;
  installed_at = [];
}

-- Patch 1 is current and patch 2 is pending; both are installed.
abbrev two_patches : State
two_patches = record {
  schema_version = 2;
  release_version = codes "1.0";
  current_patch_number = 1;
  pending_patch_number = some 2;
  last_known_good_patch_number = some 1;
  boot_attempts = 0;
  bad_patches = [];
  last_launch = none;
  installed = patch 1 ∷ patch 2 ∷ [];
}

abbrev disk : State → Disk
disk s = record {
  state_json = some (stored s);
  corrupt_backups = [];
  events_log = none;
  patch_files = [];
}

abbrev t : Str
t = codes "0"

-- The state after a launch.
abbrev booted : ℕ → ℕ → State → State
booted p n s = record s {
  boot_attempts = n;
  last_launch = some (record { patch_number = p; status = pending_success; started_at = t });
}

first_launch : launch_patch t (disk two_patches) ≡ (disk (booted 2 1 two_patches), some (patch 2))
unfolding launch_patch load_state read_state migrate_state settle start save_state
    select_launch_patch_number
first_launch = refl

second_launch :
    launch_patch t (disk (booted 2 1 two_patches)) ≡ (disk (booted 2 2 two_patches), some (patch 2))
unfolding launch_patch load_state read_state migrate_state settle start save_state
    select_launch_patch_number
second_launch = refl

-- The disk after the crash loop of patch 2.
abbrev after_loop : Disk
after_loop = (launch_patch t (disk (booted 2 2 two_patches))).0

third_launch : launch_patch t (disk (booted 2 2 two_patches)) ≡ (after_loop, some (patch 1))
unfolding launch_patch load_state read_state migrate_state settle start save_state
    select_launch_patch_number mark_patch_bad append_rollback_event keep_latest
third_launch = refl

crash_loop_ends_example : (patch 1).patch_number ≢ (patch 2).patch_number
crash_loop_ends_example =
    crash_loop_ends t t t (disk two_patches) first_launch second_launch third_launch refl

-- Patch 5 awaits its confirmation; an install of patch 2 has removed it from the installed ones.
abbrev removed : State
removed = booted 5 1 two_patches

-- `mark_success` confirms patch 5, and the next launch starts no patch.
launch_patch-mark_success_example : Confirms t removed 5 (mark_success t (disk removed))
launch_patch-mark_success_example =
    launch_patch-mark_success t t (disk removed) removed {p = 5} refl refl refl

removed_launch :
    ((mark_success t (disk removed)).1 ≡ ok tt)
    × ((launch_patch t (mark_success t (disk removed)).0).1 ≡ none)
unfolding mark_success confirm launch_patch load_state read_state migrate_state settle start
    save_state select_launch_patch_number
removed_launch = (refl, refl)

launch_patch-mark_success-launch_patch_example :
    ((mark_success t (disk (booted 2 1 two_patches))).1 ≡ ok tt)
    × ((launch_patch t (mark_success t (disk (booted 2 1 two_patches))).0).1 ≡ some (patch 2))
launch_patch-mark_success-launch_patch_example =
    launch_patch-mark_success-launch_patch t t t (disk two_patches) first_launch

-- The disk after a reported failure of patch 2, and the launch of patch 1 that follows.
abbrev after_failure : Disk
after_failure = (launch_patch t (mark_failure t (disk two_patches) 2 [])).0

failure_launch : (launch_patch t after_failure).1 ≡ some (patch 1)
unfolding launch_patch load_state read_state migrate_state settle start save_state
    select_launch_patch_number mark_patch_bad mark_failure
failure_launch = refl

relaunch : launch_patch t after_failure ≡ ((launch_patch t after_failure).0, some (patch 1))
unfolding launch_patch load_state read_state migrate_state settle start save_state
    select_launch_patch_number mark_patch_bad mark_failure
relaunch = refl

launch_patch-ne_failed_example : (patch 1).patch_number ≢ 2
launch_patch-ne_failed_example =
    launch_patch-ne_failed example_host false t t (disk two_patches) 2 [] (then here (launching t))
      relaunch

two_patches-IsHealthy : IsHealthy true two_patches
two_patches-IsHealthy = record {
  sound = record { current_good = refl; last_known_good = refl };
  distinct = λ q. ground arith;
  few = omega arith;
  pairing = inr (inr refl);
}

reaches-IsHealthy_example :
    Holds (IsHealthy true) (mark_failure t (disk two_patches) 2 []).state_json
reaches-IsHealthy_example =
    reaches-IsHealthy example_host false true (then here (failing t 2 [])) two_patches-IsHealthy
