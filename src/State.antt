-- ===== src/State.antt =====
-- crates/fcb_core/src/state.rs: the records that the updater keeps in state.json and events.log.
-- Times are the texts that `now_string` makes. The operations are in the modules below.
pub mod Patches
pub mod Disk
pub mod Launch
pub mod PatchFiles
pub mod Prune
pub mod Install
pub mod Reach
mod Examples
use fl_codepush_box.Prelude.{ℕ, ◌+◌, ◌-◌, ◌^◌, min, Bool, Option, List, Str, codes}

-- `u32::MAX` and `u32::saturating_add`
abbrev pub u32_max : ℕ
u32_max = 2 ^ 32 - 1

abbrev pub saturating_add : ℕ → ℕ → ℕ
saturating_add a b = min (a + b) u32_max

abbrev pub state_schema_version : ℕ
state_schema_version = 2

abbrev pub max_boot_attempts : ℕ
max_boot_attempts = 3

abbrev pub max_rollback_events : ℕ
max_rollback_events = 50

pub record LastLaunch : Type 0 where
  pub patch_number : ℕ
  pub status : Str
  pub started_at : Str

pub record InstalledPatch : Type 0 where
  pub patch_number : ℕ
  pub backend : Str
  pub manifest_path : Str
  pub payload_path : Str
  pub artifact_path : Option Str
  pub installed_at : Str

pub record State : Type 0 where
  pub schema_version : ℕ
  pub release_version : Str
  pub current_patch_number : ℕ
  pub pending_patch_number : Option ℕ
  pub last_known_good_patch_number : Option ℕ
  pub boot_attempts : ℕ
  pub bad_patches : List ℕ
  pub last_launch : Option LastLaunch
  pub installed : List InstalledPatch

pub record CrashRollbackEvent : Type 0 where
  pub event_type : Str
  pub patch_number : ℕ
  pub boot_attempts : ℕ
  pub last_known_good_patch_number : Option ℕ
  pub timestamp : Str
  pub reason : Option Str

-- The texts of `LastLaunch.status`.
abbrev pub pending_success : Str
pending_success = codes "pending_success"

abbrev pub success : Str
success = codes "success"

abbrev pub failure_prefix : Str
failure_prefix = codes "failure:"
