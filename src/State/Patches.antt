-- ===== src/State/Patches.antt =====
-- crates/fcb_core/src/state.rs: migration, marking a patch bad, and choosing the patch to launch.
pub mod Choice
pub mod Bad
use fl_codepush_box.Prelude.{
  ℕ, zero, suc, Bool, true, false, not, ◌&&◌, ◌||◌, Option, none, some, List, [], ◌∷◌, ◌++◌,
  if◌then◌else◌, ◌==◌, ltb, contains,
}
use fl_codepush_box.State.{State, InstalledPatch, state_schema_version}

abbrev pub option_eq : Option ℕ → ℕ → Bool
option_eq none p = false
option_eq (some q) p = q == p

-- `.filter(|lkg| *lkg != p).unwrap_or_default()`
abbrev pub other_or_zero : Option ℕ → ℕ → ℕ
other_or_zero none p = 0
other_or_zero (some q) p = if q == p then 0 else q

-- `installed.iter().find(|patch| patch.patch_number == p)`
abbrev pub find_installed : ℕ → List InstalledPatch → Option InstalledPatch
find_installed p [] = none
find_installed p (i ∷ is) =
    let later = find_installed p is in if i.patch_number == p then some i else later

-- `installed.iter().any(|patch| patch.patch_number == p)`
abbrev pub is_installed : ℕ → List InstalledPatch → Bool
is_installed p [] = false
is_installed p (i ∷ is) = i.patch_number == p || is_installed p is

abbrev pub is_none : Option ℕ → Bool
is_none none = true
is_none (some _) = false

unfoldable pub migrate_state : State → State
migrate_state s =
    if ltb s.schema_version state_schema_version
    then record s {
      last_known_good_patch_number =
          if is_none s.last_known_good_patch_number && ltb 0 s.current_patch_number
          then some s.current_patch_number
          else s.last_known_good_patch_number;
      schema_version = state_schema_version;
    }
    else s

unfoldable pub mark_patch_bad : State → ℕ → State
mark_patch_bad s p = record s {
  bad_patches = if contains s.bad_patches p then s.bad_patches else s.bad_patches ++ p ∷ [];
  current_patch_number =
      if s.current_patch_number == p
      then other_or_zero s.last_known_good_patch_number p
      else s.current_patch_number;
  pending_patch_number =
      if option_eq s.pending_patch_number p then none else s.pending_patch_number;
  last_known_good_patch_number =
      if option_eq s.last_known_good_patch_number p then none else s.last_known_good_patch_number;
  boot_attempts = 0;
}

-- A candidate that is not bad and is installed.
abbrev pub can_launch : State → ℕ → Bool
can_launch s p = not (contains s.bad_patches p) && is_installed p s.installed

abbrev pub candidate : State → Option ℕ → Option ℕ
candidate s none = none
candidate s (some p) = if can_launch s p then some p else none

abbrev pub or_else : Option ℕ → Option ℕ → Option ℕ
or_else none o = o
or_else (some p) o = some p

abbrev pub current_patch : State → Option ℕ
current_patch s = if ltb 0 s.current_patch_number then some s.current_patch_number else none

-- `find` over the pending, the current and the last known good patch, in that order.
unfoldable pub select_launch_patch_number : State → Option ℕ
select_launch_patch_number s =
    or_else (candidate s s.pending_patch_number)
      (or_else (candidate s (current_patch s)) (candidate s s.last_known_good_patch_number))
