-- ===== src/State/Disk.antt =====
-- crates/fcb_core/src/state.rs: the files below `cache_dir`, and the functions that read and write
-- state.json and events.log. A file is kept as what serde_json reads from it. Every call of the
-- file system succeeds; the failures modelled are those of the contents. events.log is UTF-8, as this
-- library writes it: with other bytes, `read_to_string` fails, and `load_state` and `launch_patch` with
-- it, which is not modelled.
use fl_codepush_box.Prelude.{
  ◌-◌, Bool, true, false, Option, none, some, List, [], ◌∷◌, ◌++◌, if◌then◌else◌, ltb, Str, Bytes,
  codes, length, drop, Result, ok, err, ◌>>=◌,
}
use fl_codepush_box.State.{State, CrashRollbackEvent, state_schema_version, max_rollback_events}
use fl_codepush_box.State.Patches.{migrate_state}

-- `unreadable` holds bytes that do not parse as a `State`, and serde_json's message.
pub data StateFile : Type 0 where
  stored : State → StateFile
  unreadable : Bytes → Str → StateFile

-- A line of events.log: blank, the JSON of an event, or any other text.
pub data LogLine : Type 0 where
  blank : LogLine
  event : CrashRollbackEvent → LogLine
  garbage : Str → LogLine

-- `patch_files` holds the files of patches/, by their path from `cache_dir`.
pub record Disk : Type 0 where
  pub state_json : Option StateFile
  pub corrupt_backups : List Bytes
  pub events_log : Option (List LogLine)
  pub patch_files : List (Str × Bytes)

-- `State { schema_version: STATE_SCHEMA_VERSION, ..State::default() }`
abbrev pub fresh_state : State
fresh_state = record {
  schema_version = state_schema_version;
  release_version = [];
  current_patch_number = 0;
  pending_patch_number = none;
  last_known_good_patch_number = none;
  boot_attempts = 0;
  bad_patches = [];
  last_launch = none;
  installed = [];
}

abbrev pub is_blank_line : LogLine → Bool
is_blank_line blank = true
is_blank_line _ = false

-- `.lines().filter(|line| !line.trim().is_empty())`
abbrev pub nonblank : List LogLine → List LogLine
nonblank [] = []
nonblank (l ∷ ls) = let rest = nonblank ls in if is_blank_line l then rest else l ∷ rest

abbrev pub logged_lines : Option (List LogLine) → List LogLine
logged_lines none = []
logged_lines (some ls) = nonblank ls

-- `if lines.len() > MAX { lines.drain(0..lines.len() - MAX); }`
unfoldable pub keep_latest : List LogLine → List LogLine
keep_latest ls =
    if ltb max_rollback_events (length ls) then drop (length ls - max_rollback_events) ls else ls

-- For a log that is UTF-8.
unfoldable pub append_rollback_event : Disk → CrashRollbackEvent → Disk
append_rollback_event d e = record d {
  events_log = some (keep_latest (logged_lines d.events_log ++ event e ∷ []));
}

pub data LogError : Type 0 where
  bad_line : Str → LogError

parse_lines : List LogLine → Result LogError (List CrashRollbackEvent)
parse_lines [] = ok []
parse_lines (blank ∷ ls) = parse_lines ls
parse_lines (garbage t ∷ ls) = err (bad_line t)
parse_lines (event e ∷ ls) = parse_lines ls >>= λ es. ok (e ∷ es)

-- For a log that is UTF-8.
unfoldable pub rollback_events : Disk → Result LogError (List CrashRollbackEvent)
unfolding parse_lines
rollback_events d = elim d.events_log [ none ↦ ok [] | some ls ↦ parse_lines ls ]

unfoldable pub clear_rollback_events : Disk → Disk
clear_rollback_events d = record d { events_log = none }

unfoldable pub save_state : Disk → State → Disk
save_state d s = record d { state_json = some (stored s) }

-- `backup_corrupt_state`: the file is renamed to a fresh name, so nothing is overwritten.
unfoldable pub backup_corrupt_state : Disk → Bytes → Disk
backup_corrupt_state d bytes = record d {
  state_json = none;
  corrupt_backups = d.corrupt_backups ++ bytes ∷ [];
}

abbrev pub reset_event : Str → Str → CrashRollbackEvent
reset_event now message = record {
  event_type = codes "state_reset";
  patch_number = 0;
  boot_attempts = 0;
  last_known_good_patch_number = none;
  timestamp = now;
  reason = some (codes "failed to parse state.json: " ++ message);
}

unfoldable pub read_state : Str → Disk → Option StateFile → Disk × State
read_state now d none = (d, fresh_state)
read_state now d (some (stored s)) = (d, migrate_state s)
read_state now d (some (unreadable bytes message)) =
    (append_rollback_event (backup_corrupt_state d bytes) (reset_event now message), fresh_state)

unfoldable pub load_state : Str → Disk → Disk × State
unfolding read_state
load_state now d = read_state now d d.state_json
