-- ===== src/Ffi/Calls.antt =====
-- updater/src/lib.rs: the calls about launches, patch numbers and the rollback log.
pub mod Codes
use fl_codepush_box.Prelude.{
  ℕ, zero, suc, ℤ, pos, negsuc, c_int_max, ◌+◌, ◌%◌, ◌^◌, min, Bool, true, false, Option, none,
  some, List, [], ◌∷◌, ◌++◌, if◌then◌else◌, ltb, leb, Str, Bytes, codes, length, take, join, Result,
  ok, err,
}
use mathlib.Core.List.{reverse}
use fl_codepush_box.State.{State, InstalledPatch, LastLaunch, CrashRollbackEvent}
use fl_codepush_box.State.Disk.{Disk, LogError, load_state, rollback_events, clear_rollback_events}
use fl_codepush_box.State.Launch
use fl_codepush_box.State.Launch.{MarkError}
use fl_codepush_box.Ffi.{
  PatchCheck, CheckResponse, Runtime, FfiError, log, mark, ErrorMessage, text, failure, set_error,
  CStr, read_cstr,
}
use fl_codepush_box.Ffi.Events.{
  Outside, Store, Stats, flush_rollback_events, post_launch_success_event,
  post_launch_failure_event, post_interpret_failure_event,
}

-- The runtime, the store and the code.
abbrev pub Returned : Type 0
Returned = Runtime × Store × ℤ

abbrev pub refused : Runtime → Store → ErrorMessage → Returned
refused r st m = let (r₁, code) = set_error r m in (r₁, st, code)

-- A patch number as a C `int`, or the message that it is too large.
abbrev pub number_or : Runtime → Store → Str → ℕ → Returned
number_or r st message n = if ltb c_int_max n then refused r st (text message) else (r, st, pos n)

-- `FcbLaunchPatch`; `none` is a null pointer.
pub record LaunchPatch : Type 0 where
  pub has_patch : Bool
  pub patch_number : ℕ
  pub backend : Option Str
  pub artifact_path : Option Str
  pub bytecode_path : Option Str
  pub manifest_path : Option Str

abbrev pub no_patch : LaunchPatch
no_patch = record {
  has_patch = false;
  patch_number = 0;
  backend = none;
  artifact_path = none;
  bytecode_path = none;
  manifest_path = none;
}

abbrev in_cache : Runtime → Option Str → Option Str
in_cache r none = none
in_cache r (some path) = some (join r.cache_dir path)

abbrev bytecode_of : Runtime → InstalledPatch → Option Str → Option Str
bytecode_of r p none = some (join r.cache_dir p.payload_path)
bytecode_of r p (some _) = none

unfoldable pub launch_patch_of : Runtime → InstalledPatch → LaunchPatch
launch_patch_of r p = record {
  has_patch = true;
  patch_number = p.patch_number;
  backend = some p.backend;
  artifact_path = in_cache r p.artifact_path;
  bytecode_path = bytecode_of r p p.artifact_path;
  manifest_path = some (join r.cache_dir p.manifest_path);
}

-- `serde_json::to_string` of the events that are returned.
module _ (o : Outside) where
  -- What is written to `out_patch`, if anything.
  unfoldable pub get_launched :
      Runtime → Store → Option InstalledPatch → Returned × Option LaunchPatch
  get_launched r st none = ((r, (flush_rollback_events o r st).0, pos 0), some no_patch)
  get_launched r st (some p) =
      let flushed = (flush_rollback_events o r st).0 in
      if ltb c_int_max p.patch_number
      then (refused r flushed (text (codes "patch number exceeds c_int range")), none)
      else ((r, flushed, pos 0), some (launch_patch_of r p))

  unfoldable pub fcb_get_launch_patch : Bool → Runtime → Store → Returned × Option LaunchPatch
  unfolding get_launched
  fcb_get_launch_patch true r st = (refused r st (text (codes "out_patch is null")), none)
  fcb_get_launch_patch false r st =
      let (d, p) = Launch.launch_patch o.now st.disk in get_launched r (record st { disk = d }) p

  unfoldable pub ready_code : Runtime → Store → Option InstalledPatch → Returned
  ready_code r st none = (r, st, pos 0)
  ready_code r st (some _) = (r, st, pos 1)

  unfoldable pub fcb_is_new_patch_ready_to_install : Runtime → Store → Returned
  unfolding ready_code
  fcb_is_new_patch_ready_to_install r st =
      let (d, p) = Launch.ready_patch o.now st.disk in ready_code r (record st { disk = d }) p

  unfoldable pub marked : Runtime → Store → Disk × Result MarkError (Unit {0}) → Returned
  marked r st (d, ok _) = (r, post_launch_success_event o r (record st { disk = d }), pos 0)
  marked r st (d, err e) = refused r (record st { disk = d }) (failure (mark e))

  unfoldable pub fcb_mark_launch_success : Runtime → Store → Returned
  unfolding marked
  fcb_mark_launch_success r st = marked r st (Launch.mark_success o.now st.disk)

  abbrev text_or_unknown : Option Str → Str
  text_or_unknown none = codes "unknown"
  text_or_unknown (some s) = s

  abbrev negative : Runtime → Store → Returned
  negative r st = refused r st (text (codes "patch_number must be non-negative"))

  unfoldable pub fcb_mark_launch_failure : ℤ → CStr → Runtime → Store → Returned
  fcb_mark_launch_failure (negsuc n) reason r st = negative r st
  fcb_mark_launch_failure (pos p) reason r st =
      let why = text_or_unknown (read_cstr reason) in
      let (r₁, st₁) =
        post_launch_failure_event o r p why
          (record st { disk = Launch.mark_failure o.now st.disk p why }) in
      (r₁, st₁, pos 0)

  unfoldable pub fcb_report_interpret_failure : ℤ → CStr → CStr → Runtime → Store → Returned
  fcb_report_interpret_failure (negsuc n) function_id error r st = negative r st
  fcb_report_interpret_failure (pos p) function_id error r st =
      let function = text_or_unknown (read_cstr function_id) in
      let message = text_or_unknown (read_cstr error) in
      let why = codes "interpret_failure:" ++ (function ++ (codes ":" ++ message)) in
      let (r₁, st₁) =
        post_interpret_failure_event o r p function message
          (record st { disk = Launch.mark_failure o.now st.disk p why }) in
      (r₁, st₁, pos 0)

  -- The events that the callback gets, if there is one, with what is left.
  unfoldable pub drained :
      Bool
      → Runtime
      → Store
      → Result LogError (List CrashRollbackEvent)
      → Returned × List CrashRollbackEvent
  drained callback r st (err e) = (refused r st (failure (log e)), [])
  drained callback r st (ok events) = (
    (r, record st { disk = clear_rollback_events st.disk }, pos (min (length events) c_int_max)),
    if callback then events else [],
  )

  unfoldable pub fcb_drain_rollback_events :
      Bool → Runtime → Store → Returned × List CrashRollbackEvent
  unfolding drained
  fcb_drain_rollback_events callback r st = drained callback r st (rollback_events st.disk)

  unfoldable pub fcb_current_patch_number : Runtime → Store → Returned
  fcb_current_patch_number r st =
      let (d, s) = load_state o.now st.disk in
      number_or r (record st { disk = d }) (codes "current_patch_number exceeds c_int range")
        s.current_patch_number

  abbrev pub active_patch : State → ℕ
  active_patch s = elim s.last_launch [
    | some l ↦ l.patch_number
    | none ↦ elim s.pending_patch_number [ some p ↦ p | none ↦ s.current_patch_number ]
  ]

  unfoldable pub fcb_active_patch_number : Runtime → Store → Returned
  fcb_active_patch_number r st =
      let (d, s) = load_state o.now st.disk in
      number_or r (record st { disk = d }) (codes "active patch_number exceeds c_int range")
        (active_patch s)

  unfoldable pub good_number : Runtime → Store → Option ℕ → Returned
  good_number r st none = (r, st, pos 0)
  good_number r st (some p) =
      number_or r st (codes "last_known_good_patch_number exceeds c_int range") p

  unfoldable pub fcb_last_known_good_patch_number : Runtime → Store → Returned
  unfolding good_number
  fcb_last_known_good_patch_number r st =
      let (d, s) = load_state o.now st.disk in
      good_number r (record st { disk = d }) s.last_known_good_patch_number

  -- The events whose JSON is returned, the newest first; a limit of 0 or less is none.
  unfoldable pub latest_first : ℤ → List CrashRollbackEvent → List CrashRollbackEvent
  latest_first (negsuc n) events = reverse events
  latest_first (pos zero) events = reverse events
  latest_first (pos (suc n)) events = take (suc n) (reverse events)

  unfoldable pub fcb_crash_rollback_history_json :
      ℤ → Runtime → Store → Runtime × Result LogError (List CrashRollbackEvent)
  fcb_crash_rollback_history_json limit r st = elim (rollback_events st.disk) [
    | err e ↦ ((set_error r (failure (log e))).0, err e)
    | ok events ↦ (r, ok (latest_first limit events))
  ]

  unfoldable pub offered_number : Runtime → Store → Option PatchCheck → Returned
  offered_number r st none = (r, st, pos 0)
  offered_number r st (some p) =
      number_or r st (codes "last check patch_number exceeds c_int range") p.patch_number

  unfoldable pub checked_code : Runtime → Store → Option CheckResponse → Returned
  unfolding offered_number
  checked_code r st none = (r, st, pos 0)
  checked_code r st (some c) = offered_number r st c.patch

  unfoldable pub fcb_last_check_patch_number : Runtime → Store → Returned
  unfolding checked_code
  fcb_last_check_patch_number r st = checked_code r st r.last_check

-- The counters are `AtomicU64`, which wrap around.
unfoldable pub fcb_record_interpreter_call : Stats → Stats
fcb_record_interpreter_call s = record s { interpreted = (s.interpreted + 1) % 2 ^ 64 }

unfoldable pub fcb_record_aot_call : Stats → Stats
fcb_record_aot_call s = record s { aot = (s.aot + 1) % 2 ^ 64 }

unfoldable pub fcb_reset_interpreter_stats : Stats → Stats
fcb_reset_interpreter_stats s = record { interpreted = 0; aot = 0 }
