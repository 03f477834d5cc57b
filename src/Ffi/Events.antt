-- ===== src/Ffi/Events.antt =====
-- updater/src/lib.rs: the events that the library sends to the server. The JSON of an event is a
-- parameter; its interpreter ratio, a floating-point quotient of the two counters, is left out.

pub mod Flush
use fl_codepush_box.Prelude.{
  ℕ, ◌+◌, ◌-◌, Bool, true, false, ◌&&◌, ◌||◌, Option, none, some, List, [], ◌∷◌, ◌++◌,
  if◌then◌else◌, leb, Str, Bytes, codes, find, drop, take, length, bytes_eq, Result, ok, err,
}
use fl_codepush_box.Host.{Host}
use fl_codepush_box.Client
use fl_codepush_box.Client.{Read, Server, ClientError}
use fl_codepush_box.Client.Calls.{post_json}
use fl_codepush_box.State.{State, CrashRollbackEvent, u32_max}
use fl_codepush_box.State.Disk.{Disk, LogError, load_state, rollback_events, clear_rollback_events}
use fl_codepush_box.Ffi.{Runtime, CheckResponse, FfiError, client, log, Poll}
use fl_codepush_box.Ffi.Progress.{is_digit, parse_digits}
use fl_codepush_box.Ffi.Downloads.{Folder}
use fl_codepush_box.Ffi.Config.{ConfigFile, is_empty, hydrate_runtime_config}

pub record InterpretFailureLocation : Type 0 where
  pub bytecode_offset : Option ℕ
  pub source_location : Option Str

unfoldable pub leading_digits : Str → Str
leading_digits [] = []
leading_digits (b ∷ s) = let rest = leading_digits s in if is_digit b then b ∷ rest else []

abbrev pub parse_u32 : Str → Option ℕ
parse_u32 s = elim (parse_digits 0 s) [
  | none ↦ none
  | some n ↦ (if leb n u32_max then some n else none)
]

abbrev pub strip_suffix : Str → Str → Option Str
strip_suffix s suffix =
    let rest = length s - length suffix in
    if leb (length suffix) (length s) && bytes_eq (drop rest s) suffix
    then some (take rest s)
    else none

abbrev source_of : Str → Option Str
source_of suffix = elim (strip_suffix suffix (codes " FCB patch")) [
  | none ↦ none
  | some source ↦ (if is_empty source then none else some source)
]

-- The text between the parentheses behind the offset.
unfoldable pub parenthesised : Str → Option Str
parenthesised tail = elim (find (codes " (") tail) [
  | none ↦ none
  | some opening ↦
      let suffix = drop (opening + 2) tail in
      elim (find (codes ")") suffix) [
        | none ↦ none
        | some closing ↦ source_of (take closing suffix)
      ]
]

abbrev at_offset : Str
at_offset = codes " at bytecode offset "

unfoldable pub parse_interpret_failure_location : Str → InterpretFailureLocation
unfolding leading_digits parenthesised
parse_interpret_failure_location error = elim (find at_offset error) [
  | none ↦ record { bytecode_offset = none; source_location = none }
  | some offset_start ↦
      let tail = drop offset_start error in
      let offset_digits = leading_digits (drop (length at_offset) tail) in
      record {
        bytecode_offset = if is_empty offset_digits then none else parse_u32 offset_digits;
        source_location = parenthesised tail;
      }
]

-- The two counters of calls.
pub record Stats : Type 0 where
  pub interpreted : ℕ
  pub aot : ℕ

pub data EventPayload : Type 0 where
  launch_success : Option ℕ → Stats → EventPayload
  installed_patch : ℕ → Stats → EventPayload
  launch_failure : ℕ → Str → Stats → EventPayload
  interpret_failure : ℕ → Str → Str → InterpretFailureLocation → Stats → EventPayload
  rollback : CrashRollbackEvent → EventPayload

pub record EventRequest : Type 0 where
  pub org_id : Option Str
  pub app_id : Str
  pub release_version : Str
  pub platform : Str
  pub arch : Str
  pub patch_number : Option ℕ
  pub event_type : Str
  pub client_id_hash : Option Str
  pub payload : EventPayload

-- What the library works with: the host, the server, the files outside the cache, serde_json's
-- decoding and encoding, the cancel flag, the build's feature, the clock and the counters.
pub record Outside : Type 0 where
  pub host : Host
  pub read_text : List Read → Str
  pub server : Server
  pub local : Str → Option Bytes
  pub decode_check : List Read → Option CheckResponse
  pub render_event : EventRequest → Bytes
  pub flag : Poll → Bool
  pub snapshot_replace : Bool
  pub now : Str
  pub stats : Stats

-- What is below `cache_dir`, and the events that `post_event` was called with, the last first.
pub record Store : Type 0 where
  pub disk : Disk
  pub config_json : Option ConfigFile
  pub folders : Str → Folder
  pub posted : List EventRequest

abbrev pub is_unconfigured : Runtime → Bool
is_unconfigured r = is_empty r.server_url || (is_empty r.app_id || is_empty r.release_version)

abbrev as_client : {A : Type 0} → Result ClientError A → Result FfiError A
as_client (ok a) = ok a
as_client (err e) = err (client e)

module _ (o : Outside) where
  abbrev pub event_request : Runtime → Option ℕ → Str → EventPayload → EventRequest
  event_request r patch event_type payload = record {
    org_id = r.org_id;
    app_id = r.app_id;
    release_version = r.release_version;
    platform = r.platform;
    arch = r.arch;
    patch_number = patch;
    event_type = event_type;
    client_id_hash = some (o.host.sha256_hex (r.client_id ++ r.app_id));
    payload = payload;
  }

  unfoldable pub post_event : Runtime → EventRequest → Result FfiError (Unit {0})
  post_event r e =
      as_client
        (post_json o.read_text o.server (Client.new r.server_url) (codes "/v1/events")
          (o.render_event e)).1

  abbrev pub posting : EventRequest → Store → Store
  posting e st = record st { posted = e ∷ st.posted }

  -- The loop of `flush_rollback_events`: it ends with the first event that is not delivered.
  unfoldable pub flush_events :
      Runtime → List CrashRollbackEvent → Store → Store × Result FfiError (Unit {0})
  flush_events r [] st = (record st { disk = clear_rollback_events st.disk }, ok tt)
  flush_events r (e ∷ es) st =
      let request = event_request r (some e.patch_number) e.event_type (rollback e) in
      let rest = flush_events r es (posting request st) in
      elim (post_event r request) [ err x ↦ (posting request st, err x) | ok _ ↦ rest ]

  unfoldable pub flush_logged :
      Runtime
      → Store
      → Result LogError (List CrashRollbackEvent)
      → Store × Result FfiError (Unit {0})
  flush_logged r st (err e) = (st, err (log e))
  flush_logged r st (ok []) = (st, ok tt)
  flush_logged r st (ok (e ∷ es)) = flush_events r (e ∷ es) st

  unfoldable pub flush_rollback_events : Runtime → Store → Store × Result FfiError (Unit {0})
  unfolding flush_logged
  flush_rollback_events r st =
      if is_unconfigured r then (st, ok tt) else flush_logged r st (rollback_events st.disk)

  -- The other events are posted once, and every caller ignores the result.
  unfoldable pub post_launch_success_event : Runtime → Store → Store
  post_launch_success_event r st =
      let (d, s) = load_state o.now st.disk in
      let payload = launch_success s.last_known_good_patch_number o.stats in
      let request =
        event_request r s.last_known_good_patch_number (codes "launch_success") payload in
      if is_unconfigured r then st else posting request (record st { disk = d })

  unfoldable pub post_install_event : Runtime → ℕ → Store → Store
  post_install_event r p st =
      let request = event_request r (some p) (codes "install") (installed_patch p o.stats) in
      if is_unconfigured r then st else posting request st

  -- The two events about failures begin with `hydrate_runtime_config`.
  abbrev posting_hydrated : (Runtime → EventRequest) → Runtime → Store → Runtime × Store
  posting_hydrated request r st =
      let r₁ = hydrate_runtime_config st.config_json r in
      if is_unconfigured r₁ then (r₁, st) else (r₁, posting (request r₁) st)

  unfoldable pub post_launch_failure_event : Runtime → ℕ → Str → Store → Runtime × Store
  post_launch_failure_event r p reason st =
      posting_hydrated
        (λ r₁. event_request r₁ (some p) (codes "launch_failure") (launch_failure p reason o.stats))
        r st

  unfoldable pub post_interpret_failure_event : Runtime → ℕ → Str → Str → Store → Runtime × Store
  post_interpret_failure_event r p function_id error st =
      let location = parse_interpret_failure_location error in
      posting_hydrated
        (λ r₁.
          event_request r₁ (some p) (codes "crash_rollback")
            (interpret_failure p function_id error location o.stats))
        r st
