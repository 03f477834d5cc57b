-- ===== src/Ffi/Examples.antt =====
-- Concrete runs of updater/src/lib.rs.
use fl_codepush_box.Prelude.{
  is_utf8, is_blank, pos, negsuc, ◌≡◌, refl, ◌⊎◌, Bool, true, false, Option, none, some, List, [],
  ◌∷◌, Bytes, Str, codes, decimal64, Result, ok, arith,
}
use fl_codepush_box.Host.Example.{example_host, zeros}
use fl_codepush_box.Client.{Read}
use fl_codepush_box.Client.Example.{one_byte, one_byte-Serves}
use fl_codepush_box.State.{State, CrashRollbackEvent}
use fl_codepush_box.State.Disk.{stored, event, load_state, read_state, rollback_events}
use fl_codepush_box.State.Patches.{migrate_state}
use fl_codepush_box.Ffi.{Runtime, new, read_cstr, set_error, PatchCheck, FfiError, Poll, chars}
use fl_codepush_box.Ffi.Progress.{parse_digits, parse_progress, parse_progress-decimal64}
use fl_codepush_box.Ffi.Downloads.{Folder, download_patch_files}
use fl_codepush_box.Ffi.Downloads.Verified.{Settled, download_patch_files-Settled}
use fl_codepush_box.Ffi.Downloads.Heal.{
  Offers, download_patch_files-resumes, download_patch_files-heals,
}
use fl_codepush_box.Ffi.Config.{with_text, fcb_set_server_url, fcb_set_org_id, fcb_set_client_id}
use fl_codepush_box.Ffi.Config.Sound.{set_server_url, set_org_id, set_client_id, run}
use fl_codepush_box.Ffi.Config.Process.{Process, call, calls, restarted, persist-hydrate}
use fl_codepush_box.Ffi.Events.{
  Outside, Store, flush_rollback_events, parse_interpret_failure_location, parenthesised,
  leading_digits,
}
use fl_codepush_box.Ffi.Events.Flush.{all_delivered, Flushed, flush_rollback_events-Flushed}
use fl_codepush_box.Ffi.Calls.Codes.{Codes, number_of, patch_number-Codes}
use fl_codepush_box.Ffi.Calls.{
  active_patch, fcb_current_patch_number, fcb_active_patch_number, fcb_last_known_good_patch_number,
  fcb_last_check_patch_number,
}

parse_progress-decimal64_example : parse_progress (decimal64 65536) ≡ some 65536
parse_progress-decimal64_example = parse_progress-decimal64 65536 (omega arith)

-- The offset is a number, and the source is in the parentheses.
located :
    parse_interpret_failure_location (codes "boom at bytecode offset 12 (a.dart:3 FCB patch)")
    ≡ record { bytecode_offset = some 12; source_location = some (codes "a.dart:3") }
unfolding parse_interpret_failure_location parenthesised leading_digits parse_digits
located = refl

abbrev read_text : List Read → Str
read_text reads = []

abbrev no_file : Str → Option Bytes
no_file path = none

abbrev quiet : Poll → Bool
quiet q = false

-- The example's hash is the identity.
abbrev offer : PatchCheck
offer = record {
  patch_number = 2;
  manifest_url = codes "http://h/m";
  payload_url = codes "http://h/p";
  manifest_hash = 7 ∷ [];
  payload_hash = 7 ∷ [];
}

offered : Offers example_host one_byte (codes "http://h/m") (7 ∷ []) (7 ∷ [])
offered = record {
  serves = one_byte-Serves (codes "http://h/m");
  web = refl;
  small = omega arith;
  hashed = refl;
}

offered_payload : Offers example_host one_byte (codes "http://h/p") (7 ∷ []) (7 ∷ [])
offered_payload = record {
  serves = one_byte-Serves (codes "http://h/p");
  web = refl;
  small = omega arith;
  hashed = refl;
}

-- A folder with this part file.
abbrev folder : Bytes → Folder
folder part = record {
  manifest = none;
  part = some part;
  progress = some (codes "1");
  payload = none;
}

abbrev download : Folder → Folder × Result FfiError (Unit {0})
download f = download_patch_files example_host read_text one_byte no_file quiet offer f

download_patch_files-Settled_example : Settled example_host offer none (download (folder (9 ∷ [])))
download_patch_files-Settled_example =
    download_patch_files-Settled example_host read_text one_byte no_file quiet offer
      (folder (9 ∷ []))

download_patch_files-resumes_example :
    ((download (folder [])).1 ≡ ok tt) × ((download (folder [])).0.payload ≡ some (7 ∷ []))
download_patch_files-resumes_example =
    download_patch_files-resumes example_host read_text one_byte no_file quiet offer (7 ∷ [])
      (7 ∷ []) (λ q. refl) offered offered_payload (folder []) [] (7 ∷ []) refl refl

-- Two damaged bytes, and a progress between them.
download_patch_files-heals_example :
    ((download (folder (9 ∷ 9 ∷ []))).1 ≡ ok tt)
    ⊎ ((download (download (folder (9 ∷ 9 ∷ []))).0).1 ≡ ok tt)
download_patch_files-heals_example =
    download_patch_files-heals example_host read_text one_byte no_file quiet offer (7 ∷ []) (7 ∷ [])
      (λ q. refl) offered offered_payload (folder (9 ∷ 9 ∷ []))

-- A server, an organisation that is blank, and then a client that is refused for its empty name.
abbrev settings : Process
settings =
    calls example_host (set_client_id (chars []) ∷ [])
      (call example_host (set_org_id (chars (codes " "))) (
        calls example_host (set_server_url (chars (codes "https://h")) ∷ [])
          (record { runtime = new; files = λ d. none }))).0

org_accepted :
    (call example_host (set_org_id (chars (codes " "))) (
      calls example_host
        (set_server_url (chars (codes "https://h")) ∷ [])
        (record { runtime = new; files = λ d. none }))).1
    ≡ pos 0
unfolding call calls run fcb_set_org_id with_text read_cstr is_utf8 is_blank
org_accepted = refl

settings_kept : settings.runtime.server_url ≡ codes "https://h"
unfolding call calls run fcb_set_org_id fcb_set_server_url fcb_set_client_id with_text read_cstr new
    set_error is_utf8 is_blank
settings_kept = refl

persist-hydrate_example : restarted settings ≡ record new {
  cache_dir = settings.runtime.cache_dir;
  app_id = settings.runtime.app_id;
  channel = settings.runtime.channel;
  release_version = settings.runtime.release_version;
  platform = settings.runtime.platform;
  arch = settings.runtime.arch;
  server_url = settings.runtime.server_url;
  org_id = settings.runtime.org_id;
  client_id = settings.runtime.client_id;
}
persist-hydrate_example =
    persist-hydrate example_host (λ d. none) (set_server_url (chars (codes "https://h")) ∷ [])
      (set_client_id (chars []) ∷ []) (set_org_id (chars (codes " "))) refl org_accepted refl

abbrev outside : Outside
outside = record {
  host = example_host;
  read_text = read_text;
  server = one_byte;
  local = no_file;
  decode_check = λ reads. some (record { patch_available = true; patch = some offer });
  render_event = λ e. [];
  flag = quiet;
  snapshot_replace = false;
  now = codes "0";
  stats = record { interpreted = 0; aot = 0 };
}

abbrev runtime : Runtime
runtime = record new {
  app_id = codes "app";
  release_version = codes "1.0";
  server_url = codes "http://h";
  public_key_b64 = zeros 32;
  last_check = some (record { patch_available = true; patch = some offer });
}

-- A crash, and the state that it left.
abbrev crash : CrashRollbackEvent
crash = record {
  event_type = codes "crash_rollback";
  patch_number = 1;
  boot_attempts = 3;
  last_known_good_patch_number = none;
  timestamp = codes "0";
  reason = none;
}

abbrev state : State
state = record {
  schema_version = 2;
  release_version = codes "1.0";
  current_patch_number = 1;
  pending_patch_number = some 3000000000;
  last_known_good_patch_number = some 1;
  boot_attempts = 0;
  bad_patches = [];
  last_launch = none;
  installed = [];
}

abbrev store : Store
store = record {
  disk = record {
    state_json = some (stored state);
    corrupt_backups = [];
    events_log = some (event crash ∷ []);
    patch_files = [];
  };
  config_json = none;
  folders = λ dir. folder [];
  posted = [];
}

flush_rollback_events-Flushed_example :
    ((crash ∷ [] ≡ []) × (flush_rollback_events outside runtime store ≡ (store, ok tt)))
    ⊎ Flushed outside runtime
        (all_delivered outside runtime (crash ∷ []))
        store.disk
        (flush_rollback_events outside runtime store)
flush_rollback_events-Flushed_example =
    flush_rollback_events-Flushed outside runtime store (crash ∷ []) refl
      (unfold rollback_events in refl)

-- The pending patch is the active one, and its number is too large.
active_refused : (fcb_active_patch_number outside runtime store).2 ≡ negsuc 0
unfolding fcb_active_patch_number load_state read_state migrate_state set_error
active_refused = refl

patch_number-Codes_example :
    Codes
      (load_state (codes "0") store.disk).1.current_patch_number
      (fcb_current_patch_number outside runtime store).2
    × Codes
        (active_patch outside (load_state (codes "0") store.disk).1)
        (fcb_active_patch_number outside runtime store).2
    × Codes
        (number_of (load_state (codes "0") store.disk).1.last_known_good_patch_number)
        (fcb_last_known_good_patch_number outside runtime store).2
    × Codes 2 (fcb_last_check_patch_number outside runtime store).2
patch_number-Codes_example = patch_number-Codes outside runtime store
