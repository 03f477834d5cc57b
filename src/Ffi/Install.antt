-- ===== src/Ffi/Install.antt =====
-- updater/src/lib.rs: the check for an update, and `fcb_download_and_install_blocking`. A panic of
-- the client is an error value, which `ffi_guard` turns into its message. A check of this runtime has
-- the flight for itself here.
pub mod Outcome
mod Examples
use fl_codepush_box.Prelude.{
  ℕ, ℤ, pos, negsuc, Bool, true, false, Option, none, some, List, [], ◌∷◌, if◌then◌else◌, Str,
  Bytes, bytes_eq, Result, ok, err, ◌>>=◌, ◌>>◌, refuse_if,
}
use fl_codepush_box.Client
use fl_codepush_box.Client.{ClientError, panicked}
use fl_codepush_box.Client.Calls
use fl_codepush_box.State.{State}
use fl_codepush_box.State.Disk.{Disk, load_state}
use fl_codepush_box.State.PatchFiles.{InstallError}
use fl_codepush_box.State.Install.{install_payload_with_baseline}
use fl_codepush_box.Ffi.{
  PatchCheck, CheckResponse, Runtime, FfiError, no_server_url, no_app_id, no_release_version,
  no_public_key, cancelled, patch_omitted, client, install, ErrorMessage, failure, set_error, Poll,
  before_check, before_install,
}
use fl_codepush_box.Ffi.Downloads.{Folder, download_dir, ensure_not_cancelled, download_patch_files}
use fl_codepush_box.Ffi.Config.{is_empty}
use fl_codepush_box.Ffi.Events.{Outside, Store, post_install_event}

unfoldable pub ensure_configured : Runtime → Result FfiError (Unit {0})
ensure_configured r = do
  refuse_if (is_empty r.server_url) no_server_url
  refuse_if (is_empty r.app_id) no_app_id
  refuse_if (is_empty r.release_version) no_release_version

-- The request of a check, which is also the key of its flight.
pub record Request : Type 0 where
  pub server_url : Str
  pub org_id : Option Str
  pub app_id : Str
  pub release_version : Str
  pub platform : Str
  pub arch : Str
  pub channel : Str
  pub current_patch_number : ℕ
  pub client_id : Str

abbrev request_of : Runtime → State → Request
request_of r s = record {
  server_url = r.server_url;
  org_id = r.org_id;
  app_id = r.app_id;
  release_version = r.release_version;
  platform = r.platform;
  arch = r.arch;
  channel = r.channel;
  current_patch_number = s.current_patch_number;
  client_id = r.client_id;
}

abbrev pub put_folder : Str → Folder → (Str → Folder) → Str → Folder
put_folder dir f folders other = if bytes_eq dir other then f else folders other

module _ (o : Outside) where
  unfoldable pub loaded_request :
      Runtime → Store → Result FfiError (Unit {0}) → Store × Result FfiError Request
  loaded_request r st (err e) = (st, err e)
  loaded_request r st (ok _) =
      let (d, s) = load_state o.now st.disk in (record st { disk = d }, ok (request_of r s))

  unfoldable pub check_request_from_runtime : Runtime → Store → Store × Result FfiError Request
  unfolding loaded_request
  check_request_from_runtime r st = loaded_request r st (ensure_configured r)

  abbrev as_response : Result ClientError CheckResponse → Result FfiError CheckResponse
  as_response (ok a) = ok a
  as_response (err e) = err (client e)

  unfoldable pub perform_check_request : Request → Result FfiError CheckResponse
  perform_check_request q =
      as_response
        (Calls.check o.read_text o.server o.decode_check (Client.new q.server_url) (record {
          org_id = q.org_id;
          app_id = q.app_id;
          release_version = q.release_version;
          platform = q.platform;
          arch = q.arch;
          channel = q.channel;
          current_patch_number = q.current_patch_number;
          client_id = q.client_id;
        })).1

  unfoldable pub check_for_update : Runtime → Store → Store × Result FfiError CheckResponse
  check_for_update r st =
      let (st₁, q) = check_request_from_runtime r st in (st₁, q >>= perform_check_request)

  abbrev pub read_baseline : Option Str → Option (Option Bytes)
  read_baseline none = none
  read_baseline (some path) = some (o.local path)

  unfoldable pub finish_install :
      Runtime → ℕ → Store → Disk × Result InstallError (Unit {0}) → Store × Result FfiError Bool
  finish_install r p st (d, err e) = (record st { disk = d }, err (install e))
  finish_install r p st (d, ok _) = (post_install_event o r p (record st { disk = d }), ok true)

  -- What follows the download.
  unfoldable pub install_downloaded :
      Runtime
      → PatchCheck
      → Store
      → Folder × Result FfiError (Unit {0})
      → Store × Result FfiError Bool
  unfolding finish_install
  install_downloaded r p st (f, err e) =
      (record st { folders = put_folder (download_dir r p) f st.folders }, err e)
  install_downloaded r p st (f, ok _) =
      let there = record st { folders = put_folder (download_dir r p) f st.folders } in
      if o.flag before_install
      then (there, err cancelled)
      else finish_install r p.patch_number there (
          install_payload_with_baseline o.host o.snapshot_replace o.now f.manifest f.payload
            r.public_key_b64 (read_baseline r.baseline_artifact_path) st.disk)

  abbrev pub install_patch : Runtime → PatchCheck → Store → Store × Result FfiError Bool
  install_patch r p st = install_downloaded r p st (
      download_patch_files o.host o.read_text o.server o.local o.flag p
        (st.folders (download_dir r p)))

  -- What follows the response of the check: whether it marks a patch as available, and the patch.
  unfoldable pub install_offer :
      Runtime → Store → Bool → Option PatchCheck → Store × Result FfiError Bool
  install_offer r st true none = (st, err patch_omitted)
  install_offer r st false none = (st, ok false)
  install_offer r st available (some p) = install_patch r p st

  unfoldable pub install_response :
      Runtime → Store × Result FfiError CheckResponse → Store × Result FfiError Bool
  unfolding install_offer install_downloaded
  install_response r (st, err e) = (st, err e)
  install_response r (st, ok c) = install_offer r st c.patch_available c.patch

  abbrev pub last_or_new : Runtime → Store → Store × Result FfiError CheckResponse
  last_or_new r st = elim r.last_check [ some c ↦ (st, ok c) | none ↦ check_for_update r st ]

  abbrev ready : Runtime → Result FfiError (Unit {0})
  ready r =
      ensure_configured r
      >> ensure_not_cancelled (o.flag before_check)
      >> refuse_if (is_empty r.public_key_b64) no_public_key

  unfoldable pub proceed :
      Runtime → Store → Result FfiError (Unit {0}) → Store × Result FfiError Bool
  unfolding install_response
  proceed r st (err e) = (st, err e)
  proceed r st (ok _) = install_response r (last_or_new r st)

  unfoldable pub download_and_install : Runtime → Store → Store × Result FfiError Bool
  unfolding proceed
  download_and_install r st = proceed r st (ready r)

  -- The message of a failure: that of `ffi_guard` for a panic.
  abbrev pub message_of : FfiError → ErrorMessage
  message_of (client panicked) = ErrorMessage.panicked
  message_of e = failure e

  unfoldable pub install_code : Runtime → Store × Result FfiError Bool → Runtime × Store × ℤ
  install_code r (st, ok true) = (r, st, pos 1)
  install_code r (st, ok false) = (r, st, pos 0)
  install_code r (st, err e) = let (r₁, code) = set_error r (message_of e) in (r₁, st, code)

  unfoldable pub fcb_download_and_install_blocking : Runtime → Store → Runtime × Store × ℤ
  unfolding install_code
  fcb_download_and_install_blocking r st = install_code r (download_and_install r st)

  unfoldable pub check_code : Runtime → Store × Result FfiError CheckResponse → Runtime × Store × ℤ
  check_code r (st, err e) = let (r₁, code) = set_error r (message_of e) in (r₁, st, code)
  check_code r (st, ok c) =
      (record r { last_check = some c }, st, if c.patch_available then pos 1 else pos 0)

  unfoldable pub fcb_check_for_update_blocking : Runtime → Store → Runtime × Store × ℤ
  unfolding check_code
  fcb_check_for_update_blocking r st = check_code r (check_for_update r st)
