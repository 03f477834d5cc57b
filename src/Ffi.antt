-- ===== src/Ffi.antt =====
-- updater/src/lib.rs: the C interface of the updater library. Here are the record of the library's
-- global state, the errors, and the points where an operation looks at the cancel flag.
pub mod Progress
pub mod Downloads
pub mod Keys
pub mod Config
pub mod Events
pub mod Install
pub mod Calls
pub mod Flights
mod Examples
use fl_codepush_box.Prelude.{
  ℕ, ℤ, negsuc, Bool, false, ◌||◌, Option, none, some, List, [], ◌∷◌, if◌then◌else◌, ◌==◌, Str,
  Bytes, codes, is_utf8,
}
use fl_codepush_box.Client.{ClientError}
use fl_codepush_box.Ffi.Keys.{KeyError}
use fl_codepush_box.State.Disk.{LogError}
use fl_codepush_box.State.Launch.{MarkError}
use fl_codepush_box.State.PatchFiles.{InstallError}

pub record PatchCheck : Type 0 where
  pub patch_number : ℕ
  pub manifest_url : Str
  pub payload_url : Str
  pub manifest_hash : Str
  pub payload_hash : Str

pub record CheckResponse : Type 0 where
  pub patch_available : Bool
  pub patch : Option PatchCheck

pub data FfiError : Type 0 where
  no_server_url no_app_id no_release_version no_public_key : FfiError
  cancelled patch_omitted file_missing : FfiError
  hash_mismatch : Str → FfiError
  client : ClientError → FfiError
  install : InstallError → FfiError
  mark : MarkError → FfiError
  log : LogError → FfiError
  bad_key : KeyError → FfiError
  flight : Str → FfiError

-- What `last_error` holds: a text, or the text of an error.
pub data ErrorMessage : Type 0 where
  nothing invalid_error not_utf8 panicked : ErrorMessage
  text : Str → ErrorMessage
  failure : FfiError → ErrorMessage

-- `strings`, which keeps the texts handed to C alive, is left out.
pub record Runtime : Type 0 where
  pub app_id : Str
  pub channel : Str
  pub release_version : Str
  pub platform : Str
  pub arch : Str
  pub cache_dir : Str
  pub public_key_b64 : Str
  pub server_url : Str
  pub org_id : Option Str
  pub client_id : Str
  pub baseline_artifact_path : Option Str
  pub last_check : Option CheckResponse
  pub last_error : ErrorMessage

unfoldable pub new : Runtime
new = record {
  app_id = [];
  channel = codes "stable";
  release_version = [];
  platform = codes "android";
  arch = codes "arm64-v8a";
  cache_dir = codes ".fcb/cache";
  public_key_b64 = [];
  server_url = [];
  org_id = none;
  client_id = codes "default";
  baseline_artifact_path = none;
  last_check = none;
  last_error = nothing;
}

-- A C string holds no byte 0.
abbrev has_nul : Str → Bool
has_nul [] = false
has_nul (b ∷ s) = b == 0 || has_nul s

abbrev as_message : ErrorMessage → ErrorMessage
as_message (text s) = if has_nul s then invalid_error else text s
as_message m = m

-- The code -1, and the runtime with the message. The texts of errors are not checked for a byte 0.
unfoldable pub set_error : Runtime → ErrorMessage → Runtime × ℤ
set_error r m = (record r { last_error = as_message m }, negsuc 0)

-- A pointer to C's characters: null, or the bytes before the first 0.
pub data CStr : Type 0 where
  null : CStr
  chars : Bytes → CStr

-- `none` where the bytes are not UTF-8.
unfoldable pub read_cstr : CStr → Option Str
read_cstr null = some []
read_cstr (chars bytes) = if is_utf8 bytes then some bytes else none

-- The points of a download and an install where `CANCEL_PENDING` is read. Another thread may set the
-- flag at any time, and a new check of the server resets it, so each read has its own answer.
pub data Poll : Type 0 where
  before_check before_manifest after_manifest after_payload before_payload_hash before_install :
      Poll
  in_payload : ℕ → Poll
