-- ===== src/Ffi/Config.antt =====
-- updater/src/lib.rs: the configuration of the runtime, its setters, and runtime_config.json, which
-- is kept as what serde_json reads from it.
pub mod Sound
pub mod Saved
pub mod Process
use fl_codepush_box.Prelude.{
  ℕ, ℤ, pos, negsuc, Bool, true, false, Option, none, some, List, [], ◌∷◌, if◌then◌else◌, Str,
  Bytes, codes, bytes_eq, is_blank, Result, ok, err,
}
use fl_codepush_box.Host.{Host}
use fl_codepush_box.Ffi.{
  Runtime, FfiError, bad_key, ErrorMessage, text, failure, not_utf8, CStr, read_cstr, set_error,
}
use fl_codepush_box.Ffi.Keys.{KeyError, normalize_public_key_b64}

-- The entries that are texts; `none` is an entry that is missing or no text.
pub record Config : Type 0 where
  pub app_id : Option Str
  pub channel : Option Str
  pub release_version : Option Str
  pub platform : Option Str
  pub arch : Option Str
  pub server_url : Option Str
  pub org_id : Option Str
  pub client_id : Option Str

-- The JSON value of the file, or a text that is no JSON.
pub data ConfigFile : Type 0 where
  config : Config → ConfigFile
  no_json : ConfigFile

unfoldable pub persist_runtime_config : Runtime → ConfigFile
persist_runtime_config r = config (record {
  app_id = some r.app_id;
  channel = some r.channel;
  release_version = some r.release_version;
  platform = some r.platform;
  arch = some r.arch;
  server_url = some r.server_url;
  org_id = r.org_id;
  client_id = some r.client_id;
})

abbrev pub is_empty : Str → Bool
is_empty [] = true
is_empty (b ∷ s) = false

-- An entry takes the place of an empty field.
abbrev pub if_empty : Option Str → Str → Str
if_empty none old = old
if_empty (some value) old = if is_empty old then value else old

-- An entry that is not empty takes the place of the field.
abbrev pub if_given : Option Str → Str → Str
if_given none old = old
if_given (some value) old = if is_empty value then old else value

abbrev pub if_no_org : Option Str → Option Str → Option Str
if_no_org entry (some org) = some org
if_no_org none none = none
if_no_org (some value) none = if is_blank value then none else some value

abbrev pub if_default : Option Str → Str → Str
if_default entry old = if bytes_eq old (codes "default") then if_given entry old else old

unfoldable pub hydrated : Runtime → Config → Runtime
hydrated r c = record r {
  app_id = if_empty c.app_id r.app_id;
  release_version = if_empty c.release_version r.release_version;
  server_url = if_empty c.server_url r.server_url;
  channel = if_given c.channel r.channel;
  platform = if_given c.platform r.platform;
  arch = if_given c.arch r.arch;
  org_id = if_no_org c.org_id r.org_id;
  client_id = if_default c.client_id r.client_id;
}

-- Without the file, or with one that is not JSON, the runtime is as before; every caller ignores
-- the error.
unfoldable pub hydrate_runtime_config : Option ConfigFile → Runtime → Runtime
unfolding hydrated
hydrate_runtime_config none r = r
hydrate_runtime_config (some no_json) r = r
hydrate_runtime_config (some (config c)) r = hydrated r c

-- `check_on_startup`, which `fcb_init` does not read, is left out.
pub record InitParams : Type 0 where
  pub app_id : CStr
  pub channel : CStr
  pub release_version : CStr
  pub platform : CStr
  pub arch : CStr
  pub cache_dir : CStr
  pub public_key_pem : CStr

abbrev pub with_cache_dir : Runtime → Str → Runtime
with_cache_dir r s = record r { cache_dir = s }

abbrev pub with_app_id : Runtime → Str → Runtime
with_app_id r s = record r { app_id = s }

abbrev pub with_channel : Runtime → Str → Runtime
with_channel r s = record r { channel = s }

abbrev pub with_release_version : Runtime → Str → Runtime
with_release_version r s = record r { release_version = s }

abbrev pub with_platform : Runtime → Str → Runtime
with_platform r s = record r { platform = s }

abbrev pub with_arch : Runtime → Str → Runtime
with_arch r s = record r { arch = s }

-- What a call of a setter leaves: the runtime, runtime_config.json where it was written (in the
-- runtime's `cache_dir`), and the code.
abbrev pub Configured : Type 0
Configured = Runtime × Option ConfigFile × ℤ

abbrev pub refused : Runtime → ErrorMessage → Configured
refused r m = let (r₁, code) = set_error r m in (r₁, none, code)

abbrev pub persisted : Runtime → Configured
persisted r = (r, some (persist_runtime_config r), pos 0)

-- What follows `read_cstr`, if it succeeds.
unfoldable pub with_text : Runtime → CStr → (Str → Configured) → Configured
with_text r value next = elim (read_cstr value) [ none ↦ refused r not_utf8 | some s ↦ next s ]

-- One `match` of `fcb_init`: the next steps with the runtime, changed if the text is not empty.
unfoldable pub set_field :
    Runtime → CStr → (Runtime → Str → Runtime) → (Runtime → Configured) → Configured
unfolding with_text
set_field r value change next =
    with_text r value (λ s. if is_empty s then next r else next (change r s))

module _ (h : Host) where
  abbrev pub set_key : Runtime → (Runtime → Configured) → Result KeyError Str → Configured
  set_key r next (err e) = refused r (failure (bad_key e))
  set_key r next (ok key) = next (record r { public_key_b64 = key })

  unfoldable pub set_public_key : Runtime → CStr → (Runtime → Configured) → Configured
  unfolding with_text
  set_public_key r value next =
      with_text r value
        (λ s. if is_empty s then next r else set_key r next (normalize_public_key_b64 h s))

  -- `none` is a null pointer.
  unfoldable pub fcb_init : Option InitParams → Runtime → Configured
  unfolding set_field set_public_key
  fcb_init none r = refused r (text (codes "params is null"))
  fcb_init (some p) r =
      set_field (record r { last_check = none }) p.cache_dir with_cache_dir
        λ r. set_field r p.app_id with_app_id λ r. set_field r p.channel with_channel λ r.
          set_field r p.release_version with_release_version λ r.
            set_field r p.platform with_platform
              λ r. set_field r p.arch with_arch λ r. set_public_key r p.public_key_pem persisted

unfoldable pub fcb_set_server_url : CStr → Runtime → Configured
unfolding with_text
fcb_set_server_url value r = with_text r value λ s.
    if is_empty s
    then refused r (text (codes "server_url is empty"))
    else persisted (record r { server_url = s; last_check = none })

unfoldable pub fcb_set_org_id : CStr → Runtime → Configured
unfolding with_text
fcb_set_org_id value r = with_text r value λ s.
    if is_blank s
    then persisted (record r { org_id = none; last_check = none })
    else persisted (record r { org_id = some s; last_check = none })

unfoldable pub fcb_set_client_id : CStr → Runtime → Configured
unfolding with_text
fcb_set_client_id value r = with_text r value λ s.
    if is_empty s
    then refused r (text (codes "client_id is empty"))
    else persisted (record r { client_id = s; last_check = none })

-- This setter writes no runtime_config.json.
unfoldable pub fcb_set_baseline_artifact_path : CStr → Runtime → Configured
unfolding with_text
fcb_set_baseline_artifact_path value r = with_text r value λ s. (
  record r { baseline_artifact_path = if is_empty s then none else some s; last_check = none },
  none,
  pos 0,
)
