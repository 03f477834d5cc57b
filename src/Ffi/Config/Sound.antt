-- ===== src/Ffi/Config/Sound.antt =====
-- updater/src/lib.rs: the texts of a runtime that the setters keep filled, so that a fresh runtime
-- reads them back from runtime_config.json.
use fl_codepush_box.Prelude.{
  ◌≡◌, refl, Bool, true, false, not, ◌&&◌, Option, none, some, if◌then◌else◌, Str, codes, is_blank,
  Result, ok, err, arith,
}
use fl_codepush_box.Host.{Host}
use fl_codepush_box.Ffi.{Runtime, new, not_utf8, CStr, read_cstr, set_error}
use fl_codepush_box.Ffi.Keys.{KeyError, normalize_public_key_b64}
use fl_codepush_box.Ffi.Config.{
  persist_runtime_config, is_empty, if_given, if_no_org, hydrated, hydrate_runtime_config,
  InitParams, Configured, with_cache_dir, with_app_id, with_channel, with_release_version,
  with_platform, with_arch, refused, persisted, set_field, set_public_key, with_text, set_key,
  fcb_init, fcb_set_server_url, fcb_set_org_id, fcb_set_client_id, fcb_set_baseline_artifact_path,
}

abbrev has_no_blank : Option Str → Bool
has_no_blank none = true
has_no_blank (some s) = not (is_blank s)

-- The texts that have a default are not empty, and the organisation is not blank.
abbrev pub is_sound : Runtime → Bool
is_sound r =
    not (is_empty r.channel)
    && (not (is_empty r.platform)
        && (not (is_empty r.arch) && (not (is_empty r.client_id) && has_no_blank r.org_id)))

-- The calls of the setters.
pub data Setting : Type 0 where
  init : Option InitParams → Setting
  set_server_url set_org_id set_client_id set_baseline : CStr → Setting

unfoldable pub run : Host → Setting → Runtime → Configured
run h (init p) r = fcb_init h p r
run h (set_server_url s) r = fcb_set_server_url s r
run h (set_org_id s) r = fcb_set_org_id s r
run h (set_client_id s) r = fcb_set_client_id s r
run h (set_baseline s) r = fcb_set_baseline_artifact_path s r

with_text-is_sound :
    (r : Runtime) (value : CStr) (next : Str → Configured)
    → is_sound r ≡ true
    → ((s : Str) → is_sound (next s).0 ≡ true)
    → is_sound (with_text r value next).0 ≡ true
unfolding with_text set_error
with_text-is_sound r value next sound after =
    elim (read_cstr value)
      as (λ o.
        is_sound (elim o as (λ _. Configured) [ none ↦ refused r not_utf8 | some s ↦ next s ]).0
        ≡ true) [ none ↦ sound | some s ↦ after s ]

either-is_sound :
    (b : Bool) (x y : Configured)
    → (b ≡ true → is_sound x.0 ≡ true)
    → (b ≡ false → is_sound y.0 ≡ true)
    → is_sound (if b then x else y).0 ≡ true
either-is_sound true x y f g = f refl
either-is_sound false x y f g = g refl

set_field-is_sound :
    (r : Runtime) (value : CStr) (change : Runtime → Str → Runtime) (next : Runtime → Configured)
    → is_sound r ≡ true
    → ((s : Str) → is_empty s ≡ false → is_sound (change r s) ≡ true)
    → ((t : Runtime) → is_sound t ≡ true → is_sound (next t).0 ≡ true)
    → is_sound (set_field r value change next).0 ≡ true
unfolding set_field
set_field-is_sound r value change next sound changed after =
    with_text-is_sound r value _ sound (λ s.
      either-is_sound (is_empty s) (next r) (next (change r s)) (λ e. after r sound)
        (λ e. after (change r s) (changed s e)))

set_key-is_sound :
    (h : Host) (r : Runtime) (k : Result KeyError Str)
    → is_sound r ≡ true
    → is_sound (set_key h r persisted k).0 ≡ true
unfolding set_error
set_key-is_sound h r (err x) sound = sound
set_key-is_sound h r (ok k) sound = sound

set_public_key-is_sound :
    (h : Host) (r : Runtime) (value : CStr)
    → is_sound r ≡ true
    → is_sound (set_public_key h r value persisted).0 ≡ true
unfolding set_public_key
set_public_key-is_sound h r value sound = with_text-is_sound r value _ sound (λ s.
    either-is_sound (is_empty s) _ _ (λ e. sound)
      (λ e. set_key-is_sound h r (normalize_public_key_b64 h s) sound))

sound_channel :
    (r : Runtime) (s : Str)
    → is_sound r ≡ true
    → is_empty s ≡ false
    → is_sound (record r { channel = s }) ≡ true
sound_channel r s sound e = ground arith

sound_platform :
    (r : Runtime) (s : Str)
    → is_sound r ≡ true
    → is_empty s ≡ false
    → is_sound (record r { platform = s }) ≡ true
sound_platform r s sound e = ground arith

sound_arch :
    (r : Runtime) (s : Str)
    → is_sound r ≡ true
    → is_empty s ≡ false
    → is_sound (record r { arch = s }) ≡ true
sound_arch r s sound e = ground arith

sound_client :
    (r : Runtime) (s : Str)
    → is_sound r ≡ true
    → is_empty s ≡ false
    → is_sound (record r { client_id = s; last_check = none }) ≡ true
sound_client r s sound e = ground arith

sound_org :
    (r : Runtime) (s : Str)
    → is_sound r ≡ true
    → is_blank s ≡ false
    → is_sound (record r { org_id = some s; last_check = none }) ≡ true
sound_org r s sound e = ground arith

fcb_init-is_sound :
    (h : Host) (p : Option InitParams) (r : Runtime)
    → is_sound r ≡ true
    → is_sound (fcb_init h p r).0 ≡ true
unfolding fcb_init set_error
fcb_init-is_sound h none r sound = sound
fcb_init-is_sound h (some p) r sound =
    let key : Runtime → Configured = λ t. set_public_key h t p.public_key_pem persisted in
    let from_arch : Runtime → Configured = λ t. set_field t p.arch with_arch key in
    let from_platform : Runtime → Configured =
      λ t. set_field t p.platform with_platform from_arch in
    let from_release_version : Runtime → Configured =
      λ t. set_field t p.release_version with_release_version from_platform in
    let from_channel : Runtime → Configured =
      λ t. set_field t p.channel with_channel from_release_version in
    let from_app_id : Runtime → Configured = λ t. set_field t p.app_id with_app_id from_channel in
    set_field-is_sound (record r { last_check = none }) p.cache_dir with_cache_dir from_app_id sound
      (λ s e. sound)
      λ r₁ k₁.
        set_field-is_sound r₁ p.app_id with_app_id from_channel k₁ (λ s e. k₁)
          λ r₂ k₂.
            set_field-is_sound r₂ p.channel with_channel from_release_version k₂
              (λ s e. sound_channel r₂ s k₂ e)
              λ r₃ k₃.
                set_field-is_sound r₃ p.release_version with_release_version from_platform k₃
                  (λ s e. k₃)
                  λ r₄ k₄.
                    set_field-is_sound r₄ p.platform with_platform from_arch k₄
                      (λ s e. sound_platform r₄ s k₄ e)
                      λ r₅ k₅.
                        set_field-is_sound r₅ p.arch with_arch key k₅ (λ s e. sound_arch r₅ s k₅ e)
                          λ r₆ k₆. set_public_key-is_sound h r₆ p.public_key_pem k₆

pub run-is_sound :
    (h : Host) (c : Setting) (r : Runtime) → is_sound r ≡ true → is_sound (run h c r).0 ≡ true
unfolding run fcb_set_server_url fcb_set_org_id fcb_set_client_id fcb_set_baseline_artifact_path
    set_error
run-is_sound h (init p) r sound = fcb_init-is_sound h p r sound
run-is_sound h (set_server_url s) r sound =
    with_text-is_sound r s _ sound (λ t. either-is_sound (is_empty t) _ _ (λ e. sound) (λ e. sound))
run-is_sound h (set_org_id s) r sound =
    with_text-is_sound r s _ sound
      (λ t. either-is_sound (is_blank t) _ _ (λ e. ground arith) (λ e. sound_org r t sound e))
run-is_sound h (set_client_id s) r sound =
    with_text-is_sound r s _ sound
      (λ t. either-is_sound (is_empty t) _ _ (λ e. sound) (λ e. sound_client r t sound e))
run-is_sound h (set_baseline s) r sound = with_text-is_sound r s _ sound (λ t. sound)

org_kept : (o : Option Str) → has_no_blank o ≡ true → if_no_org o none ≡ o
org_kept none e = refl
org_kept (some s) e = let filled : is_blank s ≡ false = ground arith in rw filled refl

given_kept : (s old : Str) → not (is_empty s) ≡ true → if_given (some s) old ≡ s
given_kept s old e = let filled : is_empty s ≡ false = ground arith in rw filled refl

-- What is written for a sound runtime gives a fresh one the same texts.
pub hydrated-persisted :
    (r : Runtime) (dir : Str)
    → is_sound r ≡ true
    → hydrate_runtime_config (some (persist_runtime_config r)) (record new { cache_dir = dir })
      ≡ record new {
        cache_dir = dir;
        app_id = r.app_id;
        channel = r.channel;
        release_version = r.release_version;
        platform = r.platform;
        arch = r.arch;
        server_url = r.server_url;
        org_id = r.org_id;
        client_id = r.client_id;
      }
unfolding hydrate_runtime_config hydrated persist_runtime_config new
hydrated-persisted r dir sound =
    let channel = given_kept r.channel (codes "stable") (ground arith) in
    let platform = given_kept r.platform (codes "android") (ground arith) in
    let arch = given_kept r.arch (codes "arm64-v8a") (ground arith) in
    let client = given_kept r.client_id (codes "default") (ground arith) in
    let org = org_kept r.org_id (ground arith) in rw (channel, platform, arch, client, org) refl
