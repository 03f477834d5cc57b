-- ===== src/Ffi/Config/Saved.antt =====
-- updater/src/lib.rs: which calls of `fcb_init` and the setters write runtime_config.json.
use fl_codepush_box.Prelude.{
  negsuc, ◌≡◌, refl, ◌⊎◌, inl, inr, Bool, true, false, Option, none, some, if◌then◌else◌, Str,
  Result, ok, err,
}
use fl_codepush_box.Host.{Host}
use fl_codepush_box.Ffi.{Runtime, not_utf8, CStr, read_cstr, set_error}
use fl_codepush_box.Ffi.Keys.{KeyError, normalize_public_key_b64}
use fl_codepush_box.Ffi.Config.{
  persist_runtime_config, is_empty, is_blank, InitParams, Configured, with_cache_dir, with_app_id,
  with_channel, with_release_version, with_platform, with_arch, refused, persisted, set_field,
  set_public_key, with_text, set_key, fcb_init, fcb_set_server_url, fcb_set_org_id,
  fcb_set_client_id, fcb_set_baseline_artifact_path,
}
use fl_codepush_box.Ffi.Config.Sound.{
  Setting, init, set_server_url, set_org_id, set_client_id, set_baseline, run,
}

-- The call wrote what belongs to the runtime that it leaves.
abbrev pub Saved : Configured → Type 0
Saved x = x.1 ≡ some (persist_runtime_config x.0)

-- The call returned -1, or it wrote the file.
abbrev pub SavedOrFailed : Configured → Type 0
SavedOrFailed x = (x.2 ≡ negsuc 0) ⊎ Saved x

-- The call wrote the file, or there was nothing to write.
abbrev pub SavedOrSame : Runtime → Configured → Type 0
SavedOrSame r x =
    Saved x
    ⊎ ((x.1 ≡ none)
        × (persist_runtime_config x.0 ≡ persist_runtime_config r)
        × (x.0.cache_dir ≡ r.cache_dir))

with_text-elim :
    (P : Configured → Type 0) (r : Runtime) (value : CStr) (next : Str → Configured)
    → P (refused r not_utf8)
    → ((s : Str) → P (next s))
    → P (with_text r value next)
unfolding with_text
with_text-elim P r value next bad good =
    elim (read_cstr value)
      as (λ o. P (elim o as (λ _. Configured) [ none ↦ refused r not_utf8 | some s ↦ next s ])) [
        | none ↦ bad
        | some s ↦ good s
      ]

either-elim :
    (P : Configured → Type 0) (b : Bool) (x y : Configured) → P x → P y → P (if b then x else y)
either-elim P true x y p q = p
either-elim P false x y p q = q

set_field-SavedOrFailed :
    (r : Runtime) (value : CStr) (change : Runtime → Str → Runtime) (next : Runtime → Configured)
    → ((t : Runtime) → SavedOrFailed (next t))
    → SavedOrFailed (set_field r value change next)
unfolding set_field set_error
set_field-SavedOrFailed r value change next saved =
    with_text-elim SavedOrFailed r value _ (inl refl) λ s.
      either-elim SavedOrFailed (is_empty s) (next r) (next (change r s)) (saved r)
        (saved (change r s))

set_key-SavedOrFailed :
    (h : Host) (r : Runtime) (k : Result KeyError Str) → SavedOrFailed (set_key h r persisted k)
unfolding set_error
set_key-SavedOrFailed h r (err x) = inl refl
set_key-SavedOrFailed h r (ok k) = inr refl

set_public_key-SavedOrFailed :
    (h : Host) (r : Runtime) (value : CStr) → SavedOrFailed (set_public_key h r value persisted)
unfolding set_public_key set_error
set_public_key-SavedOrFailed h r value = with_text-elim SavedOrFailed r value _ (inl refl) λ s.
    either-elim SavedOrFailed (is_empty s) (persisted r)
      (set_key h r persisted (normalize_public_key_b64 h s)) (inr refl)
      (set_key-SavedOrFailed h r (normalize_public_key_b64 h s))

fcb_init-SavedOrFailed :
    (h : Host) (p : Option InitParams) (r : Runtime) → SavedOrFailed (fcb_init h p r)
unfolding fcb_init set_error
fcb_init-SavedOrFailed h none r = inl refl
fcb_init-SavedOrFailed h (some p) r =
    set_field-SavedOrFailed (record r { last_check = none }) p.cache_dir with_cache_dir _
      λ r₁. set_field-SavedOrFailed r₁ p.app_id with_app_id _ λ r₂.
        set_field-SavedOrFailed r₂ p.channel with_channel _ λ r₃.
          set_field-SavedOrFailed r₃ p.release_version with_release_version _ λ r₄.
            set_field-SavedOrFailed r₄ p.platform with_platform _ λ r₅.
              set_field-SavedOrFailed r₅ p.arch with_arch _
                λ r₆. set_public_key-SavedOrFailed h r₆ p.public_key_pem

-- The calls that write the file where they succeed.
abbrev pub is_saving : Setting → Bool
is_saving (set_baseline s) = false
is_saving _ = true

-- All calls but those of `fcb_init`.
abbrev pub is_setter : Setting → Bool
is_setter (init p) = false
is_setter _ = true

pub run-SavedOrFailed :
    (h : Host) (c : Setting) (r : Runtime) → is_saving c ≡ true → SavedOrFailed (run h c r)
unfolding run fcb_set_server_url fcb_set_org_id fcb_set_client_id set_error
run-SavedOrFailed h (init p) r e = fcb_init-SavedOrFailed h p r
run-SavedOrFailed h (set_server_url v) r e =
    with_text-elim SavedOrFailed r v _ (inl refl)
      λ s. either-elim SavedOrFailed (is_empty s) _ _ (inl refl) (inr refl)
run-SavedOrFailed h (set_org_id v) r e =
    with_text-elim SavedOrFailed r v _ (inl refl)
      λ s. either-elim SavedOrFailed (is_blank s) _ _ (inr refl) (inr refl)
run-SavedOrFailed h (set_client_id v) r e =
    with_text-elim SavedOrFailed r v _ (inl refl)
      λ s. either-elim SavedOrFailed (is_empty s) _ _ (inl refl) (inr refl)
run-SavedOrFailed h (set_baseline v) r e = cc e

pub run-SavedOrSame :
    (h : Host) (c : Setting) (r : Runtime) → is_setter c ≡ true → SavedOrSame r (run h c r)
unfolding run fcb_set_server_url fcb_set_org_id fcb_set_client_id fcb_set_baseline_artifact_path
    set_error persist_runtime_config
run-SavedOrSame h (init p) r e = cc e
run-SavedOrSame h (set_server_url v) r e =
    with_text-elim (SavedOrSame r) r v _ (inr (refl, refl, refl))
      λ s. either-elim (SavedOrSame r) (is_empty s) _ _ (inr (refl, refl, refl)) (inl refl)
run-SavedOrSame h (set_org_id v) r e =
    with_text-elim (SavedOrSame r) r v _ (inr (refl, refl, refl))
      λ s. either-elim (SavedOrSame r) (is_blank s) _ _ (inl refl) (inl refl)
run-SavedOrSame h (set_client_id v) r e =
    with_text-elim (SavedOrSame r) r v _ (inr (refl, refl, refl))
      λ s. either-elim (SavedOrSame r) (is_empty s) _ _ (inr (refl, refl, refl)) (inl refl)
run-SavedOrSame h (set_baseline v) r e =
    with_text-elim (SavedOrSame r) r v _ (inr (refl, refl, refl)) λ s. inr (refl, refl, refl)
