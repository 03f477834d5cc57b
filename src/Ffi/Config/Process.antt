-- ===== src/Ffi/Config/Process.antt =====
-- updater/src/lib.rs: a process that calls `fcb_init` and the setters, with the runtime_config.json
-- of each `cache_dir`, and the runtime of the process after it.
use fl_codepush_box.Prelude.{
  ℤ, pos, ◌≡◌, refl, inl, inr, Bool, true, ◌&&◌, Option, none, some, List, [], ◌∷◌, if◌then◌else◌,
  Str, bytes_eq, bytes_eq_refl, arith,
}
use fl_codepush_box.Host.{Host}
use fl_codepush_box.Ffi.{Runtime, new}
use fl_codepush_box.Ffi.Config.{ConfigFile, persist_runtime_config, hydrate_runtime_config}
use fl_codepush_box.Ffi.Config.Sound.{is_sound, Setting, run, run-is_sound, hydrated-persisted}
use fl_codepush_box.Ffi.Config.Saved.{
  is_saving, is_setter, Saved, run-SavedOrFailed, run-SavedOrSame,
}

-- The runtime, and the runtime_config.json of each `cache_dir` that has one.
pub record Process : Type 0 where
  pub runtime : Runtime
  pub files : Str → Option ConfigFile

abbrev write : Option ConfigFile → Str → (Str → Option ConfigFile) → Str → Option ConfigFile
write none dir files = files
write (some file) dir files = λ d. if bytes_eq dir d then some file else files d

-- A call, which writes the file in the `cache_dir` of the runtime that it leaves, and its code.
unfoldable pub call : Host → Setting → Process → Process × ℤ
call h c p =
    let (r, file, code) = run h c p.runtime in
    (record { runtime = r; files = write file r.cache_dir p.files }, code)

-- The calls, from the first on.
unfoldable pub calls : Host → List Setting → Process → Process
calls h [] p = p
calls h (c ∷ cs) p = calls h cs (call h c p).0

-- A new process with the `cache_dir` of this one, once it has hydrated its runtime.
unfoldable pub restarted : Process → Runtime
restarted p =
    let dir = p.runtime.cache_dir in
    hydrate_runtime_config (p.files dir) (record new { cache_dir = dir })

abbrev pub are_setters : List Setting → Bool
are_setters [] = true
are_setters (c ∷ cs) = is_setter c && are_setters cs

calls-is_sound :
    (h : Host) (cs : List Setting) (p : Process)
    → is_sound p.runtime ≡ true
    → is_sound (calls h cs p).runtime ≡ true
unfolding calls call
calls-is_sound h [] p sound = sound
calls-is_sound h (c ∷ cs) p sound =
    calls-is_sound h cs (call h c p).0 (run-is_sound h c p.runtime sound)

-- The file of the runtime's `cache_dir` is the one that belongs to the runtime.
abbrev IsCurrent : Process → Type 0
IsCurrent p = p.files p.runtime.cache_dir ≡ some (persist_runtime_config p.runtime)

call-Saved :
    (h : Host) (c : Setting) (p : Process) → Saved (run h c p.runtime) → IsCurrent (call h c p).0
unfolding call
call-Saved h c p e = rw (e, bytes_eq_refl (run h c p.runtime).0.cache_dir) refl

call-IsCurrent :
    (h : Host) (c : Setting) (p : Process)
    → is_setter c ≡ true
    → IsCurrent p
    → IsCurrent (call h c p).0
unfolding call
call-IsCurrent h c p e current = elim (run-SavedOrSame h c p.runtime e) [
  | inl saved ↦ call-Saved h c p saved
  | inr (nothing, same, dir) ↦ rw (nothing, same, dir) current
]

calls-IsCurrent :
    (h : Host) (cs : List Setting) (p : Process)
    → are_setters cs ≡ true
    → IsCurrent p
    → IsCurrent (calls h cs p)
unfolding calls
calls-IsCurrent h [] p e current = current
calls-IsCurrent h (c ∷ cs) p e current =
    calls-IsCurrent h cs (call h c p).0 (ground arith) (call-IsCurrent h c p (ground arith) current)

new-is_sound : is_sound new ≡ true
unfolding new
new-is_sound = refl

-- In a process that begins with any files, let any calls of `fcb_init` and the setters be followed
-- by a call that succeeds, other than that for the baseline, and by any calls of setters, which may
-- fail. Then a new process with the same `cache_dir` reads the same application, channel, release,
-- platform, architecture, server, organisation and client from the file that the calls wrote there.
pub persist-hydrate :
    (h : Host) (files : Str → Option ConfigFile) (cs ds : List Setting) (c : Setting)
    → is_saving c ≡ true
    → (call h c (calls h cs (record { runtime = new; files = files }))).1 ≡ pos 0
    → are_setters ds ≡ true
    → let p = calls h ds (call h c (calls h cs (record { runtime = new; files = files }))).0 in
      restarted p ≡ record new {
        cache_dir = p.runtime.cache_dir;
        app_id = p.runtime.app_id;
        channel = p.runtime.channel;
        release_version = p.runtime.release_version;
        platform = p.runtime.platform;
        arch = p.runtime.arch;
        server_url = p.runtime.server_url;
        org_id = p.runtime.org_id;
        client_id = p.runtime.client_id;
      }
unfolding call restarted
persist-hydrate h files cs ds c saving done setters =
    let p = calls h cs (record { runtime = new; files = files }) in
    let sound = calls-is_sound h cs (record { runtime = new; files = files }) new-is_sound in
    let q = calls h ds (call h c p).0 in
    let current : IsCurrent (call h c p).0 = elim (run-SavedOrFailed h c p.runtime saving) [
      | inl failed ↦ cc (failed, done)
      | inr saved ↦ call-Saved h c p saved
    ] in
    rw (calls-IsCurrent h ds (call h c p).0 setters current) (
      hydrated-persisted q.runtime q.runtime.cache_dir
        (calls-is_sound h ds (call h c p).0 (run-is_sound h c p.runtime sound)))
