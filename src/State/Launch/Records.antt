-- ===== src/State/Launch/Records.antt =====
-- crates/fcb_core/src/state.rs: what `launch_patch` writes when it returns a patch.
use fl_codepush_box.Prelude.{
  ℕ, ◌≡◌, refl, ap, Bool, false, Option, none, some, arith, Str, ltb, contains,
}
use fl_codepush_box.State.{State, InstalledPatch, saturating_add, state_schema_version}
use fl_codepush_box.State.Patches.{
  find_installed, migrate_state, mark_patch_bad, select_launch_patch_number,
}
use fl_codepush_box.State.Patches.Choice.{find_installed-number, select-can_launch}
use fl_codepush_box.State.Disk.{Disk, StateFile, stored, unreadable, save_state, load_state}
use fl_codepush_box.State.Launch.{unconfirmed, settle, start, launched, launch_patch}

-- What state.json holds right after a launch of patch `i`: a state of the current schema whose last
-- launch, of that patch, is unconfirmed after `n` boots, with the patch installed and not bad. A
-- later install may remove the patch.
pub record Awaits (i : InstalledPatch) (n : ℕ) (d : Disk) : Type 0 where
  pub state : State
  pub file : d.state_json ≡ some (stored state)
  pub last : unconfirmed state.last_launch ≡ some i.patch_number
  pub attempts : state.boot_attempts ≡ n
  pub schema : ltb state.schema_version state_schema_version ≡ false
  pub good : contains state.bad_patches i.patch_number ≡ false
  pub found : find_installed i.patch_number state.installed ≡ some i

pub load_state-schema :
    (now : Str) (d : Disk) (f : Option StateFile)
    → d.state_json ≡ f
    → ltb (load_state now d).1.schema_version state_schema_version ≡ false
unfolding load_state migrate_state
load_state-schema now d none e = ground arith
load_state-schema now d (some (stored s)) e = ground arith
load_state-schema now d (some (unreadable b m)) e = ground arith

settle-schema :
    (now : Str) (d : Disk) (s : State) (o : Option ℕ)
    → (settle now d s o).1.schema_version ≡ s.schema_version
unfolding settle mark_patch_bad
settle-schema now d s none = refl
settle-schema now d s (some p) = ground arith

-- A patch is returned exactly as it is recorded: chosen, found among the installed, and saved.
pub start-some :
    (now : Str) (d : Disk) (s : State) (c : Bool) (o : Option ℕ) {d' : Disk} {i : InstalledPatch}
    → start now d s c o ≡ (d', some i)
    → (o ≡ some i.patch_number)
      × (find_installed i.patch_number s.installed ≡ some i)
      × (d' ≡ save_state d (launched now s i.patch_number))
unfolding start
start-some now d s c none e = ground arith
start-some now d s c (some p) {i} e = ground (arith, find_installed-number p s.installed {i = i})

-- The state from which `launch_patch` chooses.
abbrev pub settled : Str → Disk → State
settled now d = let (d₁, s₁) = load_state now d in (settle now d₁ s₁ (unconfirmed s₁.last_launch)).1

pub launch_patch-some :
    (now : Str) (d : Disk) {d' : Disk} {i : InstalledPatch}
    → launch_patch now d ≡ (d', some i)
    → (select_launch_patch_number (settled now d) ≡ some i.patch_number)
      × (find_installed i.patch_number (settled now d).installed ≡ some i)
      × (d'.state_json ≡ some (stored (launched now (settled now d) i.patch_number)))
unfolding launch_patch save_state
launch_patch-some now d e =
    let (d₁, s₁) = load_state now d in
    let st = settle now d₁ s₁ (unconfirmed s₁.last_launch) in
    let (chosen, found, saved) =
      start-some now st.0 st.1 st.2 (select_launch_patch_number st.1) e in
    (chosen, found, ap (λ (x : Disk). x.state_json) saved)

pub launch_patch-Awaits :
    (now : Str) (d : Disk) {d' : Disk} {i : InstalledPatch}
    → launch_patch now d ≡ (d', some i)
    → Awaits i (saturating_add (settled now d).boot_attempts 1) d'
launch_patch-Awaits now d {i} e = record {
  state = launched now (settled now d) i.patch_number;
  file = (launch_patch-some now d e).2;
  last = refl;
  attempts = refl;
  schema =
      rw (settle-schema now _ (load_state now d).1 (unconfirmed (load_state now d).1.last_launch))
        (load_state-schema now d d.state_json refl);
  good = (select-can_launch (settled now d) (launch_patch-some now d e).0).0;
  found = (launch_patch-some now d e).1;
}

-- A file of the current schema is loaded as it is, and nothing else changes.
pub load_state-stored :
    (now : Str) (d : Disk) (s : State)
    → d.state_json ≡ some (stored s)
    → ltb s.schema_version state_schema_version ≡ false
    → load_state now d ≡ (d, s)
unfolding load_state migrate_state
load_state-stored now d s e h = rw (e, load_state) (ground arith)

pub load_state-Awaits :
    (now : Str) (d : Disk) {i : InstalledPatch} {n : ℕ} (w : Awaits i n d)
    → load_state now d ≡ (d, w.state)
load_state-Awaits now d w = load_state-stored now d w.state w.file w.schema
