-- ===== src/State/Launch/Quarantine.antt =====
-- crates/fcb_core/src/state.rs: a patch that was marked bad stays bad, and is not launched.
use fl_codepush_box.Prelude.{
  ℕ, ◌≡◌, ◌≢◌, refl, Bool, true, false, Option, none, some, arith, Str, contains, subst, sym,
}
use fl_codepush_box.State.{State, InstalledPatch, LastLaunch}
use fl_codepush_box.State.Patches.{select_launch_patch_number}
use fl_codepush_box.State.Patches.Bad.{contains-mark_patch_bad, bad_patches-migrate_state}
use fl_codepush_box.State.Patches.Choice.{select-can_launch}
use fl_codepush_box.State.Disk.{
  Disk, StateFile, stored, unreadable, append_rollback_event, save_state, load_state,
}
use fl_codepush_box.State.Launch.{
  unconfirmed, settle, start, confirm, launch_patch, ready_patch, mark_success, mark_failure,
}
use fl_codepush_box.State.Launch.Records.{settled, launch_patch-some}

abbrev pub quarantines : Option StateFile → ℕ → Bool
quarantines none p = false
quarantines (some (stored s)) p = contains s.bad_patches p
quarantines (some (unreadable _ _)) p = false

-- state.json lists the patch as bad.
abbrev pub IsQuarantined : ℕ → Disk → Type 0
IsQuarantined p d = quarantines d.state_json p ≡ true

pub load-IsQuarantined :
    (now : Str) (d : Disk) (p : ℕ) (f : Option StateFile)
    → d.state_json ≡ f
    → IsQuarantined p d
    → (contains (load_state now d).1.bad_patches p ≡ true) × IsQuarantined p (load_state now d).0
unfolding load_state
load-IsQuarantined now d p none e h = ground arith
load-IsQuarantined now d p (some (stored s)) e h = ground (arith, bad_patches-migrate_state s)
load-IsQuarantined now d p (some (unreadable b m)) e h = ground arith

settle-bad :
    (now : Str) (d : Disk) (s : State) (o : Option ℕ) (p : ℕ)
    → contains s.bad_patches p ≡ true
    → (contains (settle now d s o).1.bad_patches p ≡ true)
      × ((settle now d s o).0.state_json ≡ d.state_json)
unfolding settle append_rollback_event
settle-bad now d s none p h = (h, refl)
settle-bad now d s (some q) p h = ground (arith, contains-mark_patch_bad s q p)

start-IsQuarantined :
    (now : Str) (d : Disk) (s : State) (c : Bool) (o : Option ℕ) (p : ℕ)
    → contains s.bad_patches p ≡ true
    → IsQuarantined p d
    → IsQuarantined p (start now d s c o).0
unfolding start save_state
start-IsQuarantined now d s c none p h k = ground arith
start-IsQuarantined now d s c (some q) p h k = ground arith

-- Whatever `launch_patch` does, a quarantined patch stays quarantined.
pub launch_patch-IsQuarantined :
    (now : Str) (d : Disk) (p : ℕ) → IsQuarantined p d → IsQuarantined p (launch_patch now d).0
unfolding launch_patch
launch_patch-IsQuarantined now d p h =
    let (d₁, s₁) = load_state now d in
    let st = settle now d₁ s₁ (unconfirmed s₁.last_launch) in
    let loaded = load-IsQuarantined now d p d.state_json refl h in
    let kept = settle-bad now d₁ s₁ (unconfirmed s₁.last_launch) p loaded.0 in
    start-IsQuarantined now st.0 st.1 st.2 (select_launch_patch_number st.1) p kept.0
      (subst (λ f. quarantines f p ≡ true) (sym kept.1) loaded.1)

-- A quarantined patch is not the one that is launched.
pub launch_patch-ne_quarantined :
    (now : Str) (d : Disk) (p : ℕ) {d' : Disk} {i : InstalledPatch}
    → IsQuarantined p d
    → launch_patch now d ≡ (d', some i)
    → i.patch_number ≢ p
launch_patch-ne_quarantined now d p {i = i} h e same =
    let s₁ = (load_state now d).1 in
    let loaded = load-IsQuarantined now d p d.state_json refl h in
    let kept = settle-bad now (load_state now d).0 s₁ (unconfirmed s₁.last_launch) p loaded.0 in
    let good = (select-can_launch (settled now d) (launch_patch-some now d e).0).0 in
    cc (kept.0, good, same)

pub ready_patch-IsQuarantined :
    (now : Str) (d : Disk) (p : ℕ) → IsQuarantined p d → IsQuarantined p (ready_patch now d).0
unfolding ready_patch
ready_patch-IsQuarantined now d p h = (load-IsQuarantined now d p d.state_json refl h).1

confirm-IsQuarantined :
    (d : Disk) (s : State) (l : Option LastLaunch) (p : ℕ)
    → contains s.bad_patches p ≡ true
    → IsQuarantined p d
    → IsQuarantined p (confirm d s l).0
unfolding confirm save_state
confirm-IsQuarantined d s none p h k = k
confirm-IsQuarantined d s (some l) p h k = ground arith

pub mark_success-IsQuarantined :
    (now : Str) (d : Disk) (p : ℕ) → IsQuarantined p d → IsQuarantined p (mark_success now d).0
unfolding mark_success
mark_success-IsQuarantined now d p h =
    let loaded = load-IsQuarantined now d p d.state_json refl h in
    let (d₁, s) = load_state now d in confirm-IsQuarantined d₁ s s.last_launch p loaded.0 loaded.1

pub mark_failure-IsQuarantined :
    (now : Str) (d : Disk) (q : ℕ) (reason : Str) (p : ℕ)
    → IsQuarantined p d
    → IsQuarantined p (mark_failure now d q reason)
unfolding mark_failure save_state
mark_failure-IsQuarantined now d q reason p h =
    rw (contains-mark_patch_bad (load_state now d).1 q p)
      (ground (arith, (load-IsQuarantined now d p d.state_json refl h).0))

-- A reported failure quarantines its patch, from any disk.
pub mark_failure-quarantines :
    (now : Str) (d : Disk) (p : ℕ) (reason : Str) → IsQuarantined p (mark_failure now d p reason)
unfolding mark_failure save_state
mark_failure-quarantines now d p reason =
    rw (contains-mark_patch_bad (load_state now d).1 p p) (ground arith)
