-- ===== src/State/Launch/Keeps.antt =====
-- crates/fcb_core/src/state.rs: an invariant of the state, kept by the operations on launches.
use fl_codepush_box.Prelude.{
  ℕ, ◌≡◌, refl, Bool, true, false, Option, none, some, Str, contains, leb, if◌then◌else◌,
  starts_with, Result, ok, err,
}
use fl_codepush_box.State.{
  State, LastLaunch, InstalledPatch, max_boot_attempts, saturating_add, failure_prefix,
}
use fl_codepush_box.State.Patches.{mark_patch_bad, find_installed, select_launch_patch_number}
use fl_codepush_box.State.Disk.{
  Disk, StateFile, stored, unreadable, append_rollback_event, save_state, load_state,
}
use fl_codepush_box.State.Launch.{
  unconfirmed, crash_event, save_if, launched, MarkError, bad_patch, failed_launch, settle, start,
  confirm, succeeded, launch_patch, ready_patch, mark_success, mark_failure,
}

-- The state that state.json holds, if it holds one, has the property.
abbrev pub Holds : (State → Type 0) → Option StateFile → Type 0
Holds P none = Unit
Holds P (some (stored s)) = P s
Holds P (some (unreadable _ _)) = Unit

-- A property that loading, marking a patch bad, recording a launch and confirming it keep.
pub record IsInvariant (P : State → Type 0) : Type 0 where
  pub load :
      (now : Str) (d : Disk)
      → Holds P d.state_json
      → P (load_state now d).1 × Holds P (load_state now d).0.state_json
  pub bad : (s : State) (p : ℕ) → P s → P (mark_patch_bad s p)
  pub recorded :
      (s : State) (n : ℕ) (l : Option LastLaunch)
      → P s
      → P (record s { boot_attempts = n; last_launch = l })
  pub confirmed :
      (s : State) (l : LastLaunch)
      → contains s.bad_patches l.patch_number ≡ false
      → P s
      → P (succeeded s l)

module _ (P : State → Type 0) (inv : IsInvariant P) where
  settle-keeps :
      (now : Str) (d : Disk) (s : State) (o : Option ℕ)
      → P s
      → Holds P d.state_json
      → P (settle now d s o).1 × Holds P (settle now d s o).0.state_json
  unfolding settle append_rollback_event
  settle-keeps now d s none h k = (h, k)
  settle-keeps now d s (some p) h k =
      elim (leb max_boot_attempts (saturating_add s.boot_attempts 1))
        as (λ b.
          let r : Disk × State × Bool =
            if b
            then (
              append_rollback_event d (crash_event now p s),
              record (mark_patch_bad s p) { last_launch = none },
              true,
            )
            else (d, record s { last_launch = none }, true) in
          P r.1 × Holds P r.0.state_json) [
            | true ↦ (inv.recorded (mark_patch_bad s p) _ none (inv.bad s p h), k)
            | false ↦ (inv.recorded s _ none h, k)
          ]

  save_if-keeps :
      (c : Bool) (d : Disk) (s : State)
      → P s
      → Holds P d.state_json
      → Holds P (save_if c d s).state_json
  unfolding save_state
  save_if-keeps true d s h k = h
  save_if-keeps false d s h k = k

  start-keeps :
      (now : Str) (d : Disk) (s : State) (c : Bool) (o : Option ℕ)
      → P s
      → Holds P d.state_json
      → Holds P (start now d s c o).0.state_json
  unfolding start save_state
  start-keeps now d s c none h k = save_if-keeps c d s h k
  start-keeps now d s c (some p) h k =
      elim (find_installed p s.installed)
        as (λ f.
          let r : Disk × Option InstalledPatch = elim f [
            | none ↦ (save_if c d s, none)
            | some i ↦ (save_state d (launched now s p), some i)
          ] in
          Holds P r.0.state_json) [ none ↦ save_if-keeps c d s h k | some i ↦ inv.recorded s _ _ h ]

  confirm-keeps :
      (d : Disk) (s : State) (o : Option LastLaunch)
      → P s
      → Holds P d.state_json
      → Holds P (confirm d s o).0.state_json
  unfolding confirm save_state
  confirm-keeps d s none h k = k
  confirm-keeps d s (some l) h k =
      let Saved : Disk × Result MarkError (Unit {0}) → Type 0 = λ r. Holds P r.0.state_json in
      elim (contains s.bad_patches l.patch_number)
          as (λ b.
            contains s.bad_patches l.patch_number ≡ b
            → Saved (
                if b
                then (d, err bad_patch)
                else if starts_with failure_prefix l.status
                then (d, err failed_launch)
                else (save_state d (succeeded s l), ok tt))) [
                  | true ↦ λ e. k
                  | false ↦ λ good.
                      elim (starts_with failure_prefix l.status)
                        as (λ f. Saved (
                          if f
                          then (d, err failed_launch)
                          else (save_state d (succeeded s l), ok tt))) [
                            | true ↦ k
                            | false ↦ inv.confirmed s l good h
                          ]
                ]
        refl

  pub launch_patch-keeps :
      (now : Str) (d : Disk) → Holds P d.state_json → Holds P (launch_patch now d).0.state_json
  unfolding launch_patch
  launch_patch-keeps now d k =
      let (d₁, s₁) = load_state now d in
      let st = settle now d₁ s₁ (unconfirmed s₁.last_launch) in
      let loaded = inv.load now d k in
      let settled = settle-keeps now d₁ s₁ (unconfirmed s₁.last_launch) loaded.0 loaded.1 in
      start-keeps now st.0 st.1 st.2 (select_launch_patch_number st.1) settled.0 settled.1

  pub ready_patch-keeps :
      (now : Str) (d : Disk) → Holds P d.state_json → Holds P (ready_patch now d).0.state_json
  unfolding ready_patch
  ready_patch-keeps now d k = (inv.load now d k).1

  pub mark_success-keeps :
      (now : Str) (d : Disk) → Holds P d.state_json → Holds P (mark_success now d).0.state_json
  unfolding mark_success
  mark_success-keeps now d k =
      let loaded = inv.load now d k in
      let (d₁, s) = load_state now d in confirm-keeps d₁ s s.last_launch loaded.0 loaded.1

  pub mark_failure-keeps :
      (now : Str) (d : Disk) (p : ℕ) (reason : Str)
      → Holds P d.state_json
      → Holds P (mark_failure now d p reason).state_json
  unfolding mark_failure save_state
  mark_failure-keeps now d p reason k =
      let s = (load_state now d).1 in
      inv.recorded (mark_patch_bad s p) _ _ (inv.bad s p (inv.load now d k).0)
