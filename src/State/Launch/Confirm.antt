-- ===== src/State/Launch/Confirm.antt =====
-- crates/fcb_core/src/state.rs: `mark_success` after `launch_patch`.
use fl_codepush_box.Prelude.{
  ℕ, ◌≡◌, refl, ap, subst, ◌∙◌, Bool, true, false, Option, none, some, arith, Str, contains, Result,
  ok, err, ◌⊎◌, inl, inr, ltb, if◌then◌else◌, bytes_eq-eq,
}
use fl_codepush_box.State.{State, InstalledPatch, LastLaunch, pending_success, state_schema_version}
use fl_codepush_box.State.Patches.{find_installed, select_launch_patch_number}
use fl_codepush_box.State.Patches.Choice.{find_installed-none}
use fl_codepush_box.State.Disk.{Disk, stored, save_state, load_state}
use fl_codepush_box.State.Launch.{
  MarkError, bad_patch, unconfirmed, settle, start, launch_patch, confirm, succeeded, mark_success,
}
use fl_codepush_box.State.Launch.Records.{launch_patch-Awaits, load_state-stored}

unconfirmed-some :
    (o : Option LastLaunch) {p : ℕ}
    → unconfirmed o ≡ some p
    → (l : LastLaunch) × (o ≡ some l) × (l.patch_number ≡ p) × (l.status ≡ pending_success)
unconfirmed-some none e = ground arith
unconfirmed-some (some l) e =
    (l, refl, ground arith, bytes_eq-eq l.status pending_success (ground arith))

-- The patch of the number, if there is a number and it is installed.
abbrev looked_up : State → Option ℕ → Option InstalledPatch
looked_up s none = none
looked_up s (some p) = find_installed p s.installed

start_lem :
    (now : Str) (d : Disk) (s : State) (c : Bool) (o : Option ℕ)
    → (start now d s c o).1 ≡ looked_up s o
unfolding start
start_lem now d s c none = refl
start_lem now d s c (some p) = ground arith

-- A launch from a state with nothing to settle returns the patch that it chooses.
launch_patch-chosen :
    (now : Str) (d : Disk) (s : State)
    → load_state now d ≡ (d, s)
    → unconfirmed s.last_launch ≡ none
    → (launch_patch now d).1 ≡ looked_up s (select_launch_patch_number s)
unfolding launch_patch settle
launch_patch-chosen now d s loaded quiet = rw loaded (
    ap
      (λ (o : Option ℕ).
        let st = settle now d s o in (start now st.0 st.1 st.2 (select_launch_patch_number st.1)).1)
      quiet
    ∙ start_lem now d s false (select_launch_patch_number s))

-- The state that `mark_success` saves chooses the patch that it confirms, if that is installed, and
-- none otherwise.
select-succeeded :
    (s : State) (l : LastLaunch)
    → contains s.bad_patches l.patch_number ≡ false
    → looked_up (succeeded s l) (select_launch_patch_number (succeeded s l))
      ≡ find_installed l.patch_number s.installed
unfolding select_launch_patch_number
select-succeeded s l good = ground (arith, find_installed-none l.patch_number s.installed)

-- What `mark_success` does with a launch that awaits its confirmation.
confirm_lem :
    (d : Disk) (s : State) (o : Option LastLaunch) (l : LastLaunch)
    → o ≡ some l
    → l.status ≡ pending_success
    → confirm d s o ≡ (
        if contains s.bad_patches l.patch_number
        then (d, err bad_patch)
        else (save_state d (succeeded s l), ok tt))
unfolding confirm
confirm_lem d s o l e pending = rw (e, confirm) (rw pending refl)

-- What `mark_success` and the launch after it do with a launch of patch `p` in the state `s`: a bad
-- patch is not confirmed; any other is, and is started again if it is still installed.
abbrev pub Confirms : Str → State → ℕ → Disk × Result MarkError (Unit {0}) → Type 0
Confirms now s p (d, r) =
    ((contains s.bad_patches p ≡ true) × (r ≡ err bad_patch))
    ⊎ ((contains s.bad_patches p ≡ false)
        × (r ≡ ok tt)
        × ((launch_patch now d).1 ≡ find_installed p s.installed))

confirmed_launch :
    (now : Str) (d : Disk) (s : State) (l : LastLaunch) (bad : Bool)
    → ltb s.schema_version state_schema_version ≡ false
    → contains s.bad_patches l.patch_number ≡ bad
    → Confirms now s l.patch_number
        (if bad then (d, err bad_patch) else (save_state d (succeeded s l), ok tt))
unfolding save_state
confirmed_launch now d s l true schema e = inl (e, refl)
confirmed_launch now d s l false schema e =
    let s' = succeeded s l in
    let saved = save_state d s' in
    inr (
      e,
      refl,
      launch_patch-chosen now saved s' (load_state-stored now saved s' refl schema) refl
          ∙ select-succeeded s l e,
    )

-- Where state.json holds a state of the current schema whose last launch, of patch `p`, is neither
-- confirmed nor reported as failed, there are two cases. If `p` is bad, `mark_success` fails.
-- Otherwise it succeeds, and the next launch starts what is installed as `p`, whatever patch is
-- pending: that is no patch at all if `p` was removed in the meantime.
pub launch_patch-mark_success :
    (t₁ t₂ : Str) (d : Disk) (s : State) {p : ℕ}
    → d.state_json ≡ some (stored s)
    → ltb s.schema_version state_schema_version ≡ false
    → unconfirmed s.last_launch ≡ some p
    → Confirms t₂ s p (mark_success t₁ d)
unfolding mark_success
launch_patch-mark_success t₁ t₂ d s {p} file schema last =
    let (l, there, number, pending) = unconfirmed-some s.last_launch last in
    rw (load_state-stored t₁ d s file schema) (
      rw (confirm_lem d s s.last_launch l there pending) (
        subst
          (λ q. Confirms t₂ s q (
            if contains s.bad_patches l.patch_number
            then (d, err bad_patch)
            else (save_state d (succeeded s l), ok tt)))
          number (confirmed_launch t₂ d s l (contains s.bad_patches l.patch_number) schema refl)))

-- A launch that is confirmed is repeated by the next launch.
pub launch_patch-mark_success-launch_patch :
    (t₁ t₂ t₃ : Str) (d : Disk) {d₁ : Disk} {i : InstalledPatch}
    → launch_patch t₁ d ≡ (d₁, some i)
    → ((mark_success t₂ d₁).1 ≡ ok tt) × ((launch_patch t₃ (mark_success t₂ d₁).0).1 ≡ some i)
launch_patch-mark_success-launch_patch t₁ t₂ t₃ d {d₁} e =
    let w = launch_patch-Awaits t₁ d e in
    elim (launch_patch-mark_success t₂ t₃ d₁ w.state w.file w.schema w.last) [
      | inl (bad, _) ↦ let good = w.good in cc
      | inr (good, done, again) ↦ (done, again ∙ w.found)
    ]
