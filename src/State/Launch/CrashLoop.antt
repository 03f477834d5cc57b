-- ===== src/State/Launch/CrashLoop.antt =====
-- crates/fcb_core/src/state.rs: launches in a row, with no install, confirmation or failure report
-- between them.
use fl_codepush_box.Prelude.{
  ℕ, ◌<◌, ◌≡◌, ◌≢◌, ap, ◌∙◌, sym, subst, false, Option, some, arith, Str, contains,
}
use fl_codepush_box.State.{State, InstalledPatch, saturating_add, max_boot_attempts}
use fl_codepush_box.State.Patches.Bad.{contains-mark_patch_bad}
use fl_codepush_box.State.Patches.Choice.{select-can_launch}
use fl_codepush_box.State.Disk.{Disk}
use fl_codepush_box.State.Launch.{unconfirmed, settle, launch_patch}
use fl_codepush_box.State.Launch.Records.{
  Awaits, settled, launch_patch-some, launch_patch-Awaits, load_state-Awaits,
}

-- An unconfirmed launch leaves the count of boots as it is, unless it was the last allowed one.
settle-attempts :
    (now : Str) (d : Disk) (s : State) (p : ℕ)
    → contains (settle now d s (some p)).1.bad_patches p ≡ false
    → (saturating_add s.boot_attempts 1 < max_boot_attempts)
      × ((settle now d s (some p)).1.boot_attempts ≡ s.boot_attempts)
unfolding settle
settle-attempts now d s p h = ground (arith, contains-mark_patch_bad s p p)

settled-Awaits :
    (now : Str) (d : Disk) {i : InstalledPatch} {n : ℕ} (w : Awaits i n d)
    → settled now d ≡ (settle now d w.state (some i.patch_number)).1
settled-Awaits now d w =
    ap (λ (l : Disk × State). (settle now l.0 l.1 (unconfirmed l.1.last_launch)).1)
      (load_state-Awaits now d w)
    ∙ ap (λ (o : Option ℕ). (settle now d w.state o).1) w.last

attempts_left :
    (now : Str) (d : Disk) {i : InstalledPatch} {n : ℕ}
    → Awaits i n d
    → contains (settled now d).bad_patches i.patch_number ≡ false
    → (saturating_add n 1 < max_boot_attempts) × ((settled now d).boot_attempts ≡ n)
attempts_left now d {i} {n} w =
    rw (settled-Awaits now d w) (rw (← w.attempts) (settle-attempts now d w.state i.patch_number))

-- If an unconfirmed patch is launched again, it had attempts left, and has one less.
relaunch-Awaits :
    (now : Str) (d : Disk) {d' : Disk} {i j : InstalledPatch} {n : ℕ}
    → Awaits i n d
    → launch_patch now d ≡ (d', some j)
    → j.patch_number ≡ i.patch_number
    → (saturating_add n 1 < max_boot_attempts) × Awaits j (saturating_add n 1) d'
relaunch-Awaits now d {d'} {j = j} w e same =
    let chosen = (launch_patch-some now d e).0 in
    let good = (select-can_launch (settled now d) chosen).0 in
    let left =
      attempts_left now d w
        (subst (λ q. contains (settled now d).bad_patches q ≡ false) same good) in
    (left.0, subst (λ k. Awaits j (saturating_add k 1) d') left.1 (launch_patch-Awaits now d e))

-- Three launches in a row, with nothing between them, never start the same patch three times.
pub crash_loop_ends :
    (t₁ t₂ t₃ : Str) (d : Disk) {d₁ d₂ d₃ : Disk} {i₁ i₂ i₃ : InstalledPatch}
    → launch_patch t₁ d ≡ (d₁, some i₁)
    → launch_patch t₂ d₁ ≡ (d₂, some i₂)
    → launch_patch t₃ d₂ ≡ (d₃, some i₃)
    → i₂.patch_number ≡ i₁.patch_number
    → i₃.patch_number ≢ i₁.patch_number
crash_loop_ends t₁ t₂ t₃ d {d₁} {d₂} e₁ e₂ e₃ same₂ same₃ =
    let second = relaunch-Awaits t₂ d₁ (launch_patch-Awaits t₁ d e₁) e₂ same₂ in
    let third = relaunch-Awaits t₃ d₂ second.1 e₃ (same₃ ∙ sym same₂) in
    absurd (omega (arith, second.0, third.0))
