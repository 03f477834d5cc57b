-- ===== src/State/Launch/Pending.antt =====
-- crates/fcb_core/src/state.rs: `launch_patch` where a patch is pending.
use fl_codepush_box.Prelude.{
  ℕ, ◌≡◌, refl, ap, Bool, true, false, Option, none, some, List, arith, Str, contains,
}
use fl_codepush_box.State.{State, InstalledPatch}
use fl_codepush_box.State.Disk.{Disk, load_state}
use fl_codepush_box.State.Patches.{is_installed, find_installed, select_launch_patch_number}
use fl_codepush_box.State.Patches.Choice.{find_installed-ne-none, find_installed-number}
use fl_codepush_box.State.Launch.{unconfirmed, settle, start, launch_patch}

start-chosen :
    (now : Str) (d : Disk) (s : State) (c : Bool) (o : Option ℕ) {p : ℕ} {i : InstalledPatch}
    → o ≡ some p
    → find_installed p s.installed ≡ some i
    → (start now d s c o).1 ≡ some i
unfolding start
start-chosen now d s c none e found = ground arith
start-chosen now d s c (some q) {p} e found =
    let e' : p ≡ q = ground arith in ground (arith, ap (λ r. find_installed r s.installed) e')

-- A pending patch that has no boot attempts, is installed and is not bad is chosen, whether or not
-- an earlier launch is still unconfirmed.
settle-chooses :
    (now : Str) (d : Disk) (s : State) (o : Option ℕ) {p : ℕ}
    → s.pending_patch_number ≡ some p
    → s.boot_attempts ≡ 0
    → contains s.bad_patches p ≡ false
    → is_installed p s.installed ≡ true
    → (select_launch_patch_number (settle now d s o).1 ≡ some p)
      × ((settle now d s o).1.installed ≡ s.installed)
unfolding settle select_launch_patch_number
settle-chooses now d s none e z g i = rw (e, g, i) (refl, refl)
settle-chooses now d s (some q) e z g i = rw z (rw (e, g, i) (refl, refl))

found_installed :
    (p : ℕ) (is : List InstalledPatch)
    → is_installed p is ≡ true
    → (i : InstalledPatch) × (find_installed p is ≡ some i) × (i.patch_number ≡ p)
found_installed p is h =
    elim (find_installed p is)
        as (λ o.
          find_installed p is ≡ o
          → (i : InstalledPatch) × (find_installed p is ≡ some i) × (i.patch_number ≡ p)) [
            | none ↦ λ e. absurd (find_installed-ne-none p is h e)
            | some i ↦ λ e. (i, e, find_installed-number p is e)
          ]
      refl

-- Such a patch is the one that is launched.
pub launch_patch-pending :
    (now : Str) (d : Disk) (s : State) {p : ℕ}
    → load_state now d ≡ (d, s)
    → s.pending_patch_number ≡ some p
    → s.boot_attempts ≡ 0
    → contains s.bad_patches p ≡ false
    → is_installed p s.installed ≡ true
    → (i : InstalledPatch) × ((launch_patch now d).1 ≡ some i) × (i.patch_number ≡ p)
unfolding launch_patch
launch_patch-pending now d s {p} loaded e z g h =
    let st = settle now d s (unconfirmed s.last_launch) in
    let (chosen, same) = settle-chooses now d s (unconfirmed s.last_launch) e z g h in
    let (i, found, number) = found_installed p st.1.installed (rw same h) in
    (
      i,
      rw loaded (start-chosen now st.0 st.1 st.2 (select_launch_patch_number st.1) chosen found),
      number,
    )
