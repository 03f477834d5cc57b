-- ===== src/State/Patches/Choice.antt =====
-- crates/fcb_core/src/state.rs: what `select_launch_patch_number` chooses.
use fl_codepush_box.Prelude.{
  ℕ, ◌≡◌, refl, ◌≢◌, true, false, none, some, List, [], ◌∷◌, arith, contains,
}
use fl_codepush_box.State.{State, InstalledPatch}
use fl_codepush_box.State.Patches.{
  find_installed, is_installed, candidate, current_patch, select_launch_patch_number,
}

pub find_installed-number :
    (p : ℕ) (is : List InstalledPatch) {i : InstalledPatch}
    → find_installed p is ≡ some i
    → i.patch_number ≡ p
find_installed-number p [] e = ground arith
find_installed-number p (j ∷ is) {i} e = ground (arith, find_installed-number p is {i = i})

-- What `any` has seen, `find` finds.
pub find_installed-ne-none :
    (p : ℕ) (is : List InstalledPatch) → is_installed p is ≡ true → find_installed p is ≢ none
find_installed-ne-none p [] e = ground arith
find_installed-ne-none p (j ∷ is) e = ground (arith, find_installed-ne-none p is)

pub find_installed-is_installed :
    (p : ℕ) (is : List InstalledPatch) {i : InstalledPatch}
    → find_installed p is ≡ some i
    → is_installed p is ≡ true
find_installed-is_installed p [] e = ground arith
find_installed-is_installed p (j ∷ is) {i} e =
    ground (arith, find_installed-is_installed p is {i = i})

pub find_installed-none :
    (p : ℕ) (is : List InstalledPatch) → is_installed p is ≡ false → find_installed p is ≡ none
find_installed-none p [] e = refl
find_installed-none p (j ∷ is) e = ground (arith, find_installed-none p is)

-- Only a patch that is installed and not bad is ever chosen.
pub select-can_launch :
    (s : State) {p : ℕ}
    → select_launch_patch_number s ≡ some p
    → (contains s.bad_patches p ≡ false) × (is_installed p s.installed ≡ true)
unfolding select_launch_patch_number
select-can_launch s e = ground arith

-- Nothing is chosen only where none of the three candidates can be launched.
pub select-none :
    (s : State)
    → select_launch_patch_number s ≡ none
    → (candidate s s.pending_patch_number ≡ none)
      × (candidate s (current_patch s) ≡ none)
      × (candidate s s.last_known_good_patch_number ≡ none)
unfolding select_launch_patch_number
select-none s e = ground arith
