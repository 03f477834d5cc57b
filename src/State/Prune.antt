-- ===== src/State/Prune.antt =====
-- crates/fcb_core/src/state.rs, `install_payload_with_baseline`: the list of installed patches, with
-- a patch replaced, sorted, and cut down to the patches that a launch can still choose.
pub mod Count
pub mod Length
use fl_codepush_box.Prelude.{
  ℕ, zero, suc, Bool, true, false, ◌||◌, Option, none, some, List, [], ◌∷◌, if◌then◌else◌, ◌==◌,
  ltb, leb, length,
}
use fl_codepush_box.State.{State, InstalledPatch}
use fl_codepush_box.State.Patches.{option_eq}

-- `installed.retain(|patch| patch.patch_number != p)`
unfoldable pub retain_others : ℕ → List InstalledPatch → List InstalledPatch
retain_others p [] = []
retain_others p (i ∷ is) =
    let rest = retain_others p is in if i.patch_number == p then rest else i ∷ rest

unfoldable pub insert_patch : InstalledPatch → List InstalledPatch → List InstalledPatch
insert_patch i [] = i ∷ []
insert_patch i (j ∷ is) =
    let later = insert_patch i is in
    if leb i.patch_number j.patch_number then i ∷ j ∷ is else j ∷ later

-- `sort_by_key(|patch| patch.patch_number)`, a stable sort.
unfoldable pub sort_patches : List InstalledPatch → List InstalledPatch
sort_patches [] = []
sort_patches (i ∷ is) = insert_patch i (sort_patches is)

abbrev pub is_protected : State → ℕ → Bool
is_protected s p =
    p == s.current_patch_number
    || (option_eq s.pending_patch_number p || option_eq s.last_known_good_patch_number p)

-- `position` of the first patch that is not protected, and `remove` of it.
unfoldable pub remove_unprotected :
    State → List InstalledPatch → Option (InstalledPatch × List InstalledPatch)
remove_unprotected s [] = none
remove_unprotected s (i ∷ is) =
    let later = remove_unprotected s is in
    if is_protected s i.patch_number
    then (elim later [ none ↦ none | some r ↦ some (r.0, i ∷ r.1) ])
    else some (i, is)

-- One round, and the rounds after it: the patches kept, and those removed, in that order.
unfoldable pub after :
    (List InstalledPatch → List InstalledPatch × List InstalledPatch)
    → List InstalledPatch
    → Option (InstalledPatch × List InstalledPatch)
    → List InstalledPatch × List InstalledPatch
after again is none = (is, [])
after again is (some (i, others)) = let rest = again others in (rest.0, i ∷ rest.1)

-- The loop of the pruning.
unfoldable pub prune : ℕ → State → List InstalledPatch → List InstalledPatch × List InstalledPatch
prune zero s is = (is, [])
prune (suc fuel) s is =
    if ltb 2 (length is) then after (prune fuel s) is (remove_unprotected s is) else (is, [])
