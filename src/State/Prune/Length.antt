-- ===== src/State/Prune/Length.antt =====
-- crates/fcb_core/src/state.rs: how many patches are installed, before and after the pruning.
use fl_codepush_box.Prelude.{
  ℕ, zero, suc, ◌+◌, ◌≤◌, ◌≡◌, refl, true, false, ◌||◌, Option, none, some, List, [], ◌∷◌, arith,
  ◌==◌, ltb, if◌then◌else◌, length, ◌⊎◌, inl, inr, All,
}
use fl_codepush_box.State.{State, InstalledPatch}
use fl_codepush_box.State.Patches.{option_eq}
use fl_codepush_box.State.Prune.Count.{count, Removed, remove_unprotected_lem, Pruner}
use fl_codepush_box.State.Prune.{
  retain_others, insert_patch, sort_patches, is_protected, remove_unprotected, after, prune,
}

-- The loop has ended: at most two patches are left, or all of them are protected.
abbrev pub Ended : State → List InstalledPatch → Type 0
Ended s is = (length is ≤ 2) ⊎ All (λ (i : InstalledPatch). is_protected s i.patch_number ≡ true) is

after-Ended :
    (s : State) (fuel : ℕ) (again : Pruner) (is : List InstalledPatch)
    (o : Option (InstalledPatch × List InstalledPatch))
    → Removed s is o
    → length is ≤ suc fuel
    → ((js : List InstalledPatch) → length js ≤ fuel → Ended s (again js).0)
    → Ended s (after again is o).0
unfolding after
after-Ended s fuel again is none h b ih = inr h
after-Ended s fuel again is (some (i, js)) (c, u, l) b ih = ih js (omega arith)

pub prune-Ended :
    (fuel : ℕ) (s : State) (is : List InstalledPatch)
    → length is ≤ fuel
    → Ended s (prune fuel s is).0
unfolding prune
prune-Ended zero s is b = inl (omega arith)
prune-Ended (suc fuel) s is b =
    elim (ltb 2 (length is))
        as (λ t.
          ltb 2 (length is) ≡ t
          → Ended s (if t then after (prune fuel s) is (remove_unprotected s is) else (is, [])).0) [
            | true ↦ λ e.
                after-Ended s fuel (prune fuel s) is (remove_unprotected s is)
                  (remove_unprotected_lem s is) b (λ js. prune-Ended fuel s js)
            | false ↦ λ e. inl (ground arith)
          ]
      refl

pub length-retain_others :
    (p : ℕ) (is : List InstalledPatch) → length (retain_others p is) + count p is ≡ length is
unfolding retain_others
length-retain_others p [] = refl
length-retain_others p (i ∷ is) = ground (arith, length-retain_others p is)

length-insert_patch :
    (i : InstalledPatch) (is : List InstalledPatch) → length (insert_patch i is) ≡ suc (length is)
unfolding insert_patch
length-insert_patch i [] = refl
length-insert_patch i (j ∷ is) = ground (arith, length-insert_patch i is)

pub length-sort_patches : (is : List InstalledPatch) → length (sort_patches is) ≡ length is
unfolding sort_patches
length-sort_patches [] = refl
length-sort_patches (i ∷ is) =
    omega (arith, length-insert_patch i (sort_patches is), length-sort_patches is)

length-after :
    (s : State) (again : Pruner) (is : List InstalledPatch)
    (o : Option (InstalledPatch × List InstalledPatch))
    → Removed s is o
    → 3 ≤ length is
    → ((js : List InstalledPatch) → 2 ≤ length js → 2 ≤ length (again js).0)
    → 2 ≤ length (after again is o).0
unfolding after
length-after s again is none h b ih = omega arith
length-after s again is (some (i, js)) (c, u, l) b ih = ih js (omega arith)

-- The loop does not go below two patches.
length-prune_two :
    (fuel : ℕ) (s : State) (is : List InstalledPatch)
    → 2 ≤ length is
    → 2 ≤ length (prune fuel s is).0
unfolding prune
length-prune_two zero s is b = b
length-prune_two (suc fuel) s is b =
    elim (ltb 2 (length is))
        as (λ t.
          ltb 2 (length is) ≡ t
          → 2
            ≤ length
                (if t then after (prune fuel s) is (remove_unprotected s is) else (is, [])).0) [
                  | true ↦ λ e.
                      length-after s (prune fuel s) is (remove_unprotected s is)
                        (remove_unprotected_lem s is) (ground arith)
                        (λ js. length-prune_two fuel s js)
                  | false ↦ λ e. b
                ]
      refl

length-prune_few :
    (fuel : ℕ) (s : State) (is : List InstalledPatch)
    → length is ≤ 1
    → length (prune fuel s is).0 ≡ length is
unfolding prune
length-prune_few zero s is b = refl
length-prune_few (suc fuel) s is b = ground arith

-- A patch is only removed from a list of more than two.
pub length-prune :
    (fuel : ℕ) (s : State) (is : List InstalledPatch)
    → (length is ≤ length (prune fuel s is).0) ⊎ (2 ≤ length (prune fuel s is).0)
length-prune fuel s is =
    elim (ltb 1 (length is))
        as (λ t.
          ltb 1 (length is) ≡ t
          → (length is ≤ length (prune fuel s is).0) ⊎ (2 ≤ length (prune fuel s is).0)) [
            | true ↦ λ e. inr (length-prune_two fuel s is (ground arith))
            | false ↦ λ e. inl (omega (arith, length-prune_few fuel s is (ground arith)))
          ]
      refl

abbrev pub count_option : Option ℕ → List InstalledPatch → ℕ
count_option none is = 0
count_option (some q) is = count q is

-- A list of protected patches is no longer than the protected patches occur in it.
pub protected-length :
    (s : State) (is : List InstalledPatch)
    → All (λ (i : InstalledPatch). is_protected s i.patch_number ≡ true) is
    → length is
      ≤ count s.current_patch_number is
        + (count_option s.pending_patch_number is + count_option s.last_known_good_patch_number is)
protected-length s [] h = omega arith
protected-length s (i ∷ is) (p, h) = ground (arith, protected-length s is h)

-- The last known good patch is the current one, or there is neither.
abbrev pub IsPaired : State → Type 0
IsPaired s =
    ((s.current_patch_number ≡ 0) × (s.last_known_good_patch_number ≡ none))
    ⊎ (s.last_known_good_patch_number ≡ some s.current_patch_number)

paired-protected :
    (s : State) (p : ℕ)
    → IsPaired s
    → is_protected s p ≡ true
    → (p == s.current_patch_number || option_eq s.pending_patch_number p) ≡ true
paired-protected s p (inl (c, e)) h = let h' = rw e at h in ground arith
paired-protected s p (inr e) h = let h' = rw e at h in ground arith

-- There the last known good patch does not count once more.
pub paired-length :
    (s : State) (is : List InstalledPatch)
    → IsPaired s
    → All (λ (i : InstalledPatch). is_protected s i.patch_number ≡ true) is
    → length is ≤ count s.current_patch_number is + count_option s.pending_patch_number is
paired-length s [] k h = omega arith
paired-length s (i ∷ is) k (p, h) =
    ground (arith, paired-length s is k h, paired-protected s i.patch_number k p)
