-- ===== src/State/Prune/Count.antt =====
-- crates/fcb_core/src/state.rs: how often a patch number is installed, before and after the pruning.
use fl_codepush_box.Prelude.{
  ℕ, zero, suc, ◌+◌, ◌≤◌, ◌≡◌, refl, true, false, Option, none, some, List, [], ◌∷◌, ◌++◌, arith,
  ◌==◌, ltb, if◌then◌else◌, length, All,
}
use fl_codepush_box.State.{State, InstalledPatch}
use fl_codepush_box.State.Patches.{is_installed}
use fl_codepush_box.State.Prune.{
  retain_others, insert_patch, sort_patches, is_protected, remove_unprotected, after, prune,
}

abbrev one : ℕ → ℕ → ℕ
one p q = if p == q then 1 else 0

-- How many installed patches have the number.
abbrev pub count : ℕ → List InstalledPatch → ℕ
count q [] = 0
count q (i ∷ is) = one i.patch_number q + count q is

pub is_installed-count : (q : ℕ) (is : List InstalledPatch) → is_installed q is ≡ ltb 0 (count q is)
is_installed-count q [] = ground arith
is_installed-count q (i ∷ is) = ground (arith, is_installed-count q is)

pub count-retain_others :
    (p q : ℕ) (is : List InstalledPatch)
    → count q (retain_others p is) ≡ (if p == q then 0 else count q is)
unfolding retain_others
count-retain_others p q [] = ground arith
count-retain_others p q (i ∷ is) = ground (arith, count-retain_others p q is)

pub count-append :
    (q : ℕ) (xs ys : List InstalledPatch) → count q (xs ++ ys) ≡ count q xs + count q ys
count-append q [] ys = omega arith
count-append q (x ∷ xs) ys = omega (arith, count-append q xs ys)

count-insert_patch :
    (q : ℕ) (i : InstalledPatch) (is : List InstalledPatch)
    → count q (insert_patch i is) ≡ one i.patch_number q + count q is
unfolding insert_patch
count-insert_patch q i [] = refl
count-insert_patch q i (j ∷ is) = ground (arith, count-insert_patch q i is)

pub count-sort_patches : (q : ℕ) (is : List InstalledPatch) → count q (sort_patches is) ≡ count q is
unfolding sort_patches
count-sort_patches q [] = refl
count-sort_patches q (i ∷ is) =
    omega (arith, count-insert_patch q i (sort_patches is), count-sort_patches q is)

-- What `remove_unprotected` returns: nothing if all are protected, or one patch that is not, with
-- the others.
abbrev pub Removed :
    State → List InstalledPatch → Option (InstalledPatch × List InstalledPatch) → Type 0
Removed s is none = All (λ (i : InstalledPatch). is_protected s i.patch_number ≡ true) is
Removed s is (some r) =
    ((q : ℕ) → count q is ≡ one r.0.patch_number q + count q r.1)
    × (is_protected s r.0.patch_number ≡ false)
    × (length is ≡ suc (length r.1))

Removed-cons :
    (s : State) (i : InstalledPatch) (is : List InstalledPatch)
    (o : Option (InstalledPatch × List InstalledPatch))
    → is_protected s i.patch_number ≡ true
    → Removed s is o
    → Removed s (i ∷ is) (elim o [ none ↦ none | some r ↦ some (r.0, i ∷ r.1) ])
Removed-cons s i is none p h = (p, h)
Removed-cons s i is (some r) p (c, u, l) = (λ q. omega (arith, c q), u, omega arith)

pub remove_unprotected_lem :
    (s : State) (is : List InstalledPatch) → Removed s is (remove_unprotected s is)
unfolding remove_unprotected
remove_unprotected_lem s [] = tt
remove_unprotected_lem s (i ∷ is) =
    elim (is_protected s i.patch_number)
        as (λ b.
          is_protected s i.patch_number ≡ b
          → Removed s (i ∷ is) (
              if b
              then (elim (remove_unprotected s is) [ none ↦ none | some r ↦ some (r.0, i ∷ r.1) ])
              else some (i, is))) [
                | true ↦ λ p.
                    Removed-cons s i is (remove_unprotected s is) p (remove_unprotected_lem s is)
                | false ↦ λ p. (λ q. refl, p, refl)
              ]
      refl

-- The number is protected, or the removed patch has another one.
protected-other :
    (s : State) (p q : ℕ) → is_protected s p ≡ false → is_protected s q ≡ true → one p q ≡ 0
protected-other s p q hp hq = ground arith

abbrev pub Pruner : Type 0
Pruner = List InstalledPatch → List InstalledPatch × List InstalledPatch

count-after :
    (s : State) (again : Pruner) (is : List InstalledPatch)
    (o : Option (InstalledPatch × List InstalledPatch)) (q : ℕ)
    → Removed s is o
    → is_protected s q ≡ true
    → ((js : List InstalledPatch) → count q (again js).0 ≡ count q js)
    → count q (after again is o).0 ≡ count q is
unfolding after
count-after s again is none q h p ih = refl
count-after s again is (some (i, js)) q (c, u, l) p ih =
    omega (arith, c q, ih js, protected-other s i.patch_number q u p)

-- The pruning keeps every patch that is protected.
pub count-prune_protected :
    (fuel : ℕ) (s : State) (is : List InstalledPatch) (q : ℕ)
    → is_protected s q ≡ true
    → count q (prune fuel s is).0 ≡ count q is
unfolding prune
count-prune_protected zero s is q p = refl
count-prune_protected (suc fuel) s is q p = ground (
  arith,
  count-after s (prune fuel s) is (remove_unprotected s is) q (remove_unprotected_lem s is) p
      (λ js. count-prune_protected fuel s js q p),
)

count-after_le :
    (s : State) (again : Pruner) (is : List InstalledPatch)
    (o : Option (InstalledPatch × List InstalledPatch)) (q : ℕ)
    → Removed s is o
    → ((js : List InstalledPatch) → count q (again js).0 ≤ count q js)
    → count q (after again is o).0 ≤ count q is
unfolding after
count-after_le s again is none q h ih = omega arith
count-after_le s again is (some (i, js)) q (c, u, l) ih = omega (arith, c q, ih js)

pub count-prune_le :
    (fuel : ℕ) (s : State) (is : List InstalledPatch) (q : ℕ)
    → count q (prune fuel s is).0 ≤ count q is
unfolding prune
count-prune_le zero s is q = omega arith
count-prune_le (suc fuel) s is q = ground (
  arith,
  count-after_le s (prune fuel s) is (remove_unprotected s is) q (remove_unprotected_lem s is)
      (λ js. count-prune_le fuel s js q),
)
