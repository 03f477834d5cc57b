-- ===== src/State/Install/Pruned.antt =====
-- crates/fcb_core/src/state.rs: the installed patches of the state that a successful install stores.
use fl_codepush_box.Prelude.{
  ℕ, suc, length-append, ◌≤◌, ◌≡◌, refl, ◌∙◌, Bool, true, false, ◌||◌, Option, none, some, List, [],
  ◌∷◌, ◌++◌, arith, Str, length, ◌⊎◌, inl, inr, ◌==◌, if◌then◌else◌, ==_refl,
}
use fl_codepush_box.Manifest.{PatchManifest}
use fl_codepush_box.State.{State, InstalledPatch}
use fl_codepush_box.State.Patches.{is_installed, option_eq}
use fl_codepush_box.State.Prune.{is_protected, retain_others}
use fl_codepush_box.State.Prune.Count.{
  count, is_installed-count, count-retain_others, count-append, count-sort_patches,
  count-prune_protected, count-prune_le,
}
use fl_codepush_box.State.Prune.Length.{
  count_option, length-retain_others, length-sort_patches, length-prune, Ended, prune-Ended,
  protected-length, IsPaired, paired-length,
}
use fl_codepush_box.State.Install.{announced, entry}
use fl_codepush_box.State.Install.Outcome.{outcome}

-- No patch number is installed twice.
abbrev pub IsDistinct : State → Type 0
IsDistinct s = (q : ℕ) → count q s.installed ≤ 1

-- The patch, if there is one, is installed.
abbrev pub any_installed : Option ℕ → List InstalledPatch → Bool
any_installed none is = false
any_installed (some q) is = is_installed q is

module _ (now : Str) (m : PatchManifest) (path : Option Str) (s : State) where
  count-announced :
      (q : ℕ)
      → count q (announced now m path s).installed
        ≡ (if m.patch_number == q then 1 else count q s.installed)
  unfolding announced
  count-announced q =
      let list = retain_others m.patch_number s.installed in
      let new = entry now m path ∷ [] in
      ground (
        arith,
        count-sort_patches q (list ++ new),
        count-append q list new,
        count-retain_others m.patch_number q s.installed,
      )

  protected-outcome :
      (q : ℕ)
      → is_protected (announced now m path s) q ≡ true
      → is_installed q (outcome now m path s).installed
        ≡ is_installed q (announced now m path s).installed
  protected-outcome q h =
      let a = announced now m path s in
      ground (
        arith,
        is_installed-count q (outcome now m path s).installed,
        is_installed-count q a.installed,
        count-prune_protected (length a.installed) a a.installed q h,
      )

  pending-is_protected : is_protected (announced now m path s) m.patch_number ≡ true
  unfolding announced
  pending-is_protected = ground (arith, ==_refl m.patch_number)

  pub pending-installed : is_installed m.patch_number (outcome now m path s).installed ≡ true
  pending-installed =
      protected-outcome m.patch_number pending-is_protected
      ∙ ground (
        arith,
        is_installed-count m.patch_number (announced now m path s).installed,
        count-announced m.patch_number,
        ==_refl m.patch_number,
      )

  -- A patch that the next launch could fall back to.
  abbrev pub IsFallback : ℕ → Type 0
  IsFallback q = (s.current_patch_number ≡ q) ⊎ (s.last_known_good_patch_number ≡ some q)

  IsFallback-is_protected : (q : ℕ) → IsFallback q → is_protected (announced now m path s) q ≡ true
  unfolding announced
  IsFallback-is_protected q (inl e) = ground (arith, ==_refl q)
  IsFallback-is_protected q (inr e) = rw e (ground (arith, ==_refl q))

  pub kept :
      (q : ℕ)
      → IsFallback q
      → is_installed q (outcome now m path s).installed
        ≡ (m.patch_number == q || is_installed q s.installed)
  kept q f =
      protected-outcome q (IsFallback-is_protected q f)
      ∙ ground (
        arith,
        is_installed-count q (announced now m path s).installed,
        is_installed-count q s.installed,
        count-announced q,
      )

  pub last-kept :
      (o : Option ℕ)
      → s.last_known_good_patch_number ≡ o
      → any_installed o (outcome now m path s).installed
        ≡ (option_eq o m.patch_number || any_installed o s.installed)
  last-kept none e = refl
  last-kept (some q) e = kept q (inr e) ∙ ground (arith)

  pub outcome-IsDistinct : IsDistinct s → IsDistinct (outcome now m path s)
  outcome-IsDistinct h q =
      let a = announced now m path s in
      ground (arith, count-prune_le (length a.installed) a a.installed q, count-announced q, h q)

  count_option_le :
      (o : Option ℕ) (is : List InstalledPatch) → ((q : ℕ) → count q is ≤ 1) → count_option o is ≤ 1
  count_option_le none is h = omega arith
  count_option_le (some q) is h = h q

  pub outcome-Ended : Ended (outcome now m path s) (outcome now m path s).installed
  outcome-Ended =
      let a = announced now m path s in prune-Ended (length a.installed) a a.installed (omega arith)

  length-announced :
      length (announced now m path s).installed
      ≡ suc (length (retain_others m.patch_number s.installed))
  unfolding announced
  length-announced =
      let list = retain_others m.patch_number s.installed in
      let new = entry now m path ∷ [] in
      omega (arith, length-sort_patches (list ++ new), length-append list new)

  -- Nothing but the pruning down to two takes patches away.
  pub outcome-keeps :
      IsDistinct s
      → (length s.installed ≤ length (outcome now m path s).installed)
        ⊎ (2 ≤ length (outcome now m path s).installed)
  outcome-keeps h =
      let a = announced now m path s in
      elim (length-prune (length a.installed) a a.installed) [
        | inl le ↦ inl (
            omega (
              arith,
              le,
              length-announced,
              length-retain_others m.patch_number s.installed,
              h m.patch_number,
            ))
        | inr two ↦ inr two
      ]

  pub outcome-length : IsDistinct s → length (outcome now m path s).installed ≤ 3
  outcome-length h =
      let a = announced now m path s in
      let is = (outcome now m path s).installed in
      let once = outcome-IsDistinct h in
      elim outcome-Ended [
        | inl le ↦ omega arith
        | inr all ↦ omega (
          arith,
          protected-length a is all,
          once a.current_patch_number,
          count_option_le a.pending_patch_number is once,
          count_option_le a.last_known_good_patch_number is once,
        )
      ]

  announced-IsPaired : IsPaired s → IsPaired (announced now m path s)
  unfolding announced
  announced-IsPaired k = k

  pub outcome-length_paired :
      IsDistinct s → IsPaired s → length (outcome now m path s).installed ≤ 2
  outcome-length_paired h k =
      let a = announced now m path s in
      let is = (outcome now m path s).installed in
      let once = outcome-IsDistinct h in
      elim outcome-Ended [
        | inl le ↦ le
        | inr all ↦ omega (
          arith,
          paired-length a is (announced-IsPaired k) all,
          once a.current_patch_number,
          count_option_le a.pending_patch_number is once,
        )
      ]
