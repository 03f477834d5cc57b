-- ===== src/State/Patches/Bad.antt =====
-- crates/fcb_core/src/state.rs: the invariant on bad patches, and what `mark_patch_bad` and
-- `migrate_state` do to it.
use fl_codepush_box.Prelude.{
  ℕ, ◌≡◌, Bool, false, ◌&&◌, ◌||◌, Option, none, some, List, [], ◌∷◌, arith, contains,
  contains-append, ◌==◌, ltb, refl, if◌then◌else◌,
}
use fl_codepush_box.State.{State}
use fl_codepush_box.State.Patches.{migrate_state, mark_patch_bad, option_eq, other_or_zero, is_none}

abbrev pub any_bad : List ℕ → Option ℕ → Bool
any_bad bad none = false
any_bad bad (some p) = contains bad p

-- Neither the current nor the last known good patch is bad. (Patch 0 stands for the baseline.)
pub record IsSound (s : State) : Type 0 where
  pub current_good :
      (ltb 0 s.current_patch_number && contains s.bad_patches s.current_patch_number) ≡ false
  pub last_known_good : any_bad s.bad_patches s.last_known_good_patch_number ≡ false

-- `mark_patch_bad` adds its patch to the bad ones, and takes none away.
pub contains-mark_patch_bad :
    (s : State) (p q : ℕ)
    → contains (mark_patch_bad s p).bad_patches q ≡ (contains s.bad_patches q || p == q)
unfolding mark_patch_bad
contains-mark_patch_bad s p q = ground (arith, contains-append s.bad_patches (p ∷ []) q)

-- The patch that takes the place of a current one that is marked bad.
replacement_good :
    (bad : List ℕ) (cur p : ℕ) (lkg : Option ℕ)
    → (ltb 0 cur && contains bad cur) ≡ false
    → any_bad bad lkg ≡ false
    → let c = if cur == p then other_or_zero lkg p else cur in
      (ltb 0 c && (contains bad c || p == c)) ≡ false
replacement_good bad cur p none hc hl = ground arith
replacement_good bad cur p (some q) hc hl = ground arith

last_good :
    (bad bad' : List ℕ) (p : ℕ) (lkg : Option ℕ)
    → ((q : ℕ) → contains bad' q ≡ (contains bad q || p == q))
    → any_bad bad lkg ≡ false
    → any_bad bad' (if option_eq lkg p then none else lkg) ≡ false
last_good bad bad' p none same h = refl
last_good bad bad' p (some q) same h = ground (arith, same q)

mark_patch_bad-current :
    (s : State) (p : ℕ)
    → IsSound s
    → let c = (mark_patch_bad s p).current_patch_number in
      (ltb 0 c && (contains s.bad_patches c || p == c)) ≡ false
unfolding mark_patch_bad
mark_patch_bad-current s p h =
    replacement_good s.bad_patches s.current_patch_number p s.last_known_good_patch_number
      h.current_good h.last_known_good

mark_patch_bad-last_known_good :
    (s : State) (p : ℕ)
    → IsSound s
    → any_bad (mark_patch_bad s p).bad_patches (mark_patch_bad s p).last_known_good_patch_number
      ≡ false
mark_patch_bad-last_known_good s p h =
    let bad = (mark_patch_bad s p).bad_patches in
    let same = contains-mark_patch_bad s p in
    unfold mark_patch_bad in
    last_good s.bad_patches bad p s.last_known_good_patch_number same h.last_known_good

pub mark_patch_bad-IsSound : (s : State) (p : ℕ) → IsSound s → IsSound (mark_patch_bad s p)
mark_patch_bad-IsSound s p h = record {
  current_good = rw (contains-mark_patch_bad s p _) (mark_patch_bad-current s p h);
  last_known_good = mark_patch_bad-last_known_good s p h;
}

migrated_good :
    (bad : List ℕ) (cur : ℕ) (o : Option ℕ)
    → (ltb 0 cur && contains bad cur) ≡ false
    → any_bad bad o ≡ false
    → any_bad bad (if is_none o && ltb 0 cur then some cur else o) ≡ false
migrated_good bad cur none hc h = ground arith
migrated_good bad cur (some q) hc h = h

pub migrate_state-IsSound : (s : State) → IsSound s → IsSound (migrate_state s)
unfolding migrate_state
migrate_state-IsSound s h = record {
  current_good = ground (arith, h.current_good);
  last_known_good = ground (
    arith,
    h.last_known_good,
    migrated_good s.bad_patches s.current_patch_number s.last_known_good_patch_number h.current_good
        h.last_known_good,
  );
}

pub bad_patches-migrate_state : (s : State) → (migrate_state s).bad_patches ≡ s.bad_patches
unfolding migrate_state
bad_patches-migrate_state s = ground arith
