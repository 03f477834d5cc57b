-- ===== src/State/Reach/Healthy.antt =====
-- crates/fcb_core/src/state.rs: the invariant of the state that every operation keeps.
use fl_codepush_box.Prelude.{
  ℕ, ◌≤◌, ◌≡◌, refl, ◌⊎◌, inl, inr, ◌==◌, Bool-cases, Bool, true, false, Option, none, some, arith,
  Str, contains, length,
}
use fl_codepush_box.Host.{Host}
use fl_codepush_box.Manifest.{PatchManifest}
use fl_codepush_box.State.{State, LastLaunch}
use fl_codepush_box.State.Disk.{
  Disk, StateFile, stored, unreadable, append_rollback_event, backup_corrupt_state, load_state,
  clear_rollback_events, fresh_state,
}
use fl_codepush_box.State.Prune.Length.{IsPaired}
use fl_codepush_box.State.Patches.{migrate_state, mark_patch_bad}
use fl_codepush_box.State.Patches.Bad.{IsSound, mark_patch_bad-IsSound, migrate_state-IsSound}
use fl_codepush_box.State.Launch.{succeeded}
use fl_codepush_box.State.Launch.Keeps.{
  Holds, IsInvariant, launch_patch-keeps, ready_patch-keeps, mark_success-keeps, mark_failure-keeps,
}
use fl_codepush_box.State.Install.{announced}
use fl_codepush_box.State.Install.Outcome.{outcome}
use fl_codepush_box.State.Install.Pruned.{
  IsDistinct, outcome-IsDistinct, outcome-length, outcome-length_paired,
}
use fl_codepush_box.State.Install.Keeps.{install-keeps}
use fl_codepush_box.State.Reach.{
  Step, Reaches, here, then, launching, readying, succeeding, failing, clearing, installing,
}

abbrev pub limit : Bool → ℕ
limit true = 2
limit false = 3

-- The current and the last known good patch are not bad, and at most three patches are installed,
-- none of them twice; two, if the last known good patch is required to be the current one.
pub record IsHealthy (paired : Bool) (s : State) : Type 0 where
  pub sound : IsSound s
  pub distinct : IsDistinct s
  pub few : length s.installed ≤ limit paired
  pub pairing : (paired ≡ false) ⊎ IsPaired s

fresh_state-IsHealthy : (b : Bool) → IsHealthy b fresh_state
fresh_state-IsHealthy b = record {
  sound = record { current_good = refl; last_known_good = refl };
  distinct = λ q. omega arith;
  few = ground arith;
  pairing = inr (inl (refl, refl));
}

-- Health hangs on soundness, on the pairing and on the installed patches.
like :
    (b : Bool) (s s' : State)
    → s'.installed ≡ s.installed
    → IsSound s'
    → (b ≡ false) ⊎ IsPaired s'
    → IsHealthy b s
    → IsHealthy b s'
like b s s' e snd pair h = record {
  sound = snd;
  distinct = λ q. rw e (h.distinct q);
  few = rw e (h.few);
  pairing = pair;
}

or_map : {A B C : Type 0} → (B → C) → A ⊎ B → A ⊎ C
or_map f (inl a) = inl a
or_map f (inr b) = inr (f b)

migrate_state-IsPaired : (s : State) → IsPaired s → IsPaired (migrate_state s)
unfolding migrate_state
migrate_state-IsPaired s (inl (c, e)) = inl (ground arith, ground arith)
migrate_state-IsPaired s (inr e) = inr (ground arith)

mark_patch_bad-IsPaired : (s : State) (p : ℕ) → IsPaired s → IsPaired (mark_patch_bad s p)
unfolding mark_patch_bad
mark_patch_bad-IsPaired s p (inl (c, e)) = inl (ground arith, ground arith)
mark_patch_bad-IsPaired s p (inr e) = elim (Bool-cases (s.current_patch_number == p)) [
  | inl same ↦ inl (ground arith, ground arith)
  | inr other ↦ inr (ground arith)
]

migrate_state-IsHealthy : (b : Bool) (s : State) → IsHealthy b s → IsHealthy b (migrate_state s)
unfolding migrate_state
migrate_state-IsHealthy b s h =
    like b s (migrate_state s) (ground arith) (migrate_state-IsSound s h.sound)
      (or_map (migrate_state-IsPaired s) h.pairing) h

mark_patch_bad-IsHealthy :
    (b : Bool) (s : State) (p : ℕ) → IsHealthy b s → IsHealthy b (mark_patch_bad s p)
unfolding mark_patch_bad
mark_patch_bad-IsHealthy b s p h =
    like b s (mark_patch_bad s p) refl (mark_patch_bad-IsSound s p h.sound)
      (or_map (mark_patch_bad-IsPaired s p) h.pairing) h

load_state-IsHealthy :
    (b : Bool) (now : Str) (d : Disk) (f : Option StateFile)
    → d.state_json ≡ f
    → Holds (IsHealthy b) f
    → IsHealthy b (load_state now d).1 × Holds (IsHealthy b) (load_state now d).0.state_json
unfolding load_state append_rollback_event backup_corrupt_state
load_state-IsHealthy b now d none e h = rw e (fresh_state-IsHealthy b, tt)
load_state-IsHealthy b now d (some (stored s)) e h = rw e (migrate_state-IsHealthy b s h, h)
load_state-IsHealthy b now d (some (unreadable c m)) e h = rw e (fresh_state-IsHealthy b, tt)

outcome-IsSound :
    (now : Str) (m : PatchManifest) (path : Option Str) (s : State)
    → IsSound s
    → IsSound (outcome now m path s)
unfolding announced
outcome-IsSound now m path s h = record {
  current_good = h.current_good;
  last_known_good = h.last_known_good;
}

outcome-few :
    (now : Str) (m : PatchManifest) (path : Option Str) (s : State) (b : Bool)
    → IsHealthy b s
    → length (outcome now m path s).installed ≤ limit b
outcome-few now m path s true h = elim h.pairing [
  | inl e ↦ cc e
  | inr k ↦ outcome-length_paired now m path s h.distinct k
]
outcome-few now m path s false h = outcome-length now m path s h.distinct

outcome-IsHealthy :
    (b : Bool) (now : Str) (m : PatchManifest) (path : Option Str) (s : State)
    → IsHealthy b s
    → IsHealthy b (outcome now m path s)
unfolding announced
outcome-IsHealthy b now m path s h = record {
  sound = outcome-IsSound now m path s h.sound;
  distinct = outcome-IsDistinct now m path s h.distinct;
  few = outcome-few now m path s b h;
  pairing = h.pairing;
}

-- The patch that is confirmed is not bad.
succeeded-IsSound :
    (s : State) (l : LastLaunch)
    → contains s.bad_patches l.patch_number ≡ false
    → IsSound (succeeded s l)
succeeded-IsSound s l good = record { current_good = ground arith; last_known_good = good }

IsHealthy-IsInvariant : (b : Bool) → IsInvariant (IsHealthy b)
IsHealthy-IsInvariant b = record {
  load = λ now d k. load_state-IsHealthy b now d d.state_json refl k;
  bad = mark_patch_bad-IsHealthy b;
  recorded = λ s n l h.
      like b s (record s { boot_attempts = n; last_launch = l }) refl
        (record { current_good = h.sound.current_good; last_known_good = h.sound.last_known_good })
        h.pairing h;
  confirmed =
      λ s l good h. like b s (succeeded s l) refl (succeeded-IsSound s l good) (inr (inr refl)) h;
}

module _ (h : Host) (flag : Bool) (paired : Bool) where
  Step-IsHealthy :
      {d d' : Disk}
      → Step h flag d d'
      → Holds (IsHealthy paired) d.state_json
      → Holds (IsHealthy paired) d'.state_json
  unfolding clear_rollback_events
  Step-IsHealthy (launching now) k =
      launch_patch-keeps (IsHealthy paired) (IsHealthy-IsInvariant paired) now _ k
  Step-IsHealthy (readying now) k =
      ready_patch-keeps (IsHealthy paired) (IsHealthy-IsInvariant paired) now _ k
  Step-IsHealthy (succeeding now) k =
      mark_success-keeps (IsHealthy paired) (IsHealthy-IsInvariant paired) now _ k
  Step-IsHealthy (failing now p reason) k =
      mark_failure-keeps (IsHealthy paired) (IsHealthy-IsInvariant paired) now _ p reason k
  Step-IsHealthy clearing k = k
  Step-IsHealthy (installing now manifest payload key baseline {d}) k =
      let loaded = load_state-IsHealthy paired now d d.state_json refl k in
      install-keeps (Holds (IsHealthy paired)) h flag now key manifest payload baseline d k loaded.1
        (λ m path. outcome-IsHealthy paired now m path (load_state now d).1 loaded.0)

  -- From a disk whose state.json, if it holds a state, is healthy (as an empty disk is), every
  -- sequence of operations leads to such a disk: the current patch, if it is not 0, and the last
  -- known good patch are not bad, no patch is installed twice, and at most three are installed. If
  -- moreover the last known good patch is the current one at first, or there is neither, and at most
  -- two are installed (`paired`, as on an empty disk), then this stays so too.
  pub reaches-IsHealthy :
      {d d' : Disk}
      → Reaches h flag d d'
      → Holds (IsHealthy paired) d.state_json
      → Holds (IsHealthy paired) d'.state_json
  reaches-IsHealthy here k = k
  reaches-IsHealthy (then run s) k = Step-IsHealthy s (reaches-IsHealthy run k)
