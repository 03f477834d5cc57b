-- ===== src/Ffi/Events/Flush.antt =====
-- updater/src/lib.rs: `flush_rollback_events` clears the log when every event is delivered.
use fl_codepush_box.Prelude.{
  ◌≡◌, refl, ◌⊎◌, inl, inr, Bool, true, false, ◌&&◌, some, List, [], ◌∷◌, Result, ok, err,
}
use fl_codepush_box.State.{CrashRollbackEvent}
use fl_codepush_box.State.Disk.{Disk, rollback_events, clear_rollback_events}
use fl_codepush_box.Ffi.{Runtime, FfiError}
use fl_codepush_box.Ffi.Events.{
  Outside, Store, EventRequest, rollback, is_unconfigured, event_request, post_event, posting,
  flush_events, flush_logged, flush_rollback_events,
}

module _ (o : Outside) (r : Runtime) where
  -- The request for an event, and whether all events are delivered.
  abbrev pub request : CrashRollbackEvent → EventRequest
  request e = event_request o r (some e.patch_number) e.event_type (rollback e)

  abbrev pub is_delivered : Result FfiError (Unit {0}) → Bool
  is_delivered (ok _) = true
  is_delivered (err _) = false

  abbrev pub all_delivered : List CrashRollbackEvent → Bool
  all_delivered [] = true
  all_delivered (e ∷ es) = is_delivered (post_event o r (request e)) && all_delivered es

  -- The log is cleared and every event was delivered; or the disk is as before, and some event was
  -- not.
  abbrev pub Flushed : Bool → Disk → Store × Result FfiError (Unit {0}) → Type 0
  Flushed all d (st, result) =
      ((result ≡ ok tt) × (all ≡ true) × (st.disk ≡ clear_rollback_events d))
      ⊎ (((e : FfiError) × (result ≡ err e)) × (all ≡ false) × (st.disk ≡ d))

  step-Flushed :
      (all : Bool) (d : Disk) (before : Store) (p : Result FfiError (Unit {0}))
      (rest : Store × Result FfiError (Unit {0}))
      → before.disk ≡ d
      → Flushed all d rest
      → Flushed (is_delivered p && all) d (elim p as (λ _. Store × Result FfiError (Unit {0})) [
        | err x ↦ (before, err x)
        | ok _ ↦ rest
      ])
  step-Flushed all d before (err x) rest e w = inr ((x, refl), refl, e)
  step-Flushed all d before (ok _) rest e w = w

  flush_events-Flushed :
      (es : List CrashRollbackEvent) (st : Store)
      → Flushed (all_delivered es) st.disk (flush_events o r es st)
  unfolding flush_events
  flush_events-Flushed [] st = inl (refl, refl, refl)
  flush_events-Flushed (e ∷ es) st =
      step-Flushed (all_delivered es) st.disk (posting o (request e) st)
        (post_event o r (request e)) _ refl (flush_events-Flushed es (posting o (request e) st))

  flush_logged-Flushed :
      (es : List CrashRollbackEvent) (st : Store)
      → ((es ≡ []) × (flush_logged o r st (ok es) ≡ (st, ok tt)))
        ⊎ Flushed (all_delivered es) st.disk (flush_logged o r st (ok es))
  unfolding flush_logged
  flush_logged-Flushed [] st = inl (refl, refl)
  flush_logged-Flushed (e ∷ es) st = inr (flush_events-Flushed (e ∷ es) st)

  -- For a configured runtime and a log that can be read, a flush with no event does nothing; else
  -- it clears the log if every event is delivered, and if one is not, it fails and leaves the disk
  -- as it was.
  pub flush_rollback_events-Flushed :
      (st : Store) (es : List CrashRollbackEvent)
      → is_unconfigured r ≡ false
      → rollback_events st.disk ≡ ok es
      → ((es ≡ []) × (flush_rollback_events o r st ≡ (st, ok tt)))
        ⊎ Flushed (all_delivered es) st.disk (flush_rollback_events o r st)
  unfolding flush_rollback_events
  flush_rollback_events-Flushed st es e k = rw (e, k) (flush_logged-Flushed es st)
