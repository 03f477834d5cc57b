-- ===== src/Ffi/Flights/Progress.antt =====
-- updater/src/lib.rs: from every state of the single-flight check, there are steps that lead a waiting
-- call on to its return.
use fl_codepush_box.Prelude.{
  ℕ, ◌≡◌, refl, ap, sym, subst, ◌∙◌, inl, inr, false, some, ◌==◌, ==_refl, Bool-cases, arith,
}
use fl_codepush_box.Ffi.Flights.{
  MapKey, leading, stored, looking, waiting, returned, System, start, woken, publish, looked, look,
  publishes, looks, Run, here, after,
}
use fl_codepush_box.Ffi.Flights.Inv.{Good}
use fl_codepush_box.Ffi.Flights.Quiet.{put_same, put_other}
use fl_codepush_box.Ffi.Flights.Safety.{Run-IsInv}

module _ {K R : Type 0} (key : MapKey K) (s : System K R) (i : ℕ) (k : K) (f : ℕ) where
  -- The steps of the leader and of the waiting call, whatever the request's result is.
  finish_both :
      (r : R) (l : ℕ)
      → s.threads l ≡ leading k f
      → s.threads i ≡ waiting k f
      → (t : System K R) × Run key s t × (t.threads i ≡ returned k r)
  unfolding publish look looked
  finish_both r l at_work e =
      let other : (l == i) ≡ false = elim (Bool-cases (l == i)) [
        | inl same ↦
            let equal : l ≡ i = ground arith in
            let both : leading k f ≡ waiting k f = sym at_work ∙ ap s.threads equal ∙ e in
            ground arith
        | inr differ ↦ differ
      ] in
      let stored_ = publish key l k f r s in
      let woken_up : woken {K = K} {R = R} f (waiting k f) ≡ looking k f = rw (==_refl f) refl in
      let looks_again : stored_.threads i ≡ looking k f =
        put_other l i (stored k f r) (λ j. woken f (s.threads j)) other
        ∙ ap (woken f) e
        ∙ woken_up in
      let filled : stored_.slots f ≡ some r = put_same f (some r) s.slots in
      (
        look key i k f stored_,
        after (after here (publishes l k f r at_work)) (looks i k f looks_again),
        ap (λ o. (looked key i k f stored_ o).threads i) filled
            ∙ put_same i (returned k r) stored_.threads,
      )

  -- From a state that any interleaving of calls reaches and in which a call waits, and for every
  -- result, further steps lead to a state in which that call has returned that result.
  pub waiting_returns :
      (r : R)
      → Run key start s
      → s.threads i ≡ waiting k f
      → (t : System K R) × Run key s t × (t.threads i ≡ returned k r)
  waiting_returns r run e =
      let (a, empty, l, at_work) = subst (Good s) e ((Run-IsInv key s run).good i) in
      finish_both r l at_work e
