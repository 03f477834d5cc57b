-- ===== src/Ffi/Flights/Safety.antt =====
-- updater/src/lib.rs: what holds in every state of the single-flight check.
use fl_codepush_box.Prelude.{ℕ, ◌≡◌, refl, ap, sym, subst, ◌∙◌, inl, inr, Option, none, some, arith}
use fl_codepush_box.Ffi.Flights.{
  MapKey, Thread, idle, leading, stored, looking, waiting, returned, System, start, entered, enter,
  publish, remove, looked, look, wake, Step, enters, publishes, removes, looks, wakes, Run, here,
  after,
}
use fl_codepush_box.Ffi.Flights.Inv.{Good, led, IsInv}
use fl_codepush_box.Ffi.Flights.Quiet.{changed-IsInv, changed-IsManned, leader_stays}
use fl_codepush_box.Ffi.Flights.Leader.{published-IsInv, removed-IsInv, none_ne_some}
use fl_codepush_box.Ffi.Flights.Opening.{opened-IsInv}

module _ {K R : Type 0} (key : MapKey K) where
  start-IsInv : IsInv (start {K = K} {R = R})
  start-IsInv = record {
    good = λ i. tt;
    flown = λ k f e. absurd (none_ne_some refl e);
    fresh = λ f le. refl;
    one = λ i j f e e'. absurd (none_ne_some refl e);
  }

  entered-IsInv :
      (i : ℕ) (k : K) (s : System K R) (o : Option ℕ)
      → IsInv s
      → s.threads i ≡ idle
      → s.flights k ≡ o
      → IsInv (entered key i k s o)
  unfolding entered
  entered-IsInv i k s none v e free = opened-IsInv key s i k v e free
  entered-IsInv i k s (some f) v e there =
      let (a, m) = v.flown k f there in
      let quiet = ap led e in
      changed-IsInv s i (looking k f) quiet v refl
        (a, changed-IsManned s i (looking k f) quiet k f a m)

  looked-IsInv :
      (i : ℕ) (k : K) (f : ℕ) (s : System K R) (o : Option R)
      → IsInv s
      → s.threads i ≡ looking k f
      → s.slots f ≡ o
      → IsInv (looked key i k f s o)
  unfolding looked
  looked-IsInv i k f s (some r) v e there =
      let (a, m) = subst (Good s) e (v.good i) in
      changed-IsInv s i (returned k r) (ap led e) v refl (f, a, there)
  looked-IsInv i k f s none v e there =
      let (a, m) = subst (Good s) e (v.good i) in
      let quiet = ap led e in
      elim m [
        | inl (r, filled) ↦ absurd (none_ne_some there filled)
        | inr (l, at_work) ↦
            changed-IsInv s i (waiting k f) quiet v refl
              (a, there, l, leader_stays s i (waiting k f) quiet l f k at_work)
      ]

  pub Step-IsInv : (s t : System K R) → Step key s t → IsInv s → IsInv t
  unfolding enter publish remove look wake
  Step-IsInv s _ (enters i k e) v = entered-IsInv i k s (s.flights k) v e refl
  Step-IsInv s _ (publishes i k f r e) v = published-IsInv s i k f r v e
  Step-IsInv s _ (removes i k f r e) v = removed-IsInv key s i k f r v e
  Step-IsInv s _ (looks i k f e) v = looked-IsInv i k f s (s.slots f) v e refl
  Step-IsInv s _ (wakes i k f e) v =
      let (a, empty, l, at_work) = subst (Good s) e (v.good i) in
      let quiet = ap led e in
      changed-IsInv s i (looking k f) quiet v refl
        (a, inr (l, leader_stays s i (looking k f) quiet l f k at_work))

  pub Run-IsInv : (t : System K R) → Run key start t → IsInv t
  Run-IsInv _ here = start-IsInv
  Run-IsInv t (after {t = s} run step) = Step-IsInv s t step (Run-IsInv s run)

  -- The request that a thread leads a flight for.
  abbrev pub request_led : Thread K R → Option K
  request_led (leading k f) = some k
  request_led (stored k f r) = some k
  request_led _ = none

  led-flown :
      (s : System K R) (x : Thread K R) (k : K)
      → Good s x
      → request_led x ≡ some k
      → (f : ℕ) × (led x ≡ some f) × (s.flights k ≡ some f)
  led-flown s idle k g e = absurd (none_ne_some refl e)
  led-flown s (leading m f) k g e =
      let same : m ≡ k = ground arith in (f, refl, subst (λ q. s.flights q ≡ some f) same g.0)
  led-flown s (stored m f r) k g e =
      let same : m ≡ k = ground arith in (f, refl, subst (λ q. s.flights q ≡ some f) same g.0)
  led-flown s (looking m f) k g e = absurd (none_ne_some refl e)
  led-flown s (waiting m f) k g e = absurd (none_ne_some refl e)
  led-flown s (returned m r) k g e = absurd (none_ne_some refl e)

  -- In every state that any interleaving of calls reaches, at most one call leads a flight for a
  -- request.
  pub one_leader :
      (s : System K R) (i j : ℕ) (k : K)
      → Run key start s
      → request_led (s.threads i) ≡ some k
      → request_led (s.threads j) ≡ some k
      → i ≡ j
  one_leader s i j k run e e' =
      let v = Run-IsInv s run in
      let (f, leads, there) = led-flown s (s.threads i) k (v.good i) e in
      let (g, leads', there') = led-flown s (s.threads j) k (v.good j) e' in
      let same : some g ≡ some f = sym there' ∙ there in v.one i j f leads (leads' ∙ same)

  -- In every state that any interleaving of calls reaches, a call that has returned has the result
  -- that was stored for a flight of its own request.
  pub returned_result :
      (s : System K R) (i : ℕ) (k : K) (r : R)
      → Run key start s
      → s.threads i ≡ returned k r
      → (f : ℕ) × (s.asked f ≡ some k) × (s.slots f ≡ some r)
  returned_result s i k r run e = subst (Good s) e ((Run-IsInv s run).good i)
