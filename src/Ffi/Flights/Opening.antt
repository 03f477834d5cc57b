-- ===== src/Ffi/Flights/Opening.antt =====
-- updater/src/lib.rs: the step of the single-flight check that makes a flight.
use fl_codepush_box.Prelude.{
  ℕ, suc, ◌≡◌, refl, ap, sym, subst, ◌∙◌, ◌⊎◌, inl, inr, false, none, some, ◌==◌, Bool-cases, arith,
}
use fl_codepush_box.Ffi.Flights.{
  MapKey, Thread, idle, leading, stored, looking, waiting, returned, System, put, put_flight,
}
use fl_codepush_box.Ffi.Flights.Inv.{
  IsManned, Good, led, IsInv, Frame, Kept, Good-Kept, flown-Frame,
}
use fl_codepush_box.Ffi.Flights.Quiet.{put_same, put_other, put-elim, leader_stays}
use fl_codepush_box.Ffi.Flights.Leader.{none_ne_some, put_flight_other, put_flight_same}

module _ {K R : Type 0} (key : MapKey K) (s : System K R) (i : ℕ) (k : K) where
  -- The state with the new flight, and its leader.
  abbrev opened : System K R
  opened = record s {
    threads = put i (leading k s.next) s.threads;
    flights = put_flight key k (some s.next) s.flights;
    slots = put s.next none s.slots;
    asked = put s.next (some k) s.asked;
    next = suc s.next;
  }

  module _ (v : IsInv s) (here : s.threads i ≡ idle) (free : s.flights k ≡ none) where
    unled : led (s.threads i) ≡ none
    unled = ap led here

    old : (f : ℕ) (m : K) → s.asked f ≡ some m → (s.next == f) ≡ false
    old f m a = elim (Bool-cases (s.next == f)) [
      | inl same ↦
          let equal : s.next ≡ f = ground arith in
          absurd (none_ne_some (v.fresh f (omega (arith, equal))) a)
      | inr differ ↦ differ
    ]

    other_request : (m : K) (f : ℕ) → s.flights m ≡ some f → key.same k m ≡ false
    other_request m f e = elim (Bool-cases (key.same k m)) [
      | inl same ↦
          absurd (none_ne_some (subst (λ q. s.flights q ≡ none) (key.same_eq k m same) free) e)
      | inr differ ↦ differ
    ]

    opened-Frame : Frame s opened
    opened-Frame = record {
      asked = λ f m a. put_other s.next f (some k) s.asked (old f m a) ∙ a;
      filled = λ f m r a e. put_other s.next f none s.slots (old f m a) ∙ e;
      manned = λ l m f a e. inr (l, leader_stays s i (leading k s.next) unled l f m e);
    }

    opened-Kept : (x : Thread K R) → Good s x → Kept s opened x
    opened-Kept idle g = tt
    opened-Kept (leading m f) g = (
      put_flight_other key k m (some s.next) s.flights (other_request m f g.0),
      put_other s.next f none s.slots (old f m g.2),
    )
    opened-Kept (stored m f r) g = (
      put_flight_other key k m (some s.next) s.flights (other_request m f g.0),
      put_other s.next f none s.slots (old f m g.2),
    )
    opened-Kept (looking m f) g = tt
    opened-Kept (waiting m f) g = (
      put_other s.next f none s.slots (old f m g.0),
      λ l e. leader_stays s i (leading k s.next) unled l f m e,
    )
    opened-Kept (returned m r) g = tt

    mine : Good opened (leading k s.next)
    mine =
        (rw (key.same_refl k) refl, put_same s.next none s.slots, put_same s.next (some k) s.asked)

    opened-flown :
        (m : K) (f : ℕ)
        → opened.flights m ≡ some f
        → (opened.asked f ≡ some m) × IsManned opened m f
    opened-flown m f e = elim (Bool-cases (key.same k m)) [
      | inl same ↦
          let equal : k ≡ m = key.same_eq k m same in
          let got : some s.next ≡ some f =
            sym (put_flight_same key k m (some s.next) s.flights same) ∙ e in
          let number : s.next ≡ f = ground arith in
          subst (λ n. (opened.asked n ≡ some m) × IsManned opened m n) number
            (subst (λ q. (opened.asked s.next ≡ some q) × IsManned opened q s.next) equal
              (mine.2, inr (i, put_same i (leading k s.next) s.threads)))
      | inr differ ↦
          flown-Frame s opened m f opened-Frame v
            (sym (put_flight_other key k m (some s.next) s.flights differ) ∙ e)
    ]

    led-asked : (x : Thread K R) (f : ℕ) → Good s x → led x ≡ some f → (s.next == f) ≡ false
    led-asked idle f g e = absurd (none_ne_some refl e)
    led-asked (leading m n) f g e =
        let equal : n ≡ f = ground arith in old f m (subst (λ q. s.asked q ≡ some m) equal g.2)
    led-asked (stored m n r) f g e =
        let equal : n ≡ f = ground arith in old f m (subst (λ q. s.asked q ≡ some m) equal g.2)
    led-asked (looking m n) f g e = absurd (none_ne_some refl e)
    led-asked (waiting m n) f g e = absurd (none_ne_some refl e)
    led-asked (returned m r) f g e = absurd (none_ne_some refl e)

    -- Who leads a flight: the new leader the new flight, and an old one an old flight.
    who :
        (j f : ℕ)
        → led (opened.threads j) ≡ some f
        → ((i ≡ j) × (s.next ≡ f)) ⊎ ((led (s.threads j) ≡ some f) × ((s.next == f) ≡ false))
    who j f =
        put-elim
          (λ x.
            led x ≡ some f
            → ((i ≡ j) × (s.next ≡ f)) ⊎ ((led (s.threads j) ≡ some f) × ((s.next == f) ≡ false)))
          i j (leading k s.next) s.threads (λ same e. inl (same, ground arith))
          (λ other e. inr (e, led-asked (s.threads j) f (v.good j) e))

    differs : {a b f : ℕ} → s.next ≡ f → (s.next == f) ≡ false → a ≡ b
    differs e h = absurd (ground (arith, e, h))

    opened-one :
        (a b f : ℕ) → led (opened.threads a) ≡ some f → led (opened.threads b) ≡ some f → a ≡ b
    opened-one a b f e e' = elim (who a f e) [
      | inl new ↦ elim (who b f e') [
        | inl also ↦ sym new.0 ∙ also.0
        | inr not_new ↦ differs new.1 not_new.1
      ]
      | inr old_ ↦ elim (who b f e') [
        | inl also ↦ differs also.1 old_.1
        | inr both ↦ v.one a b f old_.0 both.0
      ]
    ]

    pub opened-IsInv : IsInv opened
    opened-IsInv = record {
      good = λ j.
          put-elim (Good opened) i j (leading k s.next) s.threads (λ same. mine)
            (λ other.
              Good-Kept s opened (s.threads j) opened-Frame (opened-Kept (s.threads j) (v.good j))
                (v.good j));
      flown = opened-flown;
      fresh = λ f le.
          let differ : (s.next == f) ≡ false = ground arith in
          put_other s.next f (some k) s.asked differ ∙ v.fresh f (omega (arith, le));
      one = opened-one;
    }
