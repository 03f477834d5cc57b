-- ===== src/Ffi/Flights/Leader.antt =====
-- updater/src/lib.rs: the steps of a leader in the single-flight check.
use fl_codepush_box.Prelude.{
  ℕ, ◌≡◌, refl, ap, sym, subst, ◌∙◌, inl, inr, true, false, Option, none, some, ◌==◌, Bool-cases,
  arith,
}
use fl_codepush_box.Ffi.Flights.{
  MapKey, Thread, idle, leading, stored, looking, waiting, returned, System, put, put_flight, woken,
}
use fl_codepush_box.Ffi.Flights.Inv.{Good, led, IsInv, Frame, Kept, Good-Kept, flown-Frame}
use fl_codepush_box.Ffi.Flights.Quiet.{put_same, put_other, put-elim}

pub none_ne_some : {A : Type 0} {a : A} {o : Option A} → o ≡ none → o ≡ some a → ⊥
none_ne_some e h = ground (arith, e, h)

module _ {K R : Type 0} (s : System K R) (i : ℕ) (k : K) (f : ℕ) (r : R) where
  -- The state after the result is stored.
  abbrev published : System K R
  published = record s {
    threads = put i (stored k f r) (λ j. woken f (s.threads j));
    slots = put f (some r) s.slots;
  }

  led-woken : (x : Thread K R) → led (woken f x) ≡ led x
  led-woken idle = refl
  led-woken (leading j g) = refl
  led-woken (stored j g q) = refl
  led-woken (looking j g) = refl
  led-woken (waiting j g) = elim (Bool-cases (f == g)) [ inl e ↦ rw e refl | inr e ↦ rw e refl ]
  led-woken (returned j q) = refl

  module _ (v : IsInv s) (here : s.threads i ≡ leading k f) where
    led-published : (j : ℕ) → led (published.threads j) ≡ led (s.threads j)
    led-published j =
        put-elim (λ x. led x ≡ led (s.threads j)) i j (stored k f r) (λ n. woken f (s.threads n))
          (λ same. sym (ap (λ n. led (s.threads n)) (sym same) ∙ ap led here))
          (λ other. led-woken (s.threads j))

    mine : Good s (leading k f)
    mine = subst (Good s) here (v.good i)

    -- Another leader has another flight.
    other_flight : (j g : ℕ) → (i == j) ≡ false → led (s.threads j) ≡ some g → (f == g) ≡ false
    other_flight j g other e = elim (Bool-cases (f == g)) [
      | inl same ↦
          let equal : f ≡ g = ground arith in
          let twice = v.one i j g (ap led here ∙ ap some equal) e in ground arith
      | inr differ ↦ differ
    ]

    leader_kept :
        (l g : ℕ) (j : K)
        → (f == g) ≡ false
        → s.threads l ≡ leading j g
        → published.threads l ≡ leading j g
    leader_kept l g j differ e =
        put-elim (λ x. x ≡ leading j g) i l (stored k f r) (λ n. woken f (s.threads n))
          (λ same.
            let again : some f ≡ some g =
              sym (ap led here) ∙ ap (λ n. led (s.threads n)) same ∙ ap led e in
            ground arith)
          (λ other. ap (woken f) e)

    published-Frame : Frame s published
    published-Frame = record {
      asked = λ g j e. e;
      filled = λ g j q a e. elim (Bool-cases (f == g)) [
        | inl same ↦
            let equal : f ≡ g = ground arith in
            absurd (none_ne_some (subst (λ n. s.slots n ≡ none) equal mine.1) e)
        | inr differ ↦ rw differ e
      ];
      manned = λ l j g a e. elim (Bool-cases (f == g)) [
        | inl same ↦ inl (r, rw same refl)
        | inr differ ↦ inr (l, leader_kept l g j differ e)
      ];
    }

    -- A thread that does not publish, and may be woken.
    other-Good :
        (j : ℕ) (x : Thread K R)
        → (i == j) ≡ false
        → s.threads j ≡ x
        → Good s x
        → Good published (woken f x)
    other-Good j idle other e g = tt
    other-Good j (leading m n) other e g =
        let differ = other_flight j n other (ap led e) in
        Good-Kept s published (leading m n) published-Frame
          (refl, put_other f n (some r) s.slots differ) g
    other-Good j (stored m n q) other e g =
        let differ = other_flight j n other (ap led e) in
        Good-Kept s published (stored m n q) published-Frame
          (refl, put_other f n (some r) s.slots differ) g
    other-Good j (looking m n) other e g = Good-Kept s published (looking m n) published-Frame tt g
    other-Good j (waiting m n) other e g = elim (Bool-cases (f == n)) [
      | inl same ↦ rw same (g.0, inl (r, rw same refl))
      | inr differ ↦ rw differ (
          Good-Kept s published (waiting m n) published-Frame
            (put_other f n (some r) s.slots differ, λ l h. leader_kept l n m differ h) g)
    ]
    other-Good j (returned m q) other e g =
        Good-Kept s published (returned m q) published-Frame tt g

    pub published-IsInv : IsInv published
    published-IsInv = record {
      good = λ j.
          put-elim (Good published) i j (stored k f r) (λ n. woken f (s.threads n))
            (λ same. (mine.0, put_same f (some r) s.slots, mine.2))
            (λ other. other-Good j (s.threads j) other refl (v.good j));
      flown = λ j g e. flown-Frame s published j g published-Frame v e;
      fresh = v.fresh;
      one = λ a b g e e'. v.one a b g (sym (led-published a) ∙ e) (sym (led-published b) ∙ e');
    }

pub put_flight_same :
    {K : Type 0} (key : MapKey K) (k m : K) (o : Option ℕ) (flights : K → Option ℕ)
    → key.same k m ≡ true
    → put_flight key k o flights m ≡ o
put_flight_same key k m o flights e = rw e refl

pub put_flight_other :
    {K : Type 0} (key : MapKey K) (k m : K) (o : Option ℕ) (flights : K → Option ℕ)
    → key.same k m ≡ false
    → put_flight key k o flights m ≡ flights m
put_flight_other key k m o flights e = rw e refl

module _ {K R : Type 0} (key : MapKey K) (s : System K R) (i : ℕ) (k : K) where
  -- The state after the flight is taken out of the map.
  abbrev removed : R → System K R
  removed r = record s {
    threads = put i (returned k r) s.threads;
    flights = put_flight key k none s.flights;
  }

  module _ (f : ℕ) (r : R) (v : IsInv s) (here : s.threads i ≡ stored k f r) where
    done : Good s (stored k f r)
    done = subst (Good s) here (v.good i)

    -- The leader of a flight is the only one with its request.
    other_key :
        (j n : ℕ) (m : K)
        → (i == j) ≡ false
        → led (s.threads j) ≡ some n
        → s.flights m ≡ some n
        → key.same k m ≡ false
    other_key j n m other e there = elim (Bool-cases (key.same k m)) [
      | inl same ↦
          let found : s.flights m ≡ some f =
            subst (λ q. s.flights q ≡ some f) (key.same_eq k m same) done.0 in
          let equal : some f ≡ some n = sym found ∙ there in
          let twice = v.one i j n (ap led here ∙ equal) e in ground arith
      | inr differ ↦ differ
    ]

    still_leading :
        (l n : ℕ) (m : K) → s.threads l ≡ leading m n → (removed r).threads l ≡ leading m n
    still_leading l n m e =
        put-elim (λ x. x ≡ leading m n) i l (returned k r) s.threads
          (λ same.
            let both : stored k f r ≡ leading m n = sym here ∙ ap s.threads same ∙ e in
            ground arith)
          (λ other. e)

    removed-Frame : Frame s (removed r)
    removed-Frame = record {
      asked = λ n m e. e;
      filled = λ n m q a e. e;
      manned = λ l m n a e. inr (l, still_leading l n m e);
    }

    removed-Kept :
        (j : ℕ) (x : Thread K R)
        → (i == j) ≡ false
        → s.threads j ≡ x
        → Good s x
        → Kept s (removed r) x
    removed-Kept j idle other e g = tt
    removed-Kept j (leading m n) other e g = (rw (other_key j n m other (ap led e) g.0) refl, refl)
    removed-Kept j (stored m n q) other e g = (rw (other_key j n m other (ap led e) g.0) refl, refl)
    removed-Kept j (looking m n) other e g = tt
    removed-Kept j (waiting m n) other e g = (refl, λ l h. still_leading l n m h)
    removed-Kept j (returned m q) other e g = tt

    still_flown : (m : K) (n : ℕ) → (removed r).flights m ≡ some n → s.flights m ≡ some n
    still_flown m n e = elim (Bool-cases (key.same k m)) [
      | inl same ↦ absurd (none_ne_some (rw same refl) e)
      | inr differ ↦ sym (put_flight_other key k m none s.flights differ) ∙ e
    ]

    left : (j n : ℕ) → led ((removed r).threads j) ≡ some n → led (s.threads j) ≡ some n
    left j n =
        put-elim (λ x. led x ≡ some n → led (s.threads j) ≡ some n) i j (returned k r) s.threads
          (λ same e. absurd (none_ne_some refl e)) (λ other e. e)

    pub removed-IsInv : IsInv (removed r)
    removed-IsInv = record {
      good = λ j.
          put-elim (Good (removed r)) i j (returned k r) s.threads (λ same. (f, done.2, done.1))
            (λ other.
              Good-Kept s (removed r) (s.threads j) removed-Frame
                (removed-Kept j (s.threads j) other refl (v.good j)) (v.good j));
      flown = λ m n e. flown-Frame s (removed r) m n removed-Frame v (still_flown m n e);
      fresh = v.fresh;
      one = λ a b n e e'. v.one a b n (left a n e) (left b n e');
    }
