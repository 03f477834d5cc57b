-- ===== src/Ffi/Flights/Quiet.antt =====
-- updater/src/lib.rs: the steps of the single-flight check that change one thread only, which leads no
-- flight: entering as a follower, looking at the slot, and waking up.
use fl_codepush_box.Prelude.{
  ℕ, ◌≡◌, refl, ap, ◌∙◌, inl, inr, false, none, some, ◌==◌, ==_refl, Bool-cases, arith,
}
use fl_codepush_box.Ffi.Flights.{
  Thread, idle, leading, stored, looking, waiting, returned, System, put,
}
use fl_codepush_box.Ffi.Flights.Inv.{
  IsManned, Good, led, IsInv, Frame, Kept, Good-Kept, Frame-IsManned, flown-Frame,
}

pub put_same : {A : Type 0} (i : ℕ) (a : A) (m : ℕ → A) → put i a m i ≡ a
put_same i a m = rw (==_refl i) refl

pub put_other : {A : Type 0} (i j : ℕ) (a : A) (m : ℕ → A) → (i == j) ≡ false → put i a m j ≡ m j
put_other i j a m e = rw e refl

-- A property of the thread at a place after the change.
pub put-elim :
    {A : Type 0} (P : A → Type 0) (i j : ℕ) (a : A) (m : ℕ → A)
    → (i ≡ j → P a)
    → ((i == j) ≡ false → P (m j))
    → P (put i a m j)
put-elim P i j a m here there = elim (Bool-cases (i == j)) [
  | inl e ↦ rw e (here (ground arith))
  | inr e ↦ rw e (there e)
]

module _ {K R : Type 0} (s : System K R) (i : ℕ) (y : Thread K R)
    (unled : led (s.threads i) ≡ none) where
  pub leader_stays :
      (l f : ℕ) (k : K) → s.threads l ≡ leading k f → put i y s.threads l ≡ leading k f
  leader_stays l f k e =
      put-elim (λ x. x ≡ leading k f) i l y s.threads
        (λ same.
          let led_here : led (s.threads i) ≡ some f = ap (λ n. led (s.threads n)) same ∙ ap led e in
          absurd (ground (arith, unled, led_here)))
        (λ other. e)

  pub led_before :
      (j f : ℕ) → led y ≡ none → led (put i y s.threads j) ≡ some f → led (s.threads j) ≡ some f
  led_before j f quiet =
      put-elim (λ x. led x ≡ some f → led (s.threads j) ≡ some f) i j y s.threads
        (λ same e. absurd (ground (arith, quiet, e))) (λ other e. e)

  abbrev changed : System K R
  changed = record s { threads = put i y s.threads }

  changed-Frame : Frame s changed
  changed-Frame = record {
    asked = λ f k e. e;
    filled = λ f k r a e. e;
    manned = λ l k f a e. inr (l, leader_stays l f k e);
  }

  changed-Kept : (x : Thread K R) → Kept s changed x
  changed-Kept idle = tt
  changed-Kept (leading k f) = (refl, refl)
  changed-Kept (stored k f r) = (refl, refl)
  changed-Kept (looking k f) = tt
  changed-Kept (waiting k f) = (refl, λ l e. leader_stays l f k e)
  changed-Kept (returned k r) = tt

  pub changed-IsInv : IsInv s → led y ≡ none → Good changed y → IsInv changed
  changed-IsInv v quiet g = record {
    good = λ j.
        put-elim (Good changed) i j y s.threads (λ e. g)
          (λ e.
            Good-Kept s changed (s.threads j) changed-Frame (changed-Kept (s.threads j))
              (v.good j));
    flown = λ k f e. flown-Frame s changed k f changed-Frame v e;
    fresh = v.fresh;
    one = λ a b f e e'. v.one a b f (led_before a f quiet e) (led_before b f quiet e');
  }

  pub changed-IsManned :
      (k : K) (f : ℕ) → s.asked f ≡ some k → IsManned s k f → IsManned changed k f
  changed-IsManned k f a m = Frame-IsManned s changed k f changed-Frame a m
