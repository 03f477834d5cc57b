-- ===== src/Ffi/Flights/Inv.antt =====
-- updater/src/lib.rs: the invariant of the single-flight check.
use fl_codepush_box.Prelude.{ℕ, ◌≤◌, ◌≡◌, ◌⊎◌, inl, inr, Option, none, some, ◌∙◌}
use fl_codepush_box.Ffi.Flights.{Thread, idle, leading, stored, looking, waiting, returned, System}

module _ {K R : Type 0} where
  -- The flight has its result, or a leader is at work for it.
  abbrev pub IsManned : System K R → K → ℕ → Type 0
  IsManned s k f = ((r : R) × (s.slots f ≡ some r)) ⊎ ((l : ℕ) × (s.threads l ≡ leading k f))

  abbrev pub Good : System K R → Thread K R → Type 0
  Good s idle = Unit
  Good s (leading k f) = (s.flights k ≡ some f) × (s.slots f ≡ none) × (s.asked f ≡ some k)
  Good s (stored k f r) = (s.flights k ≡ some f) × (s.slots f ≡ some r) × (s.asked f ≡ some k)
  Good s (looking k f) = (s.asked f ≡ some k) × IsManned s k f
  Good s (waiting k f) =
      (s.asked f ≡ some k) × (s.slots f ≡ none) × (l : ℕ) × (s.threads l ≡ leading k f)
  Good s (returned k r) = (f : ℕ) × (s.asked f ≡ some k) × (s.slots f ≡ some r)

  -- The flight that a thread leads.
  abbrev pub led : Thread K R → Option ℕ
  led (leading k f) = some f
  led (stored k f r) = some f
  led _ = none

  pub record IsInv (s : System K R) : Type 0 where
    pub good : (i : ℕ) → Good s (s.threads i)
    pub flown : (k : K) (f : ℕ) → s.flights k ≡ some f → (s.asked f ≡ some k) × IsManned s k f
    pub fresh : (f : ℕ) → s.next ≤ f → s.asked f ≡ none
    pub one : (i j f : ℕ) → led (s.threads i) ≡ some f → led (s.threads j) ≡ some f → i ≡ j

  -- What a step keeps, whichever thread is looked at.
  pub record Frame (s t : System K R) : Type 0 where
    pub asked : (f : ℕ) (k : K) → s.asked f ≡ some k → t.asked f ≡ some k
    pub filled :
        (f : ℕ) (k : K) (r : R) → s.asked f ≡ some k → s.slots f ≡ some r → t.slots f ≡ some r
    pub manned :
        (l : ℕ) (k : K) (f : ℕ) → s.asked f ≡ some k → s.threads l ≡ leading k f → IsManned t k f

  pub Frame-IsManned :
      (s t : System K R) (k : K) (f : ℕ)
      → Frame s t
      → s.asked f ≡ some k
      → IsManned s k f
      → IsManned t k f
  Frame-IsManned s t k f w a (inl (r, e)) = inl (r, w.filled f k r a e)
  Frame-IsManned s t k f w a (inr (l, e)) = w.manned l k f a e

  -- What it keeps for a thread that it does not touch.
  abbrev pub Kept : System K R → System K R → Thread K R → Type 0
  Kept s t (leading k f) = (t.flights k ≡ s.flights k) × (t.slots f ≡ s.slots f)
  Kept s t (stored k f r) = (t.flights k ≡ s.flights k) × (t.slots f ≡ s.slots f)
  Kept s t (waiting k f) =
      (t.slots f ≡ s.slots f) × ((l : ℕ) → s.threads l ≡ leading k f → t.threads l ≡ leading k f)
  Kept s t _ = Unit

  pub Good-Kept : (s t : System K R) (x : Thread K R) → Frame s t → Kept s t x → Good s x → Good t x
  Good-Kept s t idle w k g = tt
  Good-Kept s t (leading j f) w (k, l) (a, b, c) = (k ∙ a, l ∙ b, w.asked f j c)
  Good-Kept s t (stored j f r) w (k, l) (a, b, c) = (k ∙ a, l ∙ b, w.asked f j c)
  Good-Kept s t (looking j f) w k (a, b) = (w.asked f j a, Frame-IsManned s t j f w a b)
  Good-Kept s t (waiting j f) w (k, l) (a, b, m, c) = (w.asked f j a, k ∙ b, m, l m c)
  Good-Kept s t (returned j r) w k (f, a, b) = (f, w.asked f j a, w.filled f j r a b)

  pub flown-Frame :
      (s t : System K R) (k : K) (f : ℕ)
      → Frame s t
      → IsInv s
      → s.flights k ≡ some f
      → (t.asked f ≡ some k) × IsManned t k f
  flown-Frame s t k f w v e =
      let (a, m) = v.flown k f e in (w.asked f k a, Frame-IsManned s t k f w a m)
