-- ===== src/AotEntryPoints/Mangle.antt =====
-- cli/src/aot_entry_points.rs: `strip_mangle` leaves no mangling.
use fl_codepush_box.Prelude.{
  ℕ, ◌≡◌, refl, ap, Bool, true, false, not, ◌&&◌, ◌||◌, [], ◌∷◌, ◌++◌, ◌==◌, ltb, Str, Bool-cases,
  inl, inr, arith,
}
use fl_codepush_box.AotEntryPoints.{is_digit, starts_digit, as_char, strip_from, strip_mangle}

-- No at sign stands before a digit.
abbrev pub is_unmangled : Str → Bool
is_unmangled [] = true
is_unmangled (b ∷ s) = not (b == 64 && starts_digit s) && is_unmangled s

abbrev pub is_ascii : Str → Bool
is_ascii [] = true
is_ascii (b ∷ s) = ltb b 128 && is_ascii s

-- Whether the loop skips a byte.
abbrev skips : Bool → ℕ → Str → Bool
skips skipping b s = (skipping && is_digit b) || (b == 64 && starts_digit s)

starts_digit-as_char :
    (b : ℕ) (s : Str) → is_digit b ≡ false → starts_digit (as_char b ++ s) ≡ false
starts_digit-as_char b s e = elim (Bool-cases (ltb b 128)) [
  | inl small ↦ rw small e
  | inr large ↦ rw large (ground arith)
]

-- Behind skipped digits, and behind a byte that is not followed by a digit, no digit is left.
starts_digit-skipping : (s : Str) → starts_digit (strip_from true s) ≡ false
unfolding strip_from
starts_digit-skipping [] = refl
starts_digit-skipping (b ∷ s) = elim (Bool-cases (skips true b s)) [
  | inl e ↦ rw e (starts_digit-skipping s)
  | inr e ↦ rw e (starts_digit-as_char b _ (ground arith))
]

starts_digit-kept : (s : Str) → starts_digit s ≡ false → starts_digit (strip_from false s) ≡ false
unfolding strip_from
starts_digit-kept [] h = refl
starts_digit-kept (b ∷ s) h = elim (Bool-cases (skips false b s)) [
  | inl e ↦ rw e (starts_digit-skipping s)
  | inr e ↦ rw e (starts_digit-as_char b (strip_from false s) h)
]

is_unmangled-as_char :
    (b : ℕ) (s : Str)
    → (b == 64 && starts_digit s) ≡ false
    → is_unmangled s ≡ true
    → is_unmangled (as_char b ++ s) ≡ true
is_unmangled-as_char b s h u = elim (Bool-cases (ltb b 128)) [
  | inl small ↦ rw small (ground arith)
  | inr large ↦ rw large (ground arith)
]

strip_from-unmangled : (skipping : Bool) (s : Str) → is_unmangled (strip_from skipping s) ≡ true
unfolding strip_from
strip_from-unmangled skipping [] = refl
strip_from-unmangled skipping (b ∷ s) = elim (Bool-cases (skips skipping b s)) [
  | inl e ↦ rw e (strip_from-unmangled true s)
  | inr e ↦
      let later : (b == 64 && starts_digit (strip_from false s)) ≡ false =
        elim (Bool-cases (starts_digit s)) [
          | inl d ↦ ground arith
          | inr d ↦ let kept = starts_digit-kept s d in ground arith
        ] in
      rw e (is_unmangled-as_char b (strip_from false s) later (strip_from-unmangled false s))
]

is_ascii-strip_from :
    (skipping : Bool) (s : Str) → is_ascii s ≡ true → is_ascii (strip_from skipping s) ≡ true
unfolding strip_from
is_ascii-strip_from skipping [] h = refl
is_ascii-strip_from skipping (b ∷ s) h = elim (Bool-cases (skips skipping b s)) [
  | inl e ↦ rw e (is_ascii-strip_from true s (ground arith))
  | inr e ↦
      let small : ltb b 128 ≡ true = ground arith in
      let rest = is_ascii-strip_from false s (ground arith) in
      rw (e, small) (ground (arith, rest, small))
]

strip_from-same : (s : Str) → is_ascii s ≡ true → is_unmangled s ≡ true → strip_from false s ≡ s
unfolding strip_from
strip_from-same [] a u = refl
strip_from-same (b ∷ s) a u =
    let kept : skips false b s ≡ false = ground arith in
    let small : ltb b 128 ≡ true = ground arith in
    rw (kept, small) (ap (λ t. b ∷ t) (strip_from-same s (ground arith) (ground arith)))

-- A stripped ASCII name has no at sign before a digit, and a second stripping does not change it.
pub strip_mangle_lem :
    (s : Str)
    → is_ascii s ≡ true
    → (is_unmangled (strip_mangle s) ≡ true) × (strip_mangle (strip_mangle s) ≡ strip_mangle s)
unfolding strip_mangle
strip_mangle_lem s a = (
  strip_from-unmangled false s,
  strip_from-same (strip_from false s) (is_ascii-strip_from false s a)
      (strip_from-unmangled false s),
)
