-- ===== src/Ffi/Progress.antt =====
-- updater/src/lib.rs: the text of `.progress`, the length of the part file. `to_string` writes it, and
-- `trim().parse::<u64>()` reads it.
use fl_codepush_box.Prelude.{
  ℕ, zero, suc, ◌+◌, ◌-◌, ◌*◌, ◌/◌, ◌%◌, ◌^◌, ◌<◌, ◌≤◌, ◌≡◌, refl, ap, ◌∙◌, Bool, true, false, ◌&&◌,
  Option, none, some, [], ◌∷◌, ◌++◌, if◌then◌else◌, ◌==◌, ltb, leb, Str, Bytes, is_utf8,
  is_utf8-graphic, trim, digits, decimal64, arith, all_graphic, length, length-append, trim-graphic,
  Bool-cases, inl, inr,
}

abbrev pub u64_max : ℕ
u64_max = 2 ^ 64 - 1

abbrev pub is_digit : ℕ → Bool
is_digit b = leb 48 b && leb b 57

-- The digits from a value on, with the overflow checks of `parse`.
unfoldable pub parse_digits : ℕ → Str → Option ℕ
parse_digits value [] = some value
parse_digits value (b ∷ s) =
    let next = value * 10 + (b - 48) in
    let rest = parse_digits next s in if is_digit b && leb next u64_max then rest else none

-- `parse::<u64>().ok()`: a sign is allowed, and no text without digits.
unfoldable pub parse_u64 : Str → Option ℕ
parse_u64 [] = none
parse_u64 (b ∷ []) = if b == 43 then none else parse_digits 0 (b ∷ [])
parse_u64 (b ∷ c ∷ s) = if b == 43 then parse_digits 0 (c ∷ s) else parse_digits 0 (b ∷ c ∷ s)

-- `read_to_string`, and `trim().parse()` of what it reads.
unfoldable pub parse_progress : Bytes → Option ℕ
parse_progress text = if is_utf8 text then parse_u64 (trim text) else none

abbrev pub ten : ℕ → ℕ
ten zero = 1
ten (suc n) = 10 * ten n

abbrev all_digits : Str → Bool
all_digits [] = true
all_digits (b ∷ s) = is_digit b && all_digits s

all_digits-append :
    (x y : Str) → all_digits x ≡ true → all_digits y ≡ true → all_digits (x ++ y) ≡ true
all_digits-append [] y e f = f
all_digits-append (b ∷ x) y e f = ground (arith, all_digits-append x y)

all_digits-all_graphic : (s : Str) → all_digits s ≡ true → all_graphic s ≡ true
all_digits-all_graphic [] e = refl
all_digits-all_graphic (b ∷ s) e = ground (arith, all_digits-all_graphic s)

digits-all_digits : (fuel n : ℕ) → all_digits (digits fuel n) ≡ true
unfolding digits
digits-all_digits zero n = refl
digits-all_digits (suc fuel) n =
    let more = digits-all_digits fuel (n / 10) in
    let small : n % 10 < 10 = omega arith in
    let last : all_digits ((48 + n % 10) ∷ []) ≡ true = ground arith in
    elim (Bool-cases (ltb n 10)) [
      | inl e ↦ rw e (ground arith)
      | inr e ↦ rw e (all_digits-append (digits fuel (n / 10)) _ more last)
    ]

parse_digits-append :
    (value mid d : ℕ) (x : Str)
    → parse_digits value x ≡ some mid
    → d < 10
    → mid * 10 + d ≤ u64_max
    → parse_digits value (x ++ (48 + d) ∷ []) ≡ some (mid * 10 + d)
unfolding parse_digits
parse_digits-append value mid d [] e small fits = ground arith
parse_digits-append value mid d (b ∷ x) e small fits =
    let rest = parse_digits-append (value * 10 + (b - 48)) mid d x in ground arith

pub parse_digits-digits :
    (fuel n : ℕ) → n < ten (suc fuel) → n ≤ u64_max → parse_digits 0 (digits (suc fuel) n) ≡ some n
unfolding digits parse_digits
parse_digits-digits zero n small fits = ground arith
parse_digits-digits (suc fuel) n small fits =
    let more : parse_digits 0 (digits (suc fuel) (n / 10)) ≡ some (n / 10) =
      parse_digits-digits fuel (n / 10) (omega arith) (omega arith) in
    let whole : n / 10 * 10 + n % 10 ≡ n = omega arith in
    let step =
      parse_digits-append 0 (n / 10) (n % 10) (digits (suc fuel) (n / 10)) more (omega arith)
        (omega arith) in
    elim (Bool-cases (ltb n 10)) [
      | inl e ↦ rw e (ground arith)
      | inr e ↦ rw e (step ∙ ap some whole)
    ]

digits-length : (fuel n : ℕ) → 0 < length (digits (suc fuel) n)
unfolding digits
digits-length fuel n =
    let long = length-append (digits fuel (n / 10)) ((48 + n % 10) ∷ []) in ground (arith, long)

parse_u64-parse_digits :
    (s : Str) → all_digits s ≡ true → 0 < length s → parse_u64 s ≡ parse_digits 0 s
unfolding parse_u64
parse_u64-parse_digits [] e long = ground arith
parse_u64-parse_digits (b ∷ []) e long =
    let other : (b == 43) ≡ false = ground arith in rw other refl
parse_u64-parse_digits (b ∷ c ∷ s) e long =
    let other : (b == 43) ≡ false = ground arith in rw other refl

-- The length that is written as the progress of a download is the length that is read, for every
-- `u64`.
pub parse_progress-decimal64 : (n : ℕ) → n ≤ u64_max → parse_progress (decimal64 n) ≡ some n
unfolding parse_progress decimal64
parse_progress-decimal64 n fits =
    let good = digits-all_digits 20 n in
    let shown = all_digits-all_graphic (digits 20 n) good in
    rw (is_utf8-graphic (digits 20 n) shown, trim-graphic (digits 20 n) shown)
      (parse_u64-parse_digits (digits 20 n) good (digits-length 19 n)
        ∙ parse_digits-digits 19 n (omega arith) fits)
