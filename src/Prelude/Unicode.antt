-- ===== src/Prelude/Unicode.antt =====
-- `String::from_utf8` and `trim().is_empty()` on the bytes of a text, as automata over its bytes.
use Prim.Native.Nat.{ℕ}
use mathlib.Core.Path.{◌≡◌, refl}
use mathlib.Core.Bool.{Bool, true, false, ◌&&◌, ◌||◌}
use mathlib.Core.List.{[], ◌∷◌}
use native.Mathlib.Omega.{arith}
use fl_codepush_box.Prelude.Tests.{◌==◌, leb, if◌then◌else◌}
use fl_codepush_box.Prelude.Text.{Bytes, Str, codes}

abbrev within : ℕ → ℕ → ℕ → Bool
within lo hi b = leb lo b && leb b hi

-- Where a byte stands: at the start of a character, or with so many continuation bytes to come,
-- the next of which may be restricted.
pub data Utf8State : Type 0 where
  start one two three after_e0 after_ed after_f0 after_f4 invalid : Utf8State

first_byte : ℕ → Utf8State
first_byte b =
    if leb b 0x7f
    then start
    else if within 0xc2 0xdf b
    then one
    else if b == 0xe0
    then after_e0
    else if b == 0xed
    then after_ed
    else if within 0xe1 0xef b
    then two
    else if b == 0xf0
    then after_f0
    else if within 0xf1 0xf3 b
    then three
    else if b == 0xf4
    then after_f4
    else invalid

utf8_step : Utf8State → ℕ → Utf8State
utf8_step start b = first_byte b
utf8_step one b = if within 0x80 0xbf b then start else invalid
utf8_step two b = if within 0x80 0xbf b then one else invalid
utf8_step three b = if within 0x80 0xbf b then two else invalid
utf8_step after_e0 b = if within 0xa0 0xbf b then one else invalid
utf8_step after_ed b = if within 0x80 0x9f b then one else invalid
utf8_step after_f0 b = if within 0x90 0xbf b then two else invalid
utf8_step after_f4 b = if within 0x80 0x8f b then two else invalid
utf8_step invalid b = invalid

utf8_from : Utf8State → Bytes → Bool
utf8_from start [] = true
utf8_from _ [] = false
utf8_from s (b ∷ bs) = utf8_from (utf8_step s b) bs

-- Whether `String::from_utf8` accepts the bytes.
unfoldable pub is_utf8 : Bytes → Bool
unfolding utf8_from utf8_step first_byte
is_utf8 bs = utf8_from start bs

-- The characters of `char::is_whitespace`: U+0009 to U+000D, U+0020, U+0085, U+00A0, U+1680,
-- U+2000 to U+200A, U+2028, U+2029, U+202F, U+205F and U+3000.
pub data BlankState : Type 0 where
  between after_c2 after_e1 after_e1_9a after_e2 after_e2_80 after_e2_81 : BlankState
  after_e3 after_e3_80 visible : BlankState

blank_first : ℕ → BlankState
blank_first b =
    if within 0x09 0x0d b || b == 0x20
    then between
    else if b == 0xc2
    then after_c2
    else if b == 0xe1
    then after_e1
    else if b == 0xe2
    then after_e2
    else if b == 0xe3
    then after_e3
    else visible

blank_step : BlankState → ℕ → BlankState
blank_step between b = blank_first b
blank_step after_c2 b = if b == 0x85 || b == 0xa0 then between else visible
blank_step after_e1 b = if b == 0x9a then after_e1_9a else visible
blank_step after_e1_9a b = if b == 0x80 then between else visible
blank_step after_e2 b =
    if b == 0x80 then after_e2_80 else if b == 0x81 then after_e2_81 else visible
blank_step after_e2_80 b =
    if within 0x80 0x8a b || b == 0xa8 || b == 0xa9 || b == 0xaf then between else visible
blank_step after_e2_81 b = if b == 0x9f then between else visible
blank_step after_e3 b = if b == 0x80 then after_e3_80 else visible
blank_step after_e3_80 b = if b == 0x80 then between else visible
blank_step visible b = visible

blank_from : BlankState → Str → Bool
blank_from between [] = true
blank_from _ [] = false
blank_from s (b ∷ bs) = blank_from (blank_step s b) bs

-- `s.trim().is_empty()`
unfoldable pub is_blank : Str → Bool
unfolding blank_from blank_step blank_first
is_blank s = blank_from between s

abbrev is_visible : BlankState → Bool
is_visible visible = true
is_visible _ = false

-- `held` begins with the character that the state is in.
skip_blank : BlankState → Str → Str → Str
skip_blank between held [] = []
skip_blank _ held [] = held
skip_blank between held (b ∷ bs) =
    let next = blank_step between b in
    let rest = skip_blank next (b ∷ bs) bs in if is_visible next then b ∷ bs else rest
skip_blank s held (b ∷ bs) =
    let next = blank_step s b in
    let rest = skip_blank next held bs in if is_visible next then held else rest

-- `trim_start` and `trim`: no character of white space has a continuation byte for its first.
unfoldable pub trim_start : Str → Str
unfolding skip_blank blank_step blank_first
trim_start s = skip_blank between s s

unfoldable pub trim_end : Str → Str
trim_end [] = []
trim_end (b ∷ s) = let rest = trim_end s in if is_blank (b ∷ s) then [] else b ∷ rest

unfoldable pub trim : Str → Str
trim s = trim_end (trim_start s)

blank_from-visible : (s : Str) → blank_from visible s ≡ false
unfolding blank_from blank_step
blank_from-visible [] = refl
blank_from-visible (b ∷ s) = blank_from-visible s

-- The printable characters of ASCII are not white space.
abbrev pub is_graphic : ℕ → Bool
is_graphic b = leb 33 b && leb b 126

blank_first-graphic : (b : ℕ) → is_graphic b ≡ true → blank_first b ≡ visible
unfolding blank_first
blank_first-graphic b e = ground arith

is_blank-graphic : (b : ℕ) (s : Str) → is_graphic b ≡ true → is_blank (b ∷ s) ≡ false
unfolding is_blank blank_from blank_step
is_blank-graphic b s e = rw (blank_first-graphic b e) (blank_from-visible s)

trim_start-graphic : (b : ℕ) (s : Str) → is_graphic b ≡ true → trim_start (b ∷ s) ≡ b ∷ s
unfolding trim_start skip_blank blank_step
trim_start-graphic b s e = rw (blank_first-graphic b e) refl

abbrev pub all_graphic : Str → Bool
all_graphic [] = true
all_graphic (b ∷ s) = is_graphic b && all_graphic s

trim_end-graphic : (s : Str) → all_graphic s ≡ true → trim_end s ≡ s
unfolding trim_end
trim_end-graphic [] e = refl
trim_end-graphic (b ∷ s) e =
    let shown = is_blank-graphic b s (ground arith) in
    let same = trim_end-graphic s (ground arith) in rw (shown, same) refl

pub trim-graphic : (s : Str) → all_graphic s ≡ true → trim s ≡ s
unfolding trim trim_start skip_blank trim_end
trim-graphic [] e = refl
trim-graphic (b ∷ s) e = rw (trim_start-graphic b s (ground arith)) (trim_end-graphic (b ∷ s) e)

first_byte-graphic : (b : ℕ) → is_graphic b ≡ true → first_byte b ≡ start
unfolding first_byte
first_byte-graphic b e = ground arith

utf8_from-graphic : (s : Str) → all_graphic s ≡ true → utf8_from start s ≡ true
unfolding utf8_from utf8_step
utf8_from-graphic [] e = refl
utf8_from-graphic (b ∷ s) e =
    rw (first_byte-graphic b (ground arith)) (utf8_from-graphic s (ground arith))

pub is_utf8-graphic : (s : Str) → all_graphic s ≡ true → is_utf8 s ≡ true
unfolding is_utf8
is_utf8-graphic s e = utf8_from-graphic s e

unicode_examples :
    (is_utf8 (0xe2 ∷ 0x82 ∷ 0xac ∷ 0x41 ∷ []) ≡ true)
    × (is_utf8 (0xed ∷ 0xa0 ∷ 0x80 ∷ []) ≡ false)
    × (is_utf8 (0xc0 ∷ 0x80 ∷ []) ≡ false)
    × (is_blank (0x20 ∷ 0xe3 ∷ 0x80 ∷ 0x80 ∷ 0x09 ∷ []) ≡ true)
    × (is_blank (codes " a ") ≡ false)
    × (trim (0x20 ∷ 0xe3 ∷ 0x80 ∷ 0x80 ∷ 0xe2 ∷ 0x82 ∷ 0xac ∷ 0x20 ∷ 0x41 ∷ 0xc2 ∷ 0xa0 ∷ [])
        ≡ 0xe2 ∷ 0x82 ∷ 0xac ∷ 0x20 ∷ 0x41 ∷ [])
unfolding is_utf8 is_blank trim trim_start trim_end
unicode_examples = (refl, refl, refl, refl, refl, refl)
