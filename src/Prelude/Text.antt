-- ===== src/Prelude/Text.antt =====
-- A Rust `String` or `&str` is the list of its UTF-8 bytes, so that `len`, slicing and `as_bytes`
-- are those of the list. The tests are those of `str`: equality, `starts_with` and `find`.
use Prim.Native.Nat.{ℕ, ◌+◌}
use Prim.Native.Char.{code}
use Prim.Native.String.{String}
use mathlib.Core.Path.{◌≡◌, refl}
use mathlib.Core.Bool.{Bool, true, false, ◌&&◌, ◌||◌}
use mathlib.Core.List.{List, [], ◌∷◌, ◌++◌}
use mathlib.Core.Option.{Option, none, some}
use native.Mathlib.Omega.{arith}
use fl_codepush_box.Prelude.Tests.{◌==◌, if◌then◌else◌}

abbrev pub Bytes : Type 0
Bytes = List ℕ

abbrev pub Str : Type 0
Str = List ℕ

-- The bytes of an ASCII literal.
abbrev pub codes : String → Str
codes String.[] = []
codes (String.◌∷◌ c s) = code c ∷ codes s

abbrev pub bytes_eq : Bytes → Bytes → Bool
bytes_eq [] [] = true
bytes_eq (a ∷ x) (b ∷ y) = a == b && bytes_eq x y
bytes_eq _ _ = false

pub bytes_eq-eq : (x y : Bytes) → bytes_eq x y ≡ true → x ≡ y
bytes_eq-eq [] [] h = refl
bytes_eq-eq [] (b ∷ y) h = ground arith
bytes_eq-eq (a ∷ x) [] h = ground arith
bytes_eq-eq (a ∷ x) (b ∷ y) h = ground (arith, bytes_eq-eq x y)

pub bytes_eq_refl : (x : Bytes) → bytes_eq x x ≡ true
bytes_eq_refl [] = refl
bytes_eq_refl (a ∷ x) = ground (arith, bytes_eq_refl x)

-- `x.starts_with(p)`, the prefix first.
abbrev pub starts_with : Bytes → Bytes → Bool
starts_with [] x = true
starts_with (a ∷ p) [] = false
starts_with (a ∷ p) (b ∷ x) = a == b && starts_with p x

-- What stands behind the first occurrence of the pattern, with the position where it begins.
abbrev pub find : Bytes → Bytes → Option ℕ
find p [] = if starts_with p [] then some 0 else none
find p (b ∷ x) =
    let later = find p x in
    if starts_with p (b ∷ x) then some 0 else (elim later [ none ↦ none | some i ↦ some (i + 1) ])

-- A set of texts, as a list: `BTreeSet::contains`.
abbrev pub contains_str : List Str → Str → Bool
contains_str [] k = false
contains_str (j ∷ ks) k = bytes_eq j k || contains_str ks k

abbrev push_byte : ℕ → List Str → List Str
push_byte b [] = (b ∷ []) ∷ []
push_byte b (l ∷ ls) = (b ∷ l) ∷ ls

-- `str::lines`: a line ends with a line feed, or with a carriage return before it.
unfoldable pub lines : Str → List Str
lines [] = []
lines (b ∷ s) =
    let rest = lines s in
    if b == 10
    then [] ∷ rest
    else if b == 13 && starts_with (10 ∷ []) s
    then rest
    else push_byte b rest

-- `filter(|line| !line.starts_with("-----"))`
abbrev pub without_armor : List Str → List Str
without_armor [] = []
without_armor (l ∷ ls) =
    let rest = without_armor ls in if starts_with (codes "-----") l then rest else l ∷ rest

-- `collect::<String>()`
abbrev pub concat_lines : List Str → Str
concat_lines [] = []
concat_lines (l ∷ ls) = l ++ concat_lines ls
