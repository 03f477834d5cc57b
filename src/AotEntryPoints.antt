-- ===== src/AotEntryPoints.antt =====
-- cli/src/aot_entry_points.rs: the names of the functions in an AOT snapshot, in the form in which a
-- bytecode module calls them. The entries come from serde_json.
pub mod Mangle
mod Examples
use fl_codepush_box.Prelude.{
  ℕ, ◌+◌, ◌-◌, ◌/◌, ◌%◌, Bool, true, false, ◌&&◌, ◌||◌, Option, none, some, List, [], ◌∷◌, ◌++◌,
  if◌then◌else◌, ◌==◌, ltb, leb, Str, codes, starts_with, find, drop, length, join,
}

pub record SizeEntry : Type 0 where
  pub l : Option Str
  pub c : Option Str
  pub n : Str

abbrev pub is_digit : ℕ → Bool
is_digit b = leb 48 b && leb b 57

abbrev pub starts_digit : Str → Bool
starts_digit [] = false
starts_digit (b ∷ s) = is_digit b

-- `bytes[i] as char`, as it is pushed: a byte from 128 on becomes a character of two bytes.
abbrev pub as_char : ℕ → Str
as_char b = if ltb b 128 then b ∷ [] else (192 + b / 64) ∷ (128 + b % 64) ∷ []

-- The loop; `skipping` says that the digits behind an at sign are being skipped.
unfoldable pub strip_from : Bool → Str → Str
strip_from skipping [] = []
strip_from skipping (b ∷ s) =
    let skipped = (skipping && is_digit b) || (b == 64 && starts_digit s) in
    let rest = strip_from skipped s in if skipped then rest else as_char b ++ rest

unfoldable pub strip_mangle : Str → Str
strip_mangle name = strip_from false name

abbrev contains_text : Str → Str → Bool
contains_text pattern s = elim (find pattern s) [ none ↦ false | some _ ↦ true ]

-- The name without its tag.
unfoldable pub untagged : Str → Str
untagged n = elim (find (codes "] ") n) [
  | none ↦ n
  | some idx ↦ (if starts_with (codes "[") n then drop (idx + 2) n else n)
]

unfoldable pub is_addressable : Str → Bool
is_addressable name =
    if starts_with (codes "[tear-off]") name
      || (starts_with (codes "[tear-off-extractor]") name
          || (contains_text (codes "<anonymous closure") name
              || (contains_text (codes "<anonymous") name
                  || (starts_with (codes "Allocate ") name
                      || (starts_with (codes "Type ") name || starts_with (codes "dyn:") name)))))
    then false
    else true

abbrev in_class : Str → Str → Option Str → Str
in_class library member none = library ++ (codes "::" ++ member)
in_class library member (some []) = library ++ (codes "::" ++ member)
in_class library member (some (b ∷ s)) =
    library ++ (codes "::class:" ++ (strip_mangle (b ∷ s) ++ (codes "." ++ member)))

unfoldable pub normalize_name : Str → Option Str → Str → Option Str
normalize_name library class name =
    if is_addressable name
    then (if starts_with (codes "new ") name
        then some (library ++ (codes "::class:" ++ strip_mangle (drop 4 name)))
        else some (in_class library (strip_mangle name) class))
    else none

unfoldable pub normalize_entry : SizeEntry → Option Str
unfolding normalize_name
normalize_entry e = elim e.l [
  | none ↦ none
  | some library ↦ elim library [ [] ↦ none | ◌∷◌ b s ↦ normalize_name (b ∷ s) e.c (untagged e.n) ]
]

-- The ids, of which the source makes a set; `none` is a document that is not JSON of entries.
unfoldable pub filter_entries : List SizeEntry → List Str
filter_entries [] = []
filter_entries (e ∷ es) =
    let rest = filter_entries es in elim (normalize_entry e) [ none ↦ rest | some id ↦ id ∷ rest ]

unfoldable pub parse_gen_snapshot_sizes : Option (List SizeEntry) → Option (List Str)
unfolding filter_entries
parse_gen_snapshot_sizes none = none
parse_gen_snapshot_sizes (some entries) = some (filter_entries entries)
