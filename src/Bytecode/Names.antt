-- ===== src/Bytecode/Names.antt =====
-- crates/fcb_core/src/bytecode.rs: `count_named_arguments`, on call metadata "…;named:a,b".
use fl_codepush_box.Prelude.{
  ℕ, suc, ◌+◌, ◌≡◌, refl, Bool, true, false, not, ◌&&◌, Option, none, some, List, [], ◌∷◌,
  if◌then◌else◌, ◌==◌, Str, codes, find, length, drop,
}

abbrev pub marker : Str
marker = codes ";named:"

push_front : ℕ → List Str → List Str
push_front b [] = (b ∷ []) ∷ []
push_front b (p ∷ ps) = (b ∷ p) ∷ ps

-- `s.split(sep)` for one byte
pub split : ℕ → Str → List Str
unfolding push_front
split sep [] = [] ∷ []
split sep (b ∷ s) = let rest = split sep s in if b == sep then [] ∷ rest else push_front b rest

-- `.filter(|name| !name.is_empty()).count()`
pub count_nonempty : List Str → ℕ
count_nonempty [] = 0
count_nonempty ([] ∷ ps) = count_nonempty ps
count_nonempty ((b ∷ p) ∷ ps) = suc (count_nonempty ps)

named_after : Str → Bool → Option ℕ → ℕ
named_after metadata require_prefix none = 0
named_after metadata require_prefix (some start) =
    if require_prefix && not (start == 0)
    then 0
    else count_nonempty (split b',' (drop (start + length marker) metadata))

unfoldable pub count_named_arguments : Str → Bool → ℕ
unfolding named_after split count_nonempty
count_named_arguments metadata require_prefix =
    named_after metadata require_prefix (find marker metadata)

named_example :
    (count_named_arguments (codes "f;named:a,,b") false ≡ 2)
    × (count_named_arguments (codes "f;named:a,b") true ≡ 0)
    × (count_named_arguments (codes "plain") false ≡ 0)
unfolding count_named_arguments
named_example = (refl, refl, refl)
