-- ===== src/Prelude/Paths.antt =====
-- Decimal numbers and Unix paths, as `to_string` and `Path::join` make them.
use Prim.Native.Nat.{ℕ, zero, suc, ◌+◌, ◌/◌, ◌%◌}
use mathlib.Core.Bool.{Bool, false}
use mathlib.Core.List.{[], ◌∷◌, ◌++◌}
use fl_codepush_box.Prelude.Tests.{ltb, ◌==◌, if◌then◌else◌}
use fl_codepush_box.Prelude.Text.{Str, codes, starts_with}

unfoldable pub digits : ℕ → ℕ → Str
digits zero n = []
digits (suc fuel) n =
    let more = digits fuel (n / 10) in
    if ltb n 10 then (48 + n) ∷ [] else more ++ (48 + n % 10) ∷ []

-- Ten digits are enough for a `u32`, and twenty for a `u64`.
unfoldable pub decimal : ℕ → Str
unfolding digits
decimal n = digits 10 n

unfoldable pub decimal64 : ℕ → Str
unfolding digits
decimal64 n = digits 20 n

ends_in_slash : Str → Bool
ends_in_slash [] = false
ends_in_slash (b ∷ []) = b == 47
ends_in_slash (b ∷ c ∷ s) = ends_in_slash (c ∷ s)

joined : Str → Str → Str
unfolding ends_in_slash
joined [] b = b
joined (x ∷ a) b = if ends_in_slash (x ∷ a) then (x ∷ a) ++ b else (x ∷ a) ++ 47 ∷ b

-- `Path::join`: an absolute path takes the place of the one before it.
unfoldable pub join : Str → Str → Str
unfolding joined
join a b = if starts_with (codes "/") b then b else joined a b
