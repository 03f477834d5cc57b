-- ===== src/Prelude/Membership.antt =====
-- Membership among numbers as a Boolean test (`contains`) and as the family that it decides.
use Prim.Native.Nat.{ℕ}
use mathlib.Core.Path.{◌≡◌, refl}
use mathlib.Core.Bool.{Bool, true, false, ◌||◌}
use mathlib.Core.List.{List, [], ◌∷◌, ◌++◌}
use native.Mathlib.Omega.{arith}
use fl_codepush_box.Prelude.Tests.{◌==◌}

-- `Vec::contains` and `BTreeSet::contains` on numbers.
abbrev pub contains : List ℕ → ℕ → Bool
contains [] a = false
contains (x ∷ xs) a = x == a || contains xs a

pub contains-append :
    (xs ys : List ℕ) (a : ℕ) → contains (xs ++ ys) a ≡ (contains xs a || contains ys a)
contains-append [] ys a = refl
contains-append (x ∷ xs) ys a = ground (arith, contains-append xs ys a)

pub contains-append_right :
    (xs ys : List ℕ) (a : ℕ) → contains ys a ≡ true → contains (xs ++ ys) a ≡ true
contains-append_right xs ys a h = ground (arith, contains-append xs ys a)
