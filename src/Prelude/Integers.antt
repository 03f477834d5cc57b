-- ===== src/Prelude/Integers.antt =====
-- The integers over the native numbers, and the C type `int`.
use Prim.Native.Nat.{ℕ, ◌-◌, ◌^◌}
use mathlib.Core.Bool.{Bool}
use fl_codepush_box.Prelude.Tests.{leb}

pub data ℤ : Type 0 where
  pos negsuc : ℕ → ℤ

-- `c_int::MAX`
abbrev pub c_int_max : ℕ
c_int_max = 2 ^ 31 - 1

-- Whether an `int` of C holds the number.
abbrev pub in_c_int : ℤ → Bool
in_c_int (pos n) = leb n c_int_max
in_c_int (negsuc n) = leb n c_int_max
