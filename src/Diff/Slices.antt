-- ===== src/Diff/Slices.antt =====
-- crates/fcb_core/src/diff.rs: when the slices of `apply_simple_diff` stay in range.
use fl_codepush_box.Prelude.{◌+◌, ◌^◌, ◌≤◌, ◌≡◌, refl, Option, none, some, arith, Bytes, err}
use fl_codepush_box.Host.{Host, SimpleBinaryDiff}
use fl_codepush_box.Diff.{slice_to, slice_back, apply_simple_diff, slice_panic}

module _ (h : Host) where
  parsed :
      (base diff_bytes : Bytes) (o : Option SimpleBinaryDiff)
      → h.parse_simple_diff diff_bytes ≡ o
      → apply_simple_diff h base diff_bytes ≡ err slice_panic
      → (diff : SimpleBinaryDiff) × (h.parse_simple_diff diff_bytes ≡ some diff)
        × (2 ^ 64 ≤ diff.prefix_len + diff.suffix_len)
  unfolding apply_simple_diff slice_to slice_back
  parsed base diff_bytes none p e = ground arith
  parsed base diff_bytes (some diff) p e = (diff, p, ground arith)

  -- If applying a simple diff panics, the diff parses, and its prefix and suffix lengths add up to
  -- 2 ^ 64 or more, so that the sum of the range check wraps around.
  pub apply_simple_diff-slice_panic :
      (base diff_bytes : Bytes)
      → apply_simple_diff h base diff_bytes ≡ err slice_panic
      → (diff : SimpleBinaryDiff) × (h.parse_simple_diff diff_bytes ≡ some diff)
        × (2 ^ 64 ≤ diff.prefix_len + diff.suffix_len)
  apply_simple_diff-slice_panic base diff_bytes = parsed base diff_bytes _ refl
