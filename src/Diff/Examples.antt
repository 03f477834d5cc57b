-- ===== src/Diff/Examples.antt =====
-- Concrete diffs of crates/fcb_core/src/diff.rs.
use fl_codepush_box.Prelude.{◌+◌, ◌≤◌, ◌^◌, ◌≡◌, refl, some, [], ◌∷◌, ok, err, arith}
use fl_codepush_box.Host.{SimpleBinaryDiff}
use fl_codepush_box.Host.Example.{example_host, example_host-DecodesText}
use fl_codepush_box.Diff.{
  create_simple_diff, apply_simple_diff, simple_diff_algorithm, slice_to, slice_back, slice_panic,
}
use fl_codepush_box.Diff.Simple.{apply_simple_diff-create_simple_diff}
use fl_codepush_box.Diff.Slices.{apply_simple_diff-slice_panic}

apply_simple_diff-create_simple_diff_example :
    apply_simple_diff example_host
      (1 ∷ 2 ∷ 3 ∷ [])
      (create_simple_diff example_host (1 ∷ 2 ∷ 3 ∷ []) (1 ∷ 9 ∷ 3 ∷ []))
    ≡ ok (1 ∷ 9 ∷ 3 ∷ [])
apply_simple_diff-create_simple_diff_example =
    apply_simple_diff-create_simple_diff example_host example_host-DecodesText (1 ∷ 2 ∷ 3 ∷ [])
      (1 ∷ 9 ∷ 3 ∷ []) (omega arith)

-- Two lengths whose sum wraps around to 0.
abbrev wrapping : SimpleBinaryDiff
wrapping = record {
  algorithm = simple_diff_algorithm;
  base_hash = 1 ∷ [];
  output_hash = 1 ∷ [];
  prefix_len = 2 ^ 63;
  suffix_len = 2 ^ 63;
  insert_b64 = [];
}

wrapping_panics :
    apply_simple_diff example_host (1 ∷ []) (example_host.render_simple_diff wrapping)
    ≡ err slice_panic
unfolding apply_simple_diff slice_to slice_back
wrapping_panics = refl

apply_simple_diff-slice_panic_example :
    (diff : SimpleBinaryDiff) × (example_host.parse_simple_diff
        (example_host.render_simple_diff wrapping)
      ≡ some diff)
    × (2 ^ 64 ≤ diff.prefix_len + diff.suffix_len)
apply_simple_diff-slice_panic_example =
    apply_simple_diff-slice_panic example_host (1 ∷ []) (example_host.render_simple_diff wrapping)
      wrapping_panics
