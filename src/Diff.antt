-- ===== src/Diff.antt =====
-- crates/fcb_core/src/diff.rs: binary diffs. `usize` sums wrap at 2 ^ 64, as in a release build; a
-- slice out of range is a panic.
pub mod Simple
pub mod Slices
mod Examples
use fl_codepush_box.Prelude.{
  ℕ, zero, suc, ◌+◌, ◌-◌, ◌%◌, ◌^◌, Bool, true, false, not, ◌&&◌, Option, none, some, List, [], ◌∷◌,
  ◌++◌, if◌then◌else◌, ◌==◌, ltb, leb, Bytes, Str, codes, bytes_eq, length, take, drop, get_or,
  Result, ok, err, ◌>>=◌, ◌>>◌, refuse_if, ok_or,
}
use fl_codepush_box.Host.{Host, SimpleBinaryDiff}

pub data DiffError : Type 0 where
  unsupported_algorithm base_mismatch range_exceeds_base output_mismatch : DiffError
  bad_json bad_base64 bad_zstd bad_bsdiff : DiffError
  slice_panic : DiffError

abbrev pub bsdiff_zstd_algorithm : Str
bsdiff_zstd_algorithm = codes "bsdiff-zstd-v1"

abbrev pub simple_diff_algorithm : Str
simple_diff_algorithm = codes "fcb-simple-v1"

-- The first loop of `create_simple_diff`.
pub prefix_len : Bytes → Bytes → ℕ
prefix_len [] target = 0
prefix_len (a ∷ base) [] = 0
prefix_len (a ∷ base) (b ∷ target) =
    let rest = prefix_len base target in if a == b then suc rest else 0

-- The second loop; it makes at most as many rounds as `base` has bytes.
pub suffix_loop : ℕ → Bytes → Bytes → ℕ → ℕ → ℕ
suffix_loop zero base target prefix suffix = suffix
suffix_loop (suc fuel) base target prefix suffix =
    let more = suffix_loop fuel base target prefix (suc suffix) in
    if ltb suffix (length base - prefix)
      && (ltb suffix (length target - prefix)
          && get_or base (length base - 1 - suffix) 0
            == get_or target (length target - 1 - suffix) 0)
    then more
    else suffix

-- `&bytes[..end]` and `&bytes[start..]`
slice_to : ℕ → Bytes → Result DiffError Bytes
slice_to end bytes = if leb end (length bytes) then ok (take end bytes) else err slice_panic

-- `start` is `bytes.len() - back`, which wraps to a number beyond any length if `back` is larger.
slice_back : ℕ → Bytes → Result DiffError Bytes
slice_back back bytes =
    if leb back (length bytes) then ok (drop (length bytes - back) bytes) else err slice_panic

module _ (h : Host) where
  unfoldable pub create_simple_diff : Bytes → Bytes → Bytes
  create_simple_diff base target =
      let prefix = prefix_len base target in
      let suffix = suffix_loop (length base) base target prefix 0 in
      let insert = take (length target - suffix - prefix) (drop prefix target) in
      h.render_simple_diff (record {
        algorithm = simple_diff_algorithm;
        base_hash = h.sha256_hex base;
        output_hash = h.sha256_hex target;
        prefix_len = prefix;
        suffix_len = suffix;
        insert_b64 = h.b64_encode insert;
      })

  unfoldable pub apply_simple_diff : Bytes → Bytes → Result DiffError Bytes
  unfolding slice_to slice_back
  apply_simple_diff base diff_bytes = do
    diff ← ok_or (h.parse_simple_diff diff_bytes) bad_json
    refuse_if (not (bytes_eq diff.algorithm simple_diff_algorithm)) unsupported_algorithm
    refuse_if (not (bytes_eq (h.sha256_hex base) diff.base_hash)) base_mismatch
    refuse_if (ltb (length base) ((diff.prefix_len + diff.suffix_len) % 2 ^ 64)) range_exceeds_base
    insert ← ok_or (h.b64_decode diff.insert_b64) bad_base64
    front ← slice_to diff.prefix_len base
    back ← slice_back diff.suffix_len base
    let output = front ++ (insert ++ back)
    refuse_if (not (bytes_eq (h.sha256_hex output) diff.output_hash)) output_mismatch
    ok output

  unfoldable pub apply_bsdiff_zstd : Bytes → Bytes → Result DiffError Bytes
  apply_bsdiff_zstd base diff_bytes = do
    raw ← ok_or (h.zstd_decode diff_bytes) bad_zstd
    ok_or (h.bsdiff_patch base raw) bad_bsdiff

  unfoldable pub apply_binary_diff : Str → Bytes → Bytes → Result DiffError Bytes
  apply_binary_diff algorithm base diff_bytes =
      if bytes_eq algorithm bsdiff_zstd_algorithm
      then apply_bsdiff_zstd base diff_bytes
      else if bytes_eq algorithm simple_diff_algorithm
      then apply_simple_diff base diff_bytes
      else err unsupported_algorithm
