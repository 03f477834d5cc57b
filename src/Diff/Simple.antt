-- ===== src/Diff/Simple.antt =====
-- crates/fcb_core/src/diff.rs: a simple diff, applied to its base, gives its target.
use fl_codepush_box.Prelude.{
  ℕ, zero, suc, ◌+◌, ◌-◌, ◌%◌, ◌^◌, ◌≤◌, ◌<◌, ◌≡◌, refl, sym, ap, true, false, [], ◌∷◌, ◌++◌, arith,
  ◌==◌, ltb, leb, Bytes, bytes_eq_refl, length, take, drop, get_or, ok,
}
use fl_codepush_box.Host.{Host, DecodesText}
use fl_codepush_box.Diff.{
  prefix_len, suffix_loop, slice_to, slice_back, create_simple_diff, apply_simple_diff,
  simple_diff_algorithm,
}

prefix_len_lem :
    (base target : Bytes)
    → (prefix_len base target ≤ length base)
      × (prefix_len base target ≤ length target)
      × (take (prefix_len base target) base ≡ take (prefix_len base target) target)
unfolding prefix_len
prefix_len_lem [] target = (omega arith, omega arith, refl)
prefix_len_lem (a ∷ base) [] = (omega arith, omega arith, refl)
prefix_len_lem (a ∷ base) (b ∷ target) = ground (arith, prefix_len_lem base target)

take-append-drop : (n : ℕ) (xs : Bytes) → take n xs ++ drop n xs ≡ xs
take-append-drop zero xs = refl
take-append-drop (suc n) [] = refl
take-append-drop (suc n) (x ∷ xs) = ap (λ t. x ∷ t) (take-append-drop n xs)

drop-drop : (m n k : ℕ) (xs : Bytes) → m + n ≡ k → drop m (drop n xs) ≡ drop k xs
drop-drop m zero k xs e = let same : m ≡ k = omega arith in rw same
drop-drop m (suc n) zero xs e = absurd (omega arith)
drop-drop zero (suc n) (suc k) [] e = refl
drop-drop (suc m) (suc n) (suc k) [] e = refl
drop-drop m (suc n) (suc k) (x ∷ xs) e = drop-drop m n k xs (omega arith)

drop-get_or : (n : ℕ) (xs : Bytes) → n < length xs → drop n xs ≡ get_or xs n 0 ∷ drop (suc n) xs
drop-get_or zero [] h = absurd (omega arith)
drop-get_or zero (x ∷ xs) h = refl
drop-get_or (suc n) [] h = absurd (omega arith)
drop-get_or (suc n) (x ∷ xs) h = drop-get_or n xs (omega arith)

-- The suffixes of the given length are equal, and do not overlap the prefixes.
abbrev Shares : Bytes → Bytes → ℕ → ℕ → Type 0
Shares base target prefix s =
    (prefix + s ≤ length base)
    × (prefix + s ≤ length target)
    × (drop (length base - s) base ≡ drop (length target - s) target)

last-drop :
    (s : ℕ) (xs : Bytes)
    → s < length xs
    → drop (length xs - suc s) xs ≡ get_or xs (length xs - 1 - s) 0 ∷ drop (length xs - s) xs
last-drop s xs h =
    let n : length xs - suc s ≡ length xs - 1 - s = omega arith in
    let m : suc (length xs - 1 - s) ≡ length xs - s = omega arith in
    rw (n, sym m) (drop-get_or (length xs - 1 - s) xs (omega arith))

Shares-suc :
    (base target : Bytes) (prefix s : ℕ)
    → Shares base target prefix s
    → ltb s (length base - prefix) ≡ true
    → ltb s (length target - prefix) ≡ true
    → (get_or base (length base - 1 - s) 0 == get_or target (length target - 1 - s) 0) ≡ true
    → Shares base target prefix (suc s)
Shares-suc base target prefix s (hb, ht, e) lb lt le =
    let b = last-drop s base (ground arith) in
    let t = last-drop s target (ground arith) in
    let same : get_or base (length base - 1 - s) 0 ≡ get_or target (length target - 1 - s) 0 =
      ground arith in
    (ground arith, ground arith, rw (b, t, same, e) refl)

suffix_loop-Shares :
    (fuel : ℕ) (base target : Bytes) (prefix s : ℕ)
    → Shares base target prefix s
    → Shares base target prefix (suffix_loop fuel base target prefix s)
unfolding suffix_loop
suffix_loop-Shares zero base target prefix s h = h
suffix_loop-Shares (suc fuel) base target prefix s h =
    ground
      (arith, Shares-suc base target prefix s h, suffix_loop-Shares fuel base target prefix (suc s))

drop-length : (xs : Bytes) → drop (length xs) xs ≡ []
drop-length [] = refl
drop-length (x ∷ xs) = drop-length xs

drop-all : (base target : Bytes) → drop (length base - 0) base ≡ drop (length target - 0) target
drop-all base target =
    let b : length base - 0 ≡ length base = omega arith in
    let t : length target - 0 ≡ length target = omega arith in
    rw (b, t, drop-length base, drop-length target) refl

-- The shared ends with the rest of the target between them are the target.
rebuilt :
    (base target : Bytes) (p s : ℕ)
    → take p base ≡ take p target
    → Shares base target p s
    → take p base ++ (take (length target - s - p) (drop p target) ++ drop (length base - s) base)
      ≡ target
rebuilt base target p s front (hb, ht, back) =
    let n : (length target - s - p) + p ≡ length target - s = omega arith in
    let tail : drop (length target - s) target ≡ drop (length target - s - p) (drop p target) =
      sym (drop-drop (length target - s - p) p (length target - s) target n) in
    rw (front, back, tail, take-append-drop (length target - s - p) (drop p target))
      (take-append-drop p target)

-- The checks of `apply_simple_diff` on a diff whose parts are known.
module _ (h : Host) (laws : DecodesText h) where
  fits :
      (base target : Bytes) (p s : ℕ) (insert : Bytes)
      → p + s ≤ length base
      → length base < 2 ^ 64
      → take p base ++ (insert ++ drop (length base - s) base) ≡ target
      → apply_simple_diff h base (
          h.render_simple_diff (record {
            algorithm = simple_diff_algorithm;
            base_hash = h.sha256_hex base;
            output_hash = h.sha256_hex target;
            prefix_len = p;
            suffix_len = s;
            insert_b64 = h.b64_encode insert;
          }))
        ≡ ok target
  unfolding apply_simple_diff slice_to slice_back
  fits base target p s insert hb small out =
      let no_wrap : (p + s) % 2 ^ 64 ≡ p + s = omega arith in
      let in_base : ltb (length base) (p + s) ≡ false = ground arith in
      let front : leb p (length base) ≡ true = ground arith in
      let back : leb s (length base) ≡ true = ground arith in
      rw
        (
          laws.simple_diff _,
          bytes_eq_refl (h.sha256_hex base),
          no_wrap,
          in_base,
          laws.b64 insert,
          front,
          back,
          out,
          bytes_eq_refl (h.sha256_hex target),
        )
        refl

  -- Where serde_json and base64 read back what they wrote, and the base is of a length that a
  -- 64-bit `usize` can hold, applying the simple diff of a base and a target to that base succeeds
  -- and gives the target, for all bytes of both.
  pub apply_simple_diff-create_simple_diff :
      (base target : Bytes)
      → length base < 2 ^ 64
      → apply_simple_diff h base (create_simple_diff h base target) ≡ ok target
  unfolding create_simple_diff
  apply_simple_diff-create_simple_diff base target small =
      let p = prefix_len base target in
      let s = suffix_loop (length base) base target p 0 in
      let (pb, pt, front) = prefix_len_lem base target in
      let start : Shares base target p 0 = (omega arith, omega arith, drop-all base target) in
      let shares = suffix_loop-Shares (length base) base target p 0 start in
      fits base target p s (take (length target - s - p) (drop p target)) shares.0 small
        (rebuilt base target p s front shares)
