-- ===== src/Client/Download/Body.antt =====
-- crates/fcb_core/src/server_api.rs: what `read_body_with_cancel` returns.
use fl_codepush_box.Prelude.{
  ℕ, suc, ◌+◌, ◌≤◌, ◌≡◌, refl, ap, ◌∙◌, Bool, true, false, List, [], ◌∷◌, ◌++◌, append_assoc,
  append-nil, arith, ltb, Bytes, length, length-append, ok,
}
use fl_codepush_box.Client.{Read, chunk, broken}
use fl_codepush_box.Client.Download.{max_body_bytes, read_body}

-- The bytes that the reads deliver up to the end of the body.
abbrev pub delivered : List Read → Bytes
delivered [] = []
delivered (broken ∷ reads) = []
delivered (chunk [] ∷ reads) = []
delivered (chunk (b ∷ bytes) ∷ reads) = (b ∷ bytes) ++ delivered reads

-- No read before the end fails.
abbrev pub is_readable : List Read → Bool
is_readable [] = true
is_readable (broken ∷ reads) = false
is_readable (chunk [] ∷ reads) = true
is_readable (chunk (b ∷ bytes) ∷ reads) = is_readable reads

read_body-from :
    (polls : ℕ → Bool) (poll : ℕ) (out : Bytes) (reads : List Read) {bytes : Bytes}
    → length out ≤ max_body_bytes
    → read_body polls poll out reads ≡ ok bytes
    → (bytes ≡ out ++ delivered reads)
      × (length bytes ≤ max_body_bytes)
      × (is_readable reads ≡ true)
unfolding read_body
read_body-from polls poll out [] h e = let same = append-nil out in ground arith
read_body-from polls poll out (broken ∷ reads) h e = ground arith
read_body-from polls poll out (chunk [] ∷ reads) h e = let same = append-nil out in ground arith
read_body-from polls poll out (chunk (b ∷ bytes) ∷ reads) {bytes = last} h e =
    let joined = append_assoc out (b ∷ bytes) (delivered reads) in
    let long = length-append out (b ∷ bytes) in
    let rest : read_body polls (suc poll) (out ++ (b ∷ bytes)) reads ≡ ok last = ground arith in
    let fits : ltb max_body_bytes (length out + length (b ∷ bytes)) ≡ false = ground arith in
    let (same, small, good) =
      read_body-from polls (suc poll) (out ++ (b ∷ bytes)) reads (ground arith) rest in
    (same ∙ joined, small, good)

read_body-ok :
    (polls : ℕ → Bool) (poll : ℕ) (out : Bytes) (reads : List Read)
    → ((n : ℕ) → polls n ≡ false)
    → is_readable reads ≡ true
    → length out + length (delivered reads) ≤ max_body_bytes
    → read_body polls poll out reads ≡ ok (out ++ delivered reads)
unfolding read_body
read_body-ok polls poll out [] quiet good h = rw (quiet poll, append-nil out) refl
read_body-ok polls poll out (broken ∷ reads) quiet good h = ground arith
read_body-ok polls poll out (chunk [] ∷ reads) quiet good h = rw (quiet poll, append-nil out) refl
read_body-ok polls poll out (chunk (b ∷ bytes) ∷ reads) quiet good h =
    let long = length-append out (b ∷ bytes) in
    let all = length-append (b ∷ bytes) (delivered reads) in
    let fits : ltb max_body_bytes (length out + length (b ∷ bytes)) ≡ false = ground arith in
    rw (quiet poll, fits)
      (read_body-ok polls (suc poll) (out ++ (b ∷ bytes)) reads quiet good
          (omega (arith, long, all))
        ∙ ap ok (append_assoc out (b ∷ bytes) (delivered reads)))

-- A body that `read_body_with_cancel` returns is all that the reads delivered up to the end, none of
-- them failed, and it has at most 64 MiB, whenever the operation may be cancelled.
pub read_body_lem :
    (polls : ℕ → Bool) (poll : ℕ) (reads : List Read) {bytes : Bytes}
    → read_body polls poll [] reads ≡ ok bytes
    → (bytes ≡ delivered reads) × (length bytes ≤ max_body_bytes) × (is_readable reads ≡ true)
read_body_lem polls poll reads = read_body-from polls poll [] reads (omega arith)

-- A body of at most 64 MiB whose reads do not fail is returned whole, if nobody cancels.
pub read_body_total :
    (polls : ℕ → Bool) (poll : ℕ) (reads : List Read)
    → ((n : ℕ) → polls n ≡ false)
    → is_readable reads ≡ true
    → length (delivered reads) ≤ max_body_bytes
    → read_body polls poll [] reads ≡ ok (delivered reads)
read_body_total polls poll reads quiet good h =
    read_body-ok polls poll [] reads quiet good (omega arith)
