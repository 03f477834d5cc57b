-- ===== src/Ffi/Downloads/Resume.antt =====
-- updater/src/lib.rs: the payload that `download_resumable_payload` leaves in the part file, from a
-- server that serves ranges of it.
use fl_codepush_box.Prelude.{
  ℕ, zero, suc, ◌≤◌, ◌≡◌, refl, ap, sym, ◌∙◌, ◌⊎◌, inl, inr, Bool, true, false, Option, none, some,
  List, [], ◌∷◌, ◌++◌, if◌then◌else◌, ltb, Str, Bytes, length, length-append, length-drop, take,
  drop, decimal64, ok, arith, Bool-cases,
}
use fl_codepush_box.Host.{Host}
use fl_codepush_box.Client.{Read, Server}
use fl_codepush_box.Client.Download.{max_body_bytes, is_http}
use fl_codepush_box.Client.Download.Resume.{Serves, fetched, download-resumes}
use fl_codepush_box.Ffi.{Poll, after_payload, in_payload}
use fl_codepush_box.Ffi.Downloads.{
  Folder, file_length, progress_length, min_or, resume_offset, new_part, write_part, save_payload,
  download_resumable_payload,
}

-- What is in the part file, and what comes of it: the bytes up to the offset, and the rest of the
-- payload behind them; or the whole payload.
abbrev pub contents : Option Bytes → Bytes
contents none = []
contents (some bytes) = bytes

abbrev pub patched : Bytes → ℕ → Bytes → Bytes
patched old zero file = file
patched old (suc n) file =
    if ltb (suc n) (length file) then take (suc n) old ++ drop (suc n) file else file

min_or-le : (progress : Option ℕ) (n : ℕ) → min_or progress n ≤ n
min_or-le none n = omega arith
min_or-le (some p) n = omega arith

take-length : (xs : Bytes) → take (length xs) xs ≡ xs
take-length [] = refl
take-length (x ∷ xs) = ap (λ t. x ∷ t) (take-length xs)

length-take : (n : ℕ) (xs : Bytes) → n ≤ length xs → length (take n xs) ≡ n
length-take zero xs h = refl
length-take (suc n) [] h = ground arith
length-take (suc n) (x ∷ xs) h = omega (arith, length-take n xs (omega arith))

take-drop-append :
    (n : ℕ) (old rest : Bytes) → n ≤ length old → take n old ++ drop n (old ++ rest) ≡ old ++ rest
take-drop-append zero old rest h = refl
take-drop-append (suc n) [] rest h = ground arith
take-drop-append (suc n) (b ∷ old) rest h =
    ap (λ t. b ∷ t) (take-drop-append n old rest (omega arith))

-- A part file that begins as the payload does is completed.
pub patched-prefix :
    (old rest : Bytes) (n : ℕ) → n ≤ length old → patched old n (old ++ rest) ≡ old ++ rest
patched-prefix old rest zero h = refl
patched-prefix old rest (suc n) h = elim (Bool-cases (ltb (suc n) (length (old ++ rest)))) [
  | inl e ↦ rw e (take-drop-append (suc n) old rest h)
  | inr e ↦ rw e refl
]

-- Whatever was in it, the part file gets the length of the payload.
pub length-patched :
    (old file : Bytes) (n : ℕ) → n ≤ length old → length (patched old n file) ≡ length file
length-patched old file zero h = refl
length-patched old file (suc n) h =
    let first = length-take (suc n) old h in
    let last = length-drop (suc n) file in
    let long = length-append (take (suc n) old) (drop (suc n) file) in
    elim (Bool-cases (ltb (suc n) (length file))) [
      | inl e ↦ rw e (ground (arith, first, last, long))
      | inr e ↦ rw e refl
    ]

pub patched-whole : (old file : Bytes) → patched old (length file) file ≡ file
patched-whole old [] = refl
patched-whole old (b ∷ file) =
    let end : ltb (length (b ∷ file)) (length (b ∷ file)) ≡ false = ground arith in rw end refl

resume_offset-min_or :
    (f : Folder) → (resume_offset f).1 ≡ min_or (progress_length f.progress) (file_length f.part)
unfolding resume_offset
resume_offset-min_or f = refl

pub resume_offset-le : (f : Folder) → (resume_offset f).1 ≤ length (contents f.part)
resume_offset-le f =
    rw (resume_offset-min_or f)
      (elim f.part
        as (λ o. min_or (progress_length f.progress) (file_length o) ≤ length (contents o)) [
          | none ↦ min_or-le (progress_length f.progress) 0
          | some old ↦ min_or-le (progress_length f.progress) (length old)
        ])

-- The offset is 0, or the part file holds so many bytes.
resume_offset-part :
    (f : Folder) (o : Option Bytes)
    → f.part ≡ o
    → ((resume_offset f).1 ≡ 0)
      ⊎ ((resume_offset f).0.part ≡ some (take (resume_offset f).1 (contents o)))
unfolding resume_offset
resume_offset-part f none e =
    let le = min_or-le (progress_length f.progress) 0 in inl (rw e (omega (arith, le)))
resume_offset-part f (some old) e =
    let n = min_or (progress_length f.progress) (length old) in
    let le = min_or-le (progress_length f.progress) (length old) in
    elim (Bool-cases (ltb n (length old))) [
      | inl c ↦ inr (rw (e, c) refl)
      | inr c ↦
          let all : n ≡ length old = ground arith in
          inr (rw (e, c) (ap some (sym (ap (λ k. take k old) all ∙ take-length old))))
    ]

new_part-patched :
    (n : ℕ) (old file : Bytes) (part : Option Bytes)
    → (n ≡ 0) ⊎ (part ≡ some (take n old))
    → new_part n (fetched file n).1 (fetched file n).0 part ≡ some (patched old n file)
unfolding new_part
new_part-patched zero old file part c = refl
new_part-patched (suc n) old file part (inl e) = ground arith
new_part-patched (suc n) old file part (inr e) =
    let positive : ltb 0 (suc n) ≡ true = ground arith in
    elim (Bool-cases (ltb (suc n) (length file))) [
      | inl c ↦
          let got : fetched file (suc n) ≡ (drop (suc n) file, true) = rw c refl in
          ap (λ (r : Bytes × Bool). new_part (suc n) r.1 r.0 part) got ∙ rw (positive, e, c) refl
      | inr c ↦
          let got : fetched file (suc n) ≡ (file, false) = rw c refl in
          ap (λ (r : Bytes × Bool). new_part (suc n) r.1 r.0 part) got ∙ rw c refl
    ]

-- The folder with this part file and its length.
abbrev pub with_part : Folder → Bytes → Folder
with_part f bytes = record f { part = some bytes; progress = some (decimal64 (length bytes)) }

module _ (h : Host) (read_text : List Read → Str) (server : Server) (local : Str → Option Bytes)
    (flag : Poll → Bool) where
  module _ (url : Str) (file : Bytes) (quiet : (q : Poll) → flag q ≡ false)
      (small : length file ≤ max_body_bytes) (serves : Serves server url file)
      (web : is_http url ≡ true) where
    -- The part file after the download.
    pub resumable-patched :
        (f : Folder)
        → download_resumable_payload h read_text server local flag url f ≡ (
          with_part (resume_offset f).0 (patched (contents f.part) (resume_offset f).1 file),
          ok tt,
        )
    unfolding download_resumable_payload save_payload write_part
    resumable-patched f =
        let part =
          new_part-patched (resume_offset f).1 (contents f.part) file (resume_offset f).0.part
            (resume_offset-part f f.part refl) in
        rw
          (
            download-resumes read_text (λ n. flag (in_payload n)) server url file
                (λ n. quiet (in_payload n)) small serves local (resume_offset f).1 web,
            quiet after_payload,
            part,
          )
          refl
