-- ===== src/Client/Download/Resume.antt =====
-- crates/fcb_core/src/server_api.rs: a download from a server that serves ranges.
use fl_codepush_box.Prelude.{
  ℕ, zero, suc, ◌≤◌, ◌≡◌, refl, ap, ◌∙◌, Bool, true, false, Option, none, List, [], arith,
  if◌then◌else◌, ltb, Str, Bytes, length, length-drop, drop, ok, Bool-cases, inl, inr,
}
use fl_codepush_box.Client.{Read, answered, Server}
use fl_codepush_box.Client.Download.{
  max_body_bytes, read_body, range_request, judge_download, conclude_download, download_attempts,
  download_bytes_from_with_cancel, is_http,
}
use fl_codepush_box.Client.Download.Body.{delivered, is_readable, read_body_total}

-- The status and the body for a request from an offset on (RFC 9110): the whole file, the rest of
-- it, or the refusal of a range that begins behind it.
abbrev pub served : Bytes → ℕ → ℕ × Bytes
served file zero = (200, file)
served file (suc n) = if ltb (suc n) (length file) then (206, drop (suc n) file) else (416, [])

-- The server answers every attempt at the URL as served, with a body that can be read.
pub record Serves (server : Server) (url : Str) (file : Bytes) : Type 0 where
  pub reads : ℕ → ℕ → List Read
  pub replies :
      (offset attempt : ℕ)
      → server (range_request url offset) attempt
        ≡ answered (served file offset).0 (reads offset attempt)
  pub bodies : (offset attempt : ℕ) → delivered (reads offset attempt) ≡ (served file offset).1
  pub readable : (offset attempt : ℕ) → is_readable (reads offset attempt) ≡ true

-- What such a download gives: the rest of the file, to be appended, or the whole file.
abbrev pub fetched : Bytes → ℕ → Bytes × Bool
fetched file zero = (file, false)
fetched file (suc n) =
    if ltb (suc n) (length file) then (drop (suc n) file, true) else (file, false)

module _ (read_text : List Read → Str) (polls : ℕ → Bool) (server : Server) (url : Str)
    (file : Bytes) where
  module _ (quiet : (n : ℕ) → polls n ≡ false) (small : length file ≤ max_body_bytes)
      (serves : Serves server url file) where
    body_read :
        (poll offset attempt : ℕ) {bytes : Bytes}
        → (served file offset).1 ≡ bytes
        → length bytes ≤ length file
        → read_body polls poll [] (serves.reads offset attempt) ≡ ok bytes
    body_read poll offset attempt {bytes} e le =
        let same = serves.bodies offset attempt ∙ e in
        read_body_total polls poll (serves.reads offset attempt) quiet
          (serves.readable offset attempt) (rw same (omega arith))
        ∙ ap ok same

    whole_fetched :
        (fuel attempt : ℕ) (last : Option Str)
        → download_attempts read_text polls server url (suc fuel) attempt 0 last ≡ ok (file, false)
    unfolding download_attempts conclude_download judge_download
    whole_fetched fuel attempt last =
        rw
          (
            quiet attempt,
            serves.replies 0 attempt,
            body_read (suc attempt) 0 attempt refl (omega arith),
          )
          refl

    -- The first round, when the rest of the file is served.
    rest_fetched :
        (fuel n : ℕ)
        → ltb (suc n) (length file) ≡ true
        → download_attempts read_text polls server url (suc fuel) 0 (suc n) none
          ≡ ok (drop (suc n) file, true)
    unfolding download_attempts conclude_download judge_download
    rest_fetched fuel n e =
        let one : served file (suc n) ≡ (206, drop (suc n) file) = rw e refl in
        let short = length-drop (suc n) file in
        rw
          (
            quiet 0,
            serves.replies (suc n) 0,
            ap (λ r. r.0) one,
            body_read 1 (suc n) 0 (ap (λ r. r.1) one) (omega (arith, short)),
          )
          refl

    -- The first two rounds, when the range is refused.
    whole_refetched :
        (fuel n : ℕ)
        → ltb (suc n) (length file) ≡ false
        → download_attempts read_text polls server url (suc (suc fuel)) 0 (suc n) none
          ≡ ok (file, false)
    unfolding download_attempts conclude_download judge_download
    whole_refetched fuel n e =
        let one : served file (suc n) ≡ (416, []) = rw e refl in
        let positive : ltb 0 (suc n) ≡ true = ground arith in
        rw (quiet 0, serves.replies (suc n) 0, ap (λ r. r.0) one, positive)
          (whole_fetched fuel 1 none)

    download-fetched :
        (offset : ℕ)
        → download_attempts read_text polls server url 5 0 offset none ≡ ok (fetched file offset)
    download-fetched zero = whole_fetched 4 0 none
    download-fetched (suc n) = elim (Bool-cases (ltb (suc n) (length file))) [
      | inl e ↦ rw e (rest_fetched 4 n e)
      | inr e ↦ rw e (whole_refetched 3 n e)
    ]

    -- From a server that serves ranges of a file of at most 64 MiB, a download that nobody cancels
    -- gives the rest of the file, to be appended, if the offset is positive and lies in the file,
    -- and else the whole file, not to be appended: a refused range is asked for again from 0.
    pub download-resumes :
        (local : Str → Option Bytes) (offset : ℕ)
        → is_http url ≡ true
        → download_bytes_from_with_cancel read_text polls server url local offset
          ≡ ok (fetched file offset)
    unfolding download_bytes_from_with_cancel
    download-resumes local offset e = rw e (download-fetched offset)
