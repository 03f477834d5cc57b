-- ===== src/Client/Download/Panic.antt =====
-- crates/fcb_core/src/server_api.rs: when the `expect` behind the loop of a download panics.
pub mod Verdicts
use fl_codepush_box.Prelude.{
  ℕ, zero, suc, ◌+◌, ◌≤◌, ◌<◌, ◌≡◌, refl, ap, sym, ◌∙◌, Bool, true, false, not, ◌&&◌, Option, none,
  some, List, arith, Str, Bytes, if◌then◌else◌, ◌==◌, ltb, leb, Result, ok, err, ◌>>=◌, [], ◌∷◌,
  ◌++◌, Bool-cases,
}
use fl_codepush_box.Client.{
  Read, chunk, broken, Reply, failed, answered, Server, ClientError, panicked, can_retry,
  should_retry_status, is_success,
}
use fl_codepush_box.Client.Calls.{exhausted, keep_last}
use fl_codepush_box.Client.Download.{
  Downloaded, with_append, DownloadVerdict, done, again, restart, read_body, range_request,
  judge_download, conclude_download, download_attempts, download_bytes_from_with_cancel, is_http,
}
use fl_codepush_box.Client.Download.Panic.Verdicts.{
  panics, is_server_error, is_out_of_range, and-false, judge-panics, conclude-panics_kept,
  conclude-panics_whole, conclude-panics_fresh, last-panics_fresh, last-panics, judge-again,
  judge-restart, judge-fresh,
}

module _ (read_text : List Read → Str) (polls : ℕ → Bool) where
  module _ (server : Server) (url : Str) where
    attempts-panics_kept :
        (fuel attempt offset : ℕ) (e : Str)
        → panics (download_attempts read_text polls server url fuel attempt offset (some e)) ≡ false
    unfolding download_attempts
    attempts-panics_kept zero attempt offset e = refl
    attempts-panics_kept (suc fuel) attempt offset e = ground (
      arith,
      conclude-panics_kept read_text polls
          (λ o l. download_attempts read_text polls server url fuel (suc attempt) o l) offset e
          (judge_download read_text polls (suc attempt) attempt offset
            (server (range_request url offset) attempt))
          (judge-panics read_text polls (suc attempt) attempt offset
            (server (range_request url offset) attempt))
          (λ o l. attempts-panics_kept fuel (suc attempt) o l),
    )

    abbrev round : ℕ → ℕ → ℕ → Option Str → Downloaded
    round fuel attempt offset last =
        conclude_download read_text polls
          (λ o l. download_attempts read_text polls server url fuel (suc attempt) o l) offset last
          (judge_download read_text polls (suc attempt) attempt offset
            (server (range_request url offset) attempt))

    -- A whole download never panics.
    attempts-panics_whole :
        (fuel attempt : ℕ) (last : Option Str)
        → attempt + fuel ≡ 4
        → panics (download_attempts read_text polls server url (suc fuel) attempt 0 last) ≡ false
    unfolding download_attempts
    attempts-panics_whole zero attempt last five =
        let r = server (range_request url 0) attempt in
        ground (
          arith,
          last-panics read_text polls (λ o l. exhausted l) 0 last
              (judge_download read_text polls (suc attempt) attempt 0 r)
              (judge-panics read_text polls (suc attempt) attempt 0 r)
              (judge-again read_text polls (suc attempt) attempt 0 r
                (unfold can_retry in ground arith))
              (judge-restart read_text polls (suc attempt) attempt 0 r
                ∙ and-false (is_out_of_range r)),
        )
    attempts-panics_whole (suc fuel) attempt last five =
        let r = server (range_request url 0) attempt in
        ground (
          arith,
          conclude-panics_whole read_text polls
              (λ o l. download_attempts read_text polls server url (suc fuel) (suc attempt) o l)
              last (judge_download read_text polls (suc attempt) attempt 0 r)
              (judge-panics read_text polls (suc attempt) attempt 0 r)
              (λ l. attempts-panics_whole fuel (suc attempt) l (omega arith)),
        )

    -- Nobody cancels, all replies from an attempt on but the last are server errors, and the last
    -- says that the range cannot be served.
    abbrev pub is_stuck : ℕ → ℕ → ℕ → Bool
    is_stuck zero attempt offset =
        not (polls attempt) && is_out_of_range (server (range_request url offset) attempt)
    is_stuck (suc fuel) attempt offset =
        not (polls attempt)
        && (is_server_error (server (range_request url offset) attempt)
            && is_stuck fuel (suc attempt) offset)

    attempts-panics :
        (fuel attempt offset : ℕ)
        → attempt + fuel ≡ 4
        → ltb 0 offset ≡ true
        → panics (download_attempts read_text polls server url (suc fuel) attempt offset none)
          ≡ is_stuck fuel attempt offset
    unfolding download_attempts
    attempts-panics zero attempt offset five some_ =
        let r = server (range_request url offset) attempt in
        ground (
          arith,
          last-panics_fresh read_text polls (λ o l. exhausted l) offset
              (judge_download read_text polls (suc attempt) attempt offset r)
              (judge-panics read_text polls (suc attempt) attempt offset r)
              (judge-again read_text polls (suc attempt) attempt offset r
                (unfold can_retry in ground arith))
              refl,
          judge-restart read_text polls (suc attempt) attempt offset r,
        )
    attempts-panics (suc fuel) attempt offset five some_ =
        let r = server (range_request url offset) attempt in
        ground (
          arith,
          conclude-panics_fresh read_text polls
              (λ o l. download_attempts read_text polls server url (suc fuel) (suc attempt) o l)
              offset (judge_download read_text polls (suc attempt) attempt offset r)
              (judge-panics read_text polls (suc attempt) attempt offset r)
              (λ o l. attempts-panics_kept (suc fuel) (suc attempt) o l)
              (attempts-panics_whole fuel (suc attempt) none (omega arith)),
          judge-fresh read_text polls (suc attempt) attempt offset r
              (unfold can_retry in ground arith),
          attempts-panics fuel (suc attempt) offset (omega arith) some_,
        )

    -- A download over HTTP panics exactly where it resumes at an offset other than 0, nobody
    -- cancels, the first four replies are server errors, and the fifth is 416.
    pub download-panics :
        (local : Str → Option Bytes) (offset : ℕ)
        → is_http url ≡ true
        → panics (download_bytes_from_with_cancel read_text polls server url local offset)
          ≡ (ltb 0 offset && is_stuck 4 0 offset)
    unfolding download_bytes_from_with_cancel
    download-panics local zero http = rw http (attempts-panics_whole 4 0 none refl)
    download-panics local (suc n) http =
        rw http (attempts-panics 4 0 (suc n) refl (ground arith) ∙ ground arith)
