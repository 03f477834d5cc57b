-- ===== src/Client/Download.antt =====
-- crates/fcb_core/src/server_api.rs: downloads with a resume offset and cancellation. `polls` is what
-- `should_cancel` answers, call by call: another thread may set the flag at any time.
pub mod Body
pub mod Panic
pub mod Resume
use fl_codepush_box.Prelude.{
  ℕ, zero, suc, ◌+◌, ◌*◌, Bool, true, false, ◌&&◌, ◌||◌, Option, none, some, List, [], ◌∷◌, ◌++◌,
  if◌then◌else◌, ◌==◌, ltb, min, Str, Bytes, codes, starts_with, length, decimal64, Result, ok, err,
  ◌>>=◌, ok_or,
}
use fl_codepush_box.Client.{
  Read, chunk, broken, Reply, failed, answered, Method, HttpRequest, Server, ClientError, transport,
  http_status, cancelled, body_too_large, body_unreadable, file_unreadable, retry_delays, can_retry,
  should_retry_status, is_success,
}
use fl_codepush_box.Client.Calls.{exhausted, keep_last}

abbrev pub max_body_bytes : ℕ
max_body_bytes = 64 * 1024 * 1024

-- The loop of `read_body_with_cancel`; a read of no bytes is the end.
unfoldable pub read_body : (ℕ → Bool) → ℕ → Bytes → List Read → Result ClientError Bytes
read_body polls poll out [] = if polls poll then err cancelled else ok out
read_body polls poll out (broken ∷ reads) =
    if polls poll then err cancelled else err body_unreadable
read_body polls poll out (chunk [] ∷ reads) = if polls poll then err cancelled else ok out
read_body polls poll out (chunk (b ∷ bytes) ∷ reads) =
    let rest = read_body polls (suc poll) (out ++ (b ∷ bytes)) reads in
    if polls poll
    then err cancelled
    else if ltb max_body_bytes (length out + length (b ∷ bytes))
    then err body_too_large
    else rest

-- The downloaded bytes, and whether they are to be appended.
abbrev pub Downloaded : Type 0
Downloaded = Result ClientError (Bytes × Bool)

abbrev pub with_append : Bool → Result ClientError Bytes → Downloaded
with_append append r = r >>= λ bytes. ok (bytes, append)

-- `restart` goes on with the offset 0.
pub data DownloadVerdict : Type 0 where
  done : Downloaded → DownloadVerdict
  again : Option Str → DownloadVerdict
  restart : DownloadVerdict

unfoldable pub range_headers : ℕ → List (Str × Str)
range_headers offset =
    if ltb 0 offset
    then (codes "Range", codes "bytes=" ++ (decimal64 offset ++ codes "-")) ∷ []
    else []

unfoldable pub range_request : Str → ℕ → HttpRequest
range_request url offset = record {
  method = Method.get;
  url = url;
  query = [];
  headers = range_headers offset;
  body = none;
}

abbrev pub is_http : Str → Bool
is_http url = starts_with (codes "http://") url || starts_with (codes "https://") url

module _ (read_text : List Read → Str) (polls : ℕ → Bool) where
  unfoldable pub judge_download : ℕ → ℕ → ℕ → Reply → DownloadVerdict
  judge_download poll attempt offset (answered status body) =
      if status == 416 && ltb 0 offset
      then restart
      else if status == 206
      then done (with_append true (read_body polls poll [] body))
      else if is_success status
      then done (with_append false (read_body polls poll [] body))
      else if should_retry_status status && can_retry attempt
      then again none
      else done (err (http_status status (read_text body)))
  judge_download poll attempt offset (failed e) =
      if can_retry attempt then again (some e) else done (err (transport e))

  -- The rest of a round, with the offset and the last error for the next.
  unfoldable pub conclude_download :
      (ℕ → Option Str → Downloaded) → ℕ → Option Str → DownloadVerdict → Downloaded
  conclude_download next offset last (done r) = r
  conclude_download next offset last (again e) = next offset (keep_last last e)
  conclude_download next offset last restart = next 0 last

  module _ (server : Server) (url : Str) where
    -- The rounds from an attempt on. `attempt` also counts the polls: there is one in each round
    -- that does not return.
    unfoldable pub download_attempts : ℕ → ℕ → ℕ → Option Str → Downloaded
    unfolding conclude_download
    download_attempts zero attempt offset last = exhausted last
    download_attempts (suc fuel) attempt offset last =
        let rest =
          conclude_download (λ o l. download_attempts fuel (suc attempt) o l) offset last
            (judge_download (suc attempt) attempt offset
              (server (range_request url offset) attempt)) in
        if polls attempt then err cancelled else rest

    -- A URL of another scheme is a local path, which `local` reads.
    unfoldable pub download_bytes_from_with_cancel : (Str → Option Bytes) → ℕ → Downloaded
    download_bytes_from_with_cancel local offset =
        if is_http url
        then download_attempts (suc (length retry_delays)) 0 offset none
        else if polls 0
        then err cancelled
        else (ok_or (local url) file_unreadable >>= λ bytes. ok (bytes, false))

module _ (read_text : List Read → Str) (server : Server) (local : Str → Option Bytes) where
  unfoldable pub download_bytes_from : Str → ℕ → Downloaded
  download_bytes_from url offset =
      download_bytes_from_with_cancel read_text (λ _. false) server url local offset

  unfoldable pub download_bytes : Str → Result ClientError Bytes
  download_bytes url = download_bytes_from url 0 >>= λ r. ok r.0
