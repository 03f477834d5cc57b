-- ===== src/Client/Examples.antt =====
-- Concrete runs of the client of crates/fcb_core/src/server_api.rs.
use fl_codepush_box.Prelude.{
  ℕ, zero, suc, ◌*◌, ◌≤◌, ◌≡◌, refl, ◌⊎◌, true, false, Option, none, some, List, [], ◌∷◌, Str,
  codes, length, ok, arith,
}
use fl_codepush_box.Client.{
  Read, chunk, Reply, failed, answered, HttpRequest, Server, retry_delay, path_segment_encode,
  should_retry_status, can_retry,
}
use fl_codepush_box.Client.Example.{one_byte, one_byte-Serves}
use fl_codepush_box.Client.Delay.{retry_delay-le}
use fl_codepush_box.Client.Segments.{is_segment, percent_decode, percent_decode-path_segment_encode}
use fl_codepush_box.Client.Calls.{judge, conclude, attempts, send}
use fl_codepush_box.Client.Calls.Settled.{is_retryable, all_retryable, meaning, send-Settles}
use fl_codepush_box.Client.Download.{
  max_body_bytes, read_body, range_request, download_bytes_from_with_cancel,
}
use fl_codepush_box.Client.Download.Body.{delivered, is_readable, read_body_lem}
use fl_codepush_box.Client.Download.Panic.Verdicts.{panics}
use fl_codepush_box.Client.Download.Panic.{download-panics}
use fl_codepush_box.Client.Download.Resume.{download-resumes}

abbrev read_text : List Read → Str
read_text reads = []

abbrev decode : List Read → Option ℕ
decode reads = some (length reads)

-- It fails, answers 503, and then 200.
abbrev flaky_reply : ℕ → Reply
flaky_reply zero = failed (codes "reset")
flaky_reply (suc zero) = answered 503 []
flaky_reply (suc (suc n)) = answered 200 (chunk (1 ∷ []) ∷ [])

abbrev flaky : Server
flaky request = flaky_reply

abbrev request : HttpRequest
request = range_request (codes "http://h/p") 0

flaky_run : send read_text decode flaky request ≡ (3, ok 1)
unfolding send attempts conclude judge can_retry should_retry_status
flaky_run = refl

send-Settles_example :
    (k : ℕ) × (k ≤ 4)
    × (all_retryable (flaky request) 0 k ≡ true)
    × ((k ≡ 4) ⊎ (is_retryable (flaky request k) ≡ false))
    × (send read_text decode flaky request ≡ (suc k, meaning read_text decode (flaky request k)))
send-Settles_example = send-Settles read_text decode flaky request

retry_delay-le_example :
    (3 * 200000 ≤ 4 * retry_delay 1 987654321) × (4 * retry_delay 1 987654321 ≤ 5 * 200000)
retry_delay-le_example = retry_delay-le 1 987654321 (unfold can_retry in refl)

slashed : path_segment_encode (codes "a/b") ≡ codes "a%2Fb"
unfolding path_segment_encode
slashed = refl

percent_decode-path_segment_encode_example :
    (percent_decode (path_segment_encode (codes "a/b")) ≡ codes "a/b")
    × (is_segment (path_segment_encode (codes "a/b")) ≡ true)
percent_decode-path_segment_encode_example =
    percent_decode-path_segment_encode (codes "a/b") (omega arith, (omega arith, (omega arith, tt)))

-- A body in two reads, with an end.
abbrev body : List Read
body = chunk (1 ∷ 2 ∷ []) ∷ chunk (3 ∷ []) ∷ chunk [] ∷ chunk (4 ∷ []) ∷ []

read_all : read_body (λ n. false) 0 [] body ≡ ok (1 ∷ 2 ∷ 3 ∷ [])
unfolding read_body
read_all = refl

read_body_lem_example :
    (1 ∷ 2 ∷ 3 ∷ [] ≡ delivered body) × (3 ≤ max_body_bytes) × (is_readable body ≡ true)
read_body_lem_example = read_body_lem (λ n. false) 0 body read_all

-- Four errors of the server, and then 416.
abbrev stuck_reply : ℕ → Reply
stuck_reply (suc (suc (suc (suc n)))) = answered 416 []
stuck_reply _ = answered 500 []

download-panics_example :
    panics (
      download_bytes_from_with_cancel read_text
        (λ n. false)
        (λ r. stuck_reply)
        (codes "http://h/p")
        (λ path. none)
        7)
    ≡ true
download-panics_example =
    download-panics read_text (λ n. false) (λ r. stuck_reply) (codes "http://h/p") (λ path. none) 7
      refl

download-resumes_example :
    download_bytes_from_with_cancel read_text
      (λ n. false)
      one_byte
      (codes "https://h/p")
      (λ path. none)
      1
    ≡ ok (7 ∷ [], false)
download-resumes_example =
    download-resumes read_text (λ n. false) one_byte (codes "https://h/p") (7 ∷ []) (λ n. refl)
      (omega arith) (one_byte-Serves (codes "https://h/p")) (λ path. none) 1 refl
