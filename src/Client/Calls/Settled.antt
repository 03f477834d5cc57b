-- ===== src/Client/Calls/Settled.antt =====
-- crates/fcb_core/src/server_api.rs: a call is settled by the first reply that is not retried.
use fl_codepush_box.Prelude.{
  ℕ, zero, suc, ◌+◌, ◌≤◌, ◌≡◌, refl, ◌∙◌, Bool, true, false, ◌&&◌, ◌⊎◌, inl, inr, Option, none,
  some, List, arith, Str, Result, err, ok_or, if◌then◌else◌, leb, Bool-cases,
}
use fl_codepush_box.Client.{
  Read, Reply, failed, answered, HttpRequest, Server, ClientError, transport, http_status, bad_json,
  can_retry, should_retry_status, is_success,
}
use fl_codepush_box.Client.Calls.{Outcome, done, again, judge, conclude, attempts, send, keep_last}

-- A transport that fails and a status of 500 or more are worth another attempt.
abbrev pub is_retryable : Reply → Bool
is_retryable (answered status body) = leb 500 status
is_retryable (failed e) = true

-- The replies to the given number of attempts, from one on, are all worth another attempt.
abbrev pub all_retryable : (ℕ → Reply) → ℕ → ℕ → Bool
all_retryable replies from zero = true
all_retryable replies from (suc n) =
    is_retryable (replies from) && all_retryable replies (suc from) n

module _ (read_text : List Read → Str) {A : Type 0} (decode : List Read → Option A) where
  -- What a reply means for the caller, if it is the one that settles the call.
  abbrev pub meaning : Reply → Result ClientError A
  meaning (answered status body) =
      if is_success status
      then ok_or (decode body) bad_json
      else err (http_status status (read_text body))
  meaning (failed e) = err (transport e)

  -- An attempt is the last, or its reply is not worth another one: the call is settled.
  judge-final :
      (attempt : ℕ) (r : Reply)
      → (can_retry attempt && is_retryable r) ≡ false
      → judge read_text decode attempt r ≡ done (meaning r)
  unfolding judge should_retry_status
  judge-final attempt (answered status body) h = ground arith
  judge-final attempt (failed e) h = ground arith

  judge-retried :
      (attempt : ℕ) (r : Reply)
      → (can_retry attempt && is_retryable r) ≡ true
      → (e : Option Str) × (judge read_text decode attempt r ≡ again e)
  unfolding judge should_retry_status
  judge-retried attempt (answered status body) h = (none, ground arith)
  judge-retried attempt (failed e) h = (some e, ground arith)

  module _ (server : Server) (request : HttpRequest) where
    -- The attempt that settles a call that has come to `from`, and what it gives.
    abbrev Settles : ℕ → Outcome A → Type 0
    Settles from o =
        (d : ℕ) × (from + d ≤ 4)
        × (all_retryable (server request) from d ≡ true)
        × ((from + d ≡ 4) ⊎ (is_retryable (server request (from + d)) ≡ false))
        × (o ≡ (suc d, meaning (server request (from + d))))

    last-Settles :
        (fuel from : ℕ) (last : Option Str)
        → from ≤ 4
        → (can_retry from && is_retryable (server request from)) ≡ false
        → (from ≡ 4) ⊎ (is_retryable (server request from) ≡ false)
        → Settles from (attempts read_text decode server request (suc fuel) from last)
    unfolding attempts conclude
    last-Settles fuel from last le final why =
        let same : from + 0 ≡ from = omega arith in
        (
          0,
          omega arith,
          refl,
          rw same why,
          rw (judge-final from (server request from) final, same) refl,
        )

    retried-Settles :
        (fuel from : ℕ) (last : Option Str)
        → (can_retry from && is_retryable (server request from)) ≡ true
        → ((l : Option Str)
            → Settles (suc from) (attempts read_text decode server request fuel (suc from) l))
        → Settles from (attempts read_text decode server request (suc fuel) from last)
    unfolding attempts conclude
    retried-Settles fuel from last retried ih =
        let (e, judged) = judge-retried from (server request from) retried in
        let (d, le, all, why, o) = ih (keep_last last e) in
        let same : from + suc d ≡ suc from + d = omega arith in
        (suc d, omega arith, ground arith, rw same why, rw (judged, o, same) refl)

    attempts-Settles :
        (fuel from : ℕ) (last : Option Str)
        → from + fuel ≡ 4
        → Settles from (attempts read_text decode server request (suc fuel) from last)
    attempts-Settles zero from last five =
        last-Settles zero from last (omega arith) (unfold can_retry in ground arith)
          (inl (omega arith))
    attempts-Settles (suc fuel) from last five =
        elim (Bool-cases (can_retry from && is_retryable (server request from))) [
          | inl yes_ ↦
              retried-Settles (suc fuel) from last yes_
                (λ l. attempts-Settles fuel (suc from) l (omega arith))
          | inr no_ ↦
              last-Settles (suc fuel) from last (omega arith) no_
                (inr (unfold can_retry in ground arith))
        ]

-- A call that sends JSON, and likewise each call with the loop of attempts, makes at most five
-- attempts and is settled by one of them: all replies before it are failures of the transport or
-- have a status of 500 or more, it is the fifth or its reply is neither, and the result is what that
-- reply means. In particular the `expect` behind the loop is never reached.
pub send-Settles :
    (read_text : List Read → Str) {A : Type 0} (decode : List Read → Option A) (server : Server)
    (request : HttpRequest)
    → (k : ℕ) × (k ≤ 4)
      × (all_retryable (server request) 0 k ≡ true)
      × ((k ≡ 4) ⊎ (is_retryable (server request k) ≡ false))
      × (send read_text decode server request
          ≡ (suc k, meaning read_text decode (server request k)))
unfolding send
send-Settles read_text decode server request =
    let (k, le, all, why, o) = attempts-Settles read_text decode server request 4 0 none refl in
    let same : 0 + k ≡ k = omega arith in (k, omega arith, all, rw⁻¹ same why, o ∙ rw same refl)
