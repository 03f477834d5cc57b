-- ===== src/Client/Calls.antt =====
-- crates/fcb_core/src/server_api.rs: the calls that send and receive JSON, each with its loop of
-- attempts.
pub mod Settled
use fl_codepush_box.Prelude.{
  ℕ, zero, suc, ◌+◌, Bool, true, false, ◌&&◌, Option, none, some, List, [], ◌∷◌, ◌++◌,
  if◌then◌else◌, Str, Bytes, codes, length, is_blank, decimal, Result, ok, err, ok_or,
}
use fl_codepush_box.Manifest.{PatchManifest}
use fl_codepush_box.Client.{
  Read, Reply, failed, answered, Method, get, post, HttpRequest, Server, ClientError, Client,
  transport, http_status, bad_json, panicked, retry_delays, can_retry, should_retry_status,
  is_success, path_segment_encode,
}

-- What the loop does with a reply: it returns, or goes on, with the error of a failed transport or
-- with none.
pub data Verdict (A : Type 0) : Type 0 where
  done : Result ClientError A → Verdict A
  again : Option Str → Verdict A

-- How many requests were sent, and the result.
abbrev pub Outcome : Type 0 → Type 0
Outcome A = ℕ × Result ClientError A

-- The end of the loop: `last_error.expect(..)`.
abbrev pub exhausted : {A : Type 0} → Option Str → Result ClientError A
exhausted none = err panicked
exhausted (some e) = err (transport e)

abbrev pub keep_last : Option Str → Option Str → Option Str
keep_last last none = last
keep_last last (some e) = some e

-- `read_to_string().unwrap_or_default()` is a parameter, like the decoding of a body as JSON.
module _ (read_text : List Read → Str) {A : Type 0} (decode : List Read → Option A) where
  -- The `match` on a response.
  unfoldable pub judge : ℕ → Reply → Verdict A
  judge attempt (answered status body) =
      if is_success status
      then done (ok_or (decode body) bad_json)
      else if should_retry_status status && can_retry attempt
      then again none
      else done (err (http_status status (read_text body)))
  judge attempt (failed e) = if can_retry attempt then again (some e) else done (err (transport e))

  -- The rest of a round: it returns, or makes the next round.
  unfoldable pub conclude : (Option Str → Outcome A) → Option Str → Verdict A → Outcome A
  conclude next last (done r) = (1, r)
  conclude next last (again e) = let (n, r) = next (keep_last last e) in (suc n, r)

  module _ (server : Server) (request : HttpRequest) where
    -- The rounds from an attempt on; the fuel is the number of attempts that are left.
    unfoldable pub attempts : ℕ → ℕ → Option Str → Outcome A
    unfolding conclude
    attempts zero attempt last = (0, exhausted last)
    attempts (suc fuel) attempt last =
        conclude (attempts fuel (suc attempt)) last (judge attempt (server request attempt))

    -- `for attempt in 0..=RETRY_DELAYS.len()`
    unfoldable pub send : Outcome A
    send = attempts (suc (length retry_delays)) 0 none

-- `Authorization: Bearer`, if the client has a token.
unfoldable pub auth_headers : Option Str → List (Str × Str)
auth_headers none = []
auth_headers (some token) = (codes "Authorization", codes "Bearer " ++ token) ∷ []

unfoldable pub post_request : Client → Str → Bytes → HttpRequest
post_request c path json = record {
  method = post;
  url = c.base_url ++ path;
  query = [];
  headers = auth_headers c.token;
  body = some json;
}

unfoldable pub get_request : Client → Str → HttpRequest
get_request c path = record {
  method = get;
  url = c.base_url ++ path;
  query = [];
  headers = auth_headers c.token;
  body = none;
}

pub record CheckRequest : Type 0 where
  pub org_id : Option Str
  pub app_id : Str
  pub release_version : Str
  pub platform : Str
  pub arch : Str
  pub channel : Str
  pub current_patch_number : ℕ
  pub client_id : Str

abbrev org_query : Option Str → List (Str × Str)
org_query none = []
org_query (some org) = if is_blank org then [] else (codes "org_id", org) ∷ []

unfoldable pub check_query : CheckRequest → List (Str × Str)
check_query r =
    (codes "app_id", r.app_id)
    ∷ (codes "release_version", r.release_version)
    ∷ (codes "platform", r.platform)
    ∷ (codes "arch", r.arch)
    ∷ (codes "channel", r.channel)
    ∷ (codes "current_patch_number", decimal r.current_patch_number)
    ∷ (codes "client_id", r.client_id)
    ∷ org_query r.org_id

-- `check` sends no token.
unfoldable pub check_http_request : Client → CheckRequest → HttpRequest
check_http_request c r = record {
  method = get;
  url = c.base_url ++ codes "/v1/patches/check";
  query = check_query r;
  headers = [];
  body = none;
}

module _ (read_text : List Read → Str) (server : Server) where
  -- `post_json` reads no body of a success.
  unfoldable pub post_json : Client → Str → Bytes → Outcome (Unit {0})
  post_json c path json = send read_text (λ _. some tt) server (post_request c path json)

  module _ {A : Type 0} (decode : List Read → Option A) where
    unfoldable pub get_json : Client → Str → Outcome A
    get_json c path = send read_text decode server (get_request c path)

    unfoldable pub check : Client → CheckRequest → Outcome A
    check c r = send read_text decode server (check_http_request c r)

    unfoldable pub get_app : Client → Str → Outcome A
    get_app c app_id = get_json c (codes "/v1/apps/" ++ path_segment_encode app_id)

    -- `resolve_app` makes one attempt.
    unfoldable pub resolve_request : Client → Str → HttpRequest
    resolve_request c selector = record {
      method = get;
      url = c.base_url ++ codes "/v1/apps/resolve";
      query = (codes "app", selector) ∷ [];
      headers = auth_headers c.token;
      body = none;
    }

    unfoldable pub resolved : Reply → Result ClientError A
    resolved (answered status body) =
        if is_success status
        then ok_or (decode body) bad_json
        else err (http_status status (read_text body))
    resolved (failed e) = err (transport e)

    unfoldable pub resolve_app : Client → Str → Result ClientError A
    resolve_app c selector = resolved (server (resolve_request c selector) 0)
