-- ===== src/Client.antt =====
-- crates/fcb_core/src/server_api.rs: the client of the patch server, its requests and the replies to
-- them. A reply comes from `ureq`; it is a failure of the transport, or a status and the reads of
-- the body.
pub mod Delay
pub mod Segments
pub mod Calls
pub mod Download
pub mod Example
mod Examples
use fl_codepush_box.Prelude.{
  ℕ, zero, suc, ◌+◌, ◌-◌, ◌*◌, ◌/◌, ◌%◌, Bool, true, false, not, ◌&&◌, ◌||◌, Option, none, some,
  List, [], ◌∷◌, ◌++◌, if◌then◌else◌, ◌==◌, ltb, leb, Str, Bytes, codes, length, get_or, is_blank,
  min,
}

-- One read of a body: the bytes that it delivers, or an error. A body ends with its last read.
pub data Read : Type 0 where
  chunk : Bytes → Read
  broken : Read

pub data Reply : Type 0 where
  failed : Str → Reply
  answered : ℕ → List Read → Reply

pub data Method : Type 0 where
  get post : Method

pub record HttpRequest : Type 0 where
  pub method : Method
  pub url : Str
  pub query : List (Str × Str)
  pub headers : List (Str × Str)
  pub body : Option Bytes

-- What comes back for a request at each attempt. Any function is a server: it answers each attempt
-- as it likes.
abbrev pub Server : Type 0
Server = HttpRequest → ℕ → Reply

-- One constructor for each error, and `panicked` for the panic of `expect`.
pub data ClientError : Type 0 where
  transport : Str → ClientError
  http_status : ℕ → Str → ClientError
  bad_json cancelled body_too_large body_unreadable file_unreadable panicked : ClientError

pub record Client : Type 0 where
  pub base_url : Str
  pub token : Option Str

-- `trim_end_matches('/')`
abbrev trim_slash : ℕ → Str → Str
trim_slash b [] = if b == 47 then [] else b ∷ []
trim_slash b (c ∷ s) = b ∷ c ∷ s

unfoldable pub trim_slashes : Str → Str
trim_slashes [] = []
trim_slashes (b ∷ s) = trim_slash b (trim_slashes s)

unfoldable pub new : Str → Client
new base_url = record { base_url = trim_slashes base_url; token = none }

unfoldable pub with_token : Client → Str → Client
with_token c token = if is_blank token then c else record c { token = some token }

-- `RETRY_DELAYS`, in microseconds.
abbrev pub retry_delays : List ℕ
retry_delays = 50000 ∷ 200000 ∷ 800000 ∷ 3200000 ∷ []

unfoldable pub can_retry : ℕ → Bool
can_retry attempt = ltb attempt (length retry_delays)

unfoldable pub should_retry_status : ℕ → Bool
should_retry_status status = leb 500 status

-- `StatusCode::is_success`
abbrev pub is_success : ℕ → Bool
is_success status = leb 200 status && ltb status 300

-- The delay in microseconds, from the nanoseconds of the clock. The sums are `u128`, and far from
-- its bound.
unfoldable pub retry_delay : ℕ → ℕ → ℕ
retry_delay attempt seed =
    let base = get_or retry_delays attempt 0 in
    let jitter = base / 4 in let span = jitter * 2 + 1 in base - jitter + seed % span

abbrev pub hex_digit : ℕ → ℕ
hex_digit n = if ltb n 10 then 48 + n else 55 + n

-- Whether a byte stands for itself in a path segment.
abbrev pub is_unreserved : ℕ → Bool
is_unreserved b =
    (leb 48 b && leb b 57)
    || ((leb 65 b && leb b 90)
        || ((leb 97 b && leb b 122) || (b == 45 || (b == 46 || (b == 95 || b == 126)))))

unfoldable pub path_segment_encode : Str → Str
path_segment_encode [] = []
path_segment_encode (b ∷ s) =
    let rest = path_segment_encode s in
    if is_unreserved b then b ∷ rest else 37 ∷ hex_digit (b / 16) ∷ hex_digit (b % 16) ∷ rest
