-- ===== src/Ffi/Flights/Requests.antt =====
-- updater/src/lib.rs: the requests as keys of the map, with the equality that `CheckRequest` derives.
use fl_codepush_box.Prelude.{
  ℕ, ◌≡◌, refl, ap, Bool, true, false, ◌&&◌, Option, none, some, ◌==◌, ==_refl, Str, bytes_eq,
  bytes_eq-eq, bytes_eq_refl, arith,
}
use fl_codepush_box.Ffi.Install.{Request}
use fl_codepush_box.Ffi.Flights.{MapKey}

abbrev same_org : Option Str → Option Str → Bool
same_org none none = true
same_org (some a) (some b) = bytes_eq a b
same_org _ _ = false

same_org-eq : (a b : Option Str) → same_org a b ≡ true → a ≡ b
same_org-eq none none e = refl
same_org-eq none (some b) e = ground arith
same_org-eq (some a) none e = ground arith
same_org-eq (some a) (some b) e = ap some (bytes_eq-eq a b e)

same_org_refl : (a : Option Str) → same_org a a ≡ true
same_org_refl none = refl
same_org_refl (some a) = bytes_eq_refl a

unfoldable pub same_request : Request → Request → Bool
same_request a b =
    bytes_eq a.server_url b.server_url
    && (same_org a.org_id b.org_id
        && (bytes_eq a.app_id b.app_id
            && (bytes_eq a.release_version b.release_version
                && (bytes_eq a.platform b.platform
                    && (bytes_eq a.arch b.arch
                        && (bytes_eq a.channel b.channel
                            && (a.current_patch_number == b.current_patch_number
                                && bytes_eq a.client_id b.client_id)))))))

abbrev request : Str → Option Str → Str → Str → Str → Str → Str → ℕ → Str → Request
request server_url org_id app_id release_version platform arch channel number client_id = record {
  server_url = server_url;
  org_id = org_id;
  app_id = app_id;
  release_version = release_version;
  platform = platform;
  arch = arch;
  channel = channel;
  current_patch_number = number;
  client_id = client_id;
}

pub same_request-eq : (a b : Request) → same_request a b ≡ true → a ≡ b
unfolding same_request
same_request-eq a b e =
    let server = bytes_eq-eq a.server_url b.server_url (ground arith) in
    let org = same_org-eq a.org_id b.org_id (ground arith) in
    let app = bytes_eq-eq a.app_id b.app_id (ground arith) in
    let release = bytes_eq-eq a.release_version b.release_version (ground arith) in
    let platform = bytes_eq-eq a.platform b.platform (ground arith) in
    let arch = bytes_eq-eq a.arch b.arch (ground arith) in
    let channel = bytes_eq-eq a.channel b.channel (ground arith) in
    let number : a.current_patch_number ≡ b.current_patch_number = ground arith in
    let client = bytes_eq-eq a.client_id b.client_id (ground arith) in
    let whole : request a.server_url a.org_id a.app_id a.release_version a.platform a.arch a.channel
          a.current_patch_number a.client_id
        ≡ request b.server_url b.org_id b.app_id b.release_version b.platform b.arch b.channel
            b.current_patch_number b.client_id =
      rw (server, org, app, release, platform, arch, channel, number, client) refl in
    whole

pub same_request_refl : (a : Request) → same_request a a ≡ true
unfolding same_request
same_request_refl a =
    rw
      (
        bytes_eq_refl a.server_url,
        same_org_refl a.org_id,
        bytes_eq_refl a.app_id,
        bytes_eq_refl a.release_version,
        bytes_eq_refl a.platform,
        bytes_eq_refl a.arch,
        bytes_eq_refl a.channel,
        ==_refl a.current_patch_number,
        bytes_eq_refl a.client_id,
      )
      refl

abbrev pub requests : MapKey Request
requests = record { same = same_request; same_eq = same_request-eq; same_refl = same_request_refl }
