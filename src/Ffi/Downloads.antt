-- ===== src/Ffi/Downloads.antt =====
-- updater/src/lib.rs: the download of a patch's manifest and payload into a folder below
-- `cache_dir`/downloads, with a payload that is resumed where an earlier download stopped. The calls
-- of the file system succeed where the file exists.
pub mod Verified
pub mod Resume
pub mod Heal
use fl_codepush_box.Prelude.{
  ℕ, ◌+◌, min, Bool, true, false, not, ◌&&◌, Option, none, some, List, [], ◌∷◌, ◌++◌, if◌then◌else◌,
  ltb, Str, Bytes, codes, bytes_eq, length, take, decimal, decimal64, join, Result, ok, err,
}
use fl_codepush_box.Host.{Host}
use fl_codepush_box.Client.{Read, Server, ClientError}
use fl_codepush_box.Client.Download.{Downloaded, download_bytes, download_bytes_from_with_cancel}
use fl_codepush_box.Ffi.{
  PatchCheck, Runtime, FfiError, cancelled, file_missing, hash_mismatch, client, Poll,
  before_manifest, after_manifest, after_payload, before_payload_hash, in_payload,
}
use fl_codepush_box.Ffi.Progress.{parse_progress}

-- The files of a folder: patch_manifest.json, payload.bin.part, .progress and payload.bin.
pub record Folder : Type 0 where
  pub manifest : Option Bytes
  pub part : Option Bytes
  pub progress : Option Bytes
  pub payload : Option Bytes

-- The path of the folder.
unfoldable pub download_dir : Runtime → PatchCheck → Str
download_dir r p =
    join
      (join
        (join (join (join r.cache_dir (codes "downloads")) r.release_version)
          (decimal p.patch_number))
        r.platform)
      r.arch

-- `fs::metadata(..).len()`, 0 for a missing file.
abbrev pub file_length : Option Bytes → ℕ
file_length none = 0
file_length (some bytes) = length bytes

abbrev pub progress_length : Option Bytes → Option ℕ
progress_length none = none
progress_length (some text) = parse_progress text

abbrev pub min_or : Option ℕ → ℕ → ℕ
min_or none part_len = part_len
min_or (some progress) part_len = min progress part_len

-- `set_len`
abbrev pub truncate : ℕ → Option Bytes → Option Bytes
truncate n none = none
truncate n (some bytes) = some (take n bytes)

-- The offset, with the part file cut off there.
unfoldable pub resume_offset : Folder → Folder × ℕ
resume_offset f =
    let part_len = file_length f.part in
    let offset = min_or (progress_length f.progress) part_len in
    (if ltb offset part_len then record f { part = truncate offset f.part } else f, offset)

-- What the part file is to hold: it is opened to be appended to, or written anew.
unfoldable pub new_part : ℕ → Bool → Bytes → Option Bytes → Option Bytes
new_part offset append bytes part =
    if append && ltb 0 offset
    then (elim part [ none ↦ none | some old ↦ some (old ++ bytes) ])
    else some bytes

unfoldable pub write_part : Folder → Option Bytes → Folder × Result FfiError (Unit {0})
write_part f none = (f, err file_missing)
write_part f (some bytes) =
    (record f { part = some bytes; progress = some (decimal64 (length bytes)) }, ok tt)

abbrev pub ensure_not_cancelled : Bool → Result FfiError (Unit {0})
ensure_not_cancelled true = err cancelled
ensure_not_cancelled false = ok tt

unfoldable pub ensure_hash : Host → Str → Bytes → Str → Result FfiError (Unit {0})
ensure_hash h label bytes expected =
    if bytes_eq (h.sha256_hex bytes) expected then ok tt else err (hash_mismatch label)

module _ (h : Host) (read_text : List Read → Str) (server : Server) (local : Str → Option Bytes)
    (flag : Poll → Bool) where
  -- What follows the download of the payload.
  unfoldable pub save_payload : Folder → ℕ → Downloaded → Folder × Result FfiError (Unit {0})
  unfolding write_part new_part
  save_payload f offset (err e) = (f, err (client e))
  save_payload f offset (ok (bytes, append)) =
      if flag after_payload
      then (f, err cancelled)
      else write_part f (new_part offset append bytes f.part)

  unfoldable pub download_resumable_payload : Str → Folder → Folder × Result FfiError (Unit {0})
  unfolding save_payload
  download_resumable_payload url f =
      let (cut, offset) = resume_offset f in
      save_payload cut offset (
        download_bytes_from_with_cancel read_text (λ n. flag (in_payload n)) server url local
          offset)

  -- The part file is checked, and gets its final name.
  unfoldable pub finish_payload :
      PatchCheck → Folder → Option Bytes → Folder × Result FfiError (Unit {0})
  finish_payload p f none = (f, err file_missing)
  finish_payload p f (some bytes) =
      if flag before_payload_hash
      then (f, err cancelled)
      else (elim (ensure_hash h (codes "payload") bytes p.payload_hash) [
        | err e ↦ (f, err e)
        | ok _ ↦ (record f { part = none; progress = none; payload = some bytes }, ok tt)
      ])

  unfoldable pub finish_download :
      PatchCheck → Folder × Result FfiError (Unit {0}) → Folder × Result FfiError (Unit {0})
  unfolding finish_payload
  finish_download p (f, err e) = (f, err e)
  finish_download p (f, ok _) = finish_payload p f f.part

  -- What follows the download of the manifest.
  unfoldable pub save_manifest :
      PatchCheck → Folder → Result ClientError Bytes → Folder × Result FfiError (Unit {0})
  unfolding finish_download
  save_manifest p f (err e) = (f, err (client e))
  save_manifest p f (ok bytes) =
      if flag after_manifest
      then (f, err cancelled)
      else (elim (ensure_hash h (codes "manifest") bytes p.manifest_hash) [
        | err e ↦ (f, err e)
        | ok _ ↦
            finish_download p
              (download_resumable_payload p.payload_url (record f { manifest = some bytes }))
      ])

  unfoldable pub download_patch_files : PatchCheck → Folder → Folder × Result FfiError (Unit {0})
  unfolding save_manifest
  download_patch_files p f =
      if flag before_manifest
      then (f, err cancelled)
      else save_manifest p f (download_bytes read_text server local p.manifest_url)
