-- ===== src/Ffi/Downloads/Heal.antt =====
-- updater/src/lib.rs: `download_patch_files` from a server that serves the two files, neither of them
-- over 64 MiB, with any part file and any progress left by earlier downloads.
use fl_codepush_box.Prelude.{
  ◌≤◌, ◌≡◌, refl, ap, sym, subst, ◌∙◌, ◌⊎◌, inl, inr, Bool, true, false, Option, none, some, List,
  ◌++◌, Str, Bytes, codes, bytes_eq, bytes_eq_refl, length, Result, ok, arith, Bool-cases,
}
use fl_codepush_box.Host.{Host}
use fl_codepush_box.Client.{Read, Server}
use fl_codepush_box.Client.Download.{max_body_bytes, is_http, download_bytes, download_bytes_from}
use fl_codepush_box.Client.Download.Resume.{Serves, download-resumes}
use fl_codepush_box.Ffi.{
  PatchCheck, FfiError, Poll, before_manifest, after_manifest, before_payload_hash,
}
use fl_codepush_box.Ffi.Progress.{u64_max, parse_progress-decimal64}
use fl_codepush_box.Ffi.Downloads.{
  Folder, resume_offset, ensure_hash, finish_payload, finish_download, save_manifest,
  download_patch_files,
}
use fl_codepush_box.Ffi.Downloads.Resume.{
  contents, patched, patched-prefix, patched-whole, length-patched, resume_offset-le, with_part,
  resumable-patched,
}

-- The server serves the file at a web address: it answers every attempt by the rules for ranges. The
-- file has the promised hash, and is no longer than the client accepts.
pub record Offers (h : Host) (server : Server) (url : Str) (hash : Str) (file : Bytes)
    : Type 0 where
  pub serves : Serves server url file
  pub web : is_http url ≡ true
  pub small : length file ≤ max_body_bytes
  pub hashed : h.sha256_hex file ≡ hash

ensure_hash-same :
    (h : Host) (label : Str) (bytes : Bytes) (expected : Str)
    → h.sha256_hex bytes ≡ expected
    → ensure_hash h label bytes expected ≡ ok tt
unfolding ensure_hash
ensure_hash-same h label bytes expected e = rw (e, bytes_eq_refl expected) refl

-- The offset of a part file whose length is the recorded progress.
resume_offset-with_part :
    (f : Folder) (bytes : Bytes)
    → length bytes ≤ u64_max
    → (resume_offset (with_part f bytes)).1 ≡ length bytes
unfolding resume_offset
resume_offset-with_part f bytes fits =
    rw (parse_progress-decimal64 (length bytes) fits) (omega arith)

module _ (h : Host) (read_text : List Read → Str) (server : Server) (local : Str → Option Bytes)
    (flag : Poll → Bool) (p : PatchCheck) (manifest file : Bytes) where
  module _ (quiet : (q : Poll) → flag q ≡ false)
      (manifests : Offers h server p.manifest_url p.manifest_hash manifest)
      (payloads : Offers h server p.payload_url p.payload_hash file) where
    manifest_downloaded : download_bytes read_text server local p.manifest_url ≡ ok manifest
    unfolding download_bytes download_bytes_from
    manifest_downloaded =
        rw
          (download-resumes read_text (λ n. false) server p.manifest_url manifest (λ n. refl)
            manifests.small manifests.serves local 0 manifests.web)
          refl

    -- The folder and its part file before the check of the payload.
    abbrev cut : Folder → Folder
    cut f = (resume_offset (record f { manifest = some manifest })).0

    abbrev filled : Folder → Bytes
    filled f =
        patched (contents f.part) (resume_offset (record f { manifest = some manifest })).1 file

    checked_last :
        (f : Folder)
        → download_patch_files h read_text server local flag p f
          ≡ finish_payload h read_text server local flag p
              (with_part (cut f) (filled f))
              (some (filled f))
    unfolding download_patch_files save_manifest finish_download
    checked_last f =
        rw
          (
            quiet before_manifest,
            manifest_downloaded,
            quiet after_manifest,
            ensure_hash-same h (codes "manifest") manifest p.manifest_hash manifests.hashed,
            resumable-patched h read_text server local flag p.payload_url file quiet payloads.small
                payloads.serves payloads.web (record f { manifest = some manifest }),
          )
          refl

    whole_accepted :
        (f : Folder) (bytes : Bytes)
        → bytes ≡ file
        → finish_payload h read_text server local flag p f (some bytes)
          ≡ (record f { part = none; progress = none; payload = some file }, ok tt)
    unfolding finish_payload
    whole_accepted f bytes e =
        ap (λ b. finish_payload h read_text server local flag p f (some b)) e
        ∙ rw
            (
              quiet before_payload_hash,
              ensure_hash-same h (codes "payload") file p.payload_hash payloads.hashed,
            )
            refl

    succeeds :
        (f : Folder)
        → filled f ≡ file
        → ((download_patch_files h read_text server local flag p f).1 ≡ ok tt)
          × ((download_patch_files h read_text server local flag p f).0.payload ≡ some file)
    succeeds f e =
        let last = checked_last f ∙ whole_accepted (with_part (cut f) (filled f)) (filled f) e in
        (
          ap (λ (r : Folder × Result FfiError (Unit {0})). r.1) last,
          ap (λ (r : Folder × Result FfiError (Unit {0})). r.0.payload) last,
        )

    -- Nobody cancels, and the manifest and the payload are at web addresses, have the promised
    -- hashes, and are of 64 MiB at most each. The server answers every attempt for one of them by
    -- the rules for ranges: with the whole file, with the rest from the offset asked for and 206, or
    -- with 416 where there is no rest, and no body breaks off. Then, if the part file holds a beginning of the payload, the
    -- download succeeds with the whole payload, whatever progress is recorded.
    pub download_patch_files-resumes :
        (f : Folder) (old rest : Bytes)
        → f.part ≡ some old
        → file ≡ old ++ rest
        → ((download_patch_files h read_text server local flag p f).1 ≡ ok tt)
          × ((download_patch_files h read_text server local flag p f).0.payload ≡ some file)
    download_patch_files-resumes f old rest e whole =
        let g = record f { manifest = some manifest } in
        let le : (resume_offset g).1 ≤ length old =
          subst (λ o. (resume_offset g).1 ≤ length (contents o)) e (resume_offset-le g) in
        succeeds f (
          ap (λ o. patched (contents o) (resume_offset g).1 file) e
          ∙ subst (λ x. patched old (resume_offset g).1 x ≡ x) (sym whole)
              (patched-prefix old rest (resume_offset g).1 le))

    -- The second download.
    refilled : (f : Folder) → filled (with_part (cut f) (filled f)) ≡ file
    refilled f =
        let first = record f { manifest = some manifest } in
        let again = record (cut f) { manifest = some manifest } in
        let long : length (filled f) ≡ length file =
          length-patched (contents f.part) file (resume_offset first).1 (resume_offset-le first) in
        let small = payloads.small in
        let offset : (resume_offset (with_part again (filled f))).1 ≡ length file =
          resume_offset-with_part again (filled f) (omega (arith, long, small)) ∙ long in
        ap (λ n. patched (filled f) n file) offset ∙ patched-whole (filled f) file

    finish_payload-part :
        (f : Folder) (bytes : Bytes)
        → ((finish_payload h read_text server local flag p (with_part f bytes) (some bytes)).1
            ≡ ok tt)
          ⊎ ((finish_payload h read_text server local flag p (with_part f bytes) (some bytes)).0
              ≡ with_part f bytes)
    unfolding finish_payload ensure_hash
    finish_payload-part f bytes = elim (Bool-cases (bytes_eq (h.sha256_hex bytes) p.payload_hash)) [
      | inl e ↦ inl (rw (quiet before_payload_hash, e) refl)
      | inr e ↦ inr (rw (quiet before_payload_hash, e) refl)
    ]

    -- Nobody cancels, and the manifest and the payload are at web addresses, have the promised
    -- hashes, and are of 64 MiB at most each. The server answers every attempt for one of them by
    -- the rules for ranges: with the whole file, with the rest from the offset asked for and 206, or
    -- with 416 where there is no rest, and no body breaks off. Then at most two downloads are needed, whatever part file and
    -- progress are there, damaged ones included: the first or the second succeeds.
    pub download_patch_files-heals :
        (f : Folder)
        → ((download_patch_files h read_text server local flag p f).1 ≡ ok tt)
          ⊎ ((download_patch_files h read_text server local flag p
                (download_patch_files h read_text server local flag p f).0).1
              ≡ ok tt)
    download_patch_files-heals f =
        let run = download_patch_files h read_text server local flag p in
        elim (finish_payload-part (cut f) (filled f)) [
          | inl good ↦
              inl (ap (λ (r : Folder × Result FfiError (Unit {0})). r.1) (checked_last f) ∙ good)
          | inr kept ↦
              let left : (run f).0 ≡ with_part (cut f) (filled f) =
                ap (λ (r : Folder × Result FfiError (Unit {0})). r.0) (checked_last f) ∙ kept in
              inr (
                subst (λ g. (run g).1 ≡ ok tt) (sym left)
                  (succeeds (with_part (cut f) (filled f)) (refilled f)).0)
        ]
