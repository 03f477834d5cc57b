-- ===== src/Ffi/Downloads/Verified.antt =====
-- updater/src/lib.rs: `download_patch_files` gives its final name to a verified payload only.
use fl_codepush_box.Prelude.{
  ℕ, ◌≡◌, refl, ◌∙◌, subst, List, ◌⊎◌, inl, inr, Bool, Option, none, some, ltb, Str, Bytes, codes,
  bytes_eq, bytes_eq-eq, Result, ok, err, Bool-cases,
}
use fl_codepush_box.Host.{Host}
use fl_codepush_box.Client.{Read, Server, ClientError}
use fl_codepush_box.Client.Download.{Downloaded}
use fl_codepush_box.Ffi.{
  PatchCheck, FfiError, hash_mismatch, Poll, before_manifest, after_manifest, after_payload,
  before_payload_hash,
}
use fl_codepush_box.Ffi.Downloads.{
  Folder, file_length, progress_length, min_or, resume_offset, new_part, write_part, ensure_hash,
  save_payload, download_resumable_payload, finish_payload, finish_download, save_manifest,
  download_patch_files,
}

-- A folder with the two files that the server promised, and with no trace of the download.
pub record IsVerified (h : Host) (p : PatchCheck) (f : Folder) : Type 0 where
  pub manifest_bytes : Bytes
  pub payload_bytes : Bytes
  pub manifest : f.manifest ≡ some manifest_bytes
  pub payload : f.payload ≡ some payload_bytes
  pub manifest_hash : h.sha256_hex manifest_bytes ≡ p.manifest_hash
  pub payload_hash : h.sha256_hex payload_bytes ≡ p.payload_hash
  pub part : f.part ≡ none
  pub progress : f.progress ≡ none

-- The folder before, the folder after, and the result: a success with verified files, or an error
-- that leaves payload.bin as it was.
abbrev pub Settled : Host → PatchCheck → Option Bytes → Folder × Result FfiError (Unit {0}) → Type 0
Settled h p before (f, r) =
    (IsVerified h p f × (r ≡ ok tt)) ⊎ ((f.payload ≡ before) × (e : FfiError) × (r ≡ err e))

abbrev Keeps : Folder → Folder → Type 0
Keeps f g = (g.manifest ≡ f.manifest) × (g.payload ≡ f.payload)

ensure_hash-ok :
    (h : Host) (label : Str) (bytes : Bytes) (expected : Str)
    → ((ensure_hash h label bytes expected ≡ ok tt) × (h.sha256_hex bytes ≡ expected))
      ⊎ ((e : FfiError) × (ensure_hash h label bytes expected ≡ err e))
unfolding ensure_hash
ensure_hash-ok h label bytes expected = elim (Bool-cases (bytes_eq (h.sha256_hex bytes) expected)) [
  | inl e ↦ inl (rw e refl, bytes_eq-eq (h.sha256_hex bytes) expected e)
  | inr e ↦ inr (hash_mismatch label, rw e refl)
]

resume_offset-Keeps : (f : Folder) → Keeps f (resume_offset f).0
unfolding resume_offset
resume_offset-Keeps f =
    elim (Bool-cases
      (ltb (min_or (progress_length f.progress) (file_length f.part)) (file_length f.part))) [
        | inl e ↦ rw e (refl, refl)
        | inr e ↦ rw e (refl, refl)
      ]

write_part-Keeps : (f : Folder) (o : Option Bytes) → Keeps f (write_part f o).0
unfolding write_part
write_part-Keeps f none = (refl, refl)
write_part-Keeps f (some bytes) = (refl, refl)

module _ (h : Host) (read_text : List Read → Str) (server : Server) (local : Str → Option Bytes)
    (flag : Poll → Bool) where
  save_payload-Keeps :
      (f : Folder) (offset : ℕ) (d : Downloaded)
      → Keeps f (save_payload h read_text server local flag f offset d).0
  unfolding save_payload
  save_payload-Keeps f offset (err e) = (refl, refl)
  save_payload-Keeps f offset (ok (bytes, append)) = elim (Bool-cases (flag after_payload)) [
    | inl e ↦ rw e (refl, refl)
    | inr e ↦ rw e (write_part-Keeps f (new_part offset append bytes f.part))
  ]

  resumable-Keeps :
      (url : Str) (f : Folder)
      → Keeps f (download_resumable_payload h read_text server local flag url f).0
  unfolding download_resumable_payload
  resumable-Keeps url f =
      let cut = resume_offset-Keeps f in
      let saved = save_payload-Keeps (resume_offset f).0 (resume_offset f).1 _ in
      (saved.0 ∙ cut.0, saved.1 ∙ cut.1)

  finish_payload-Settled :
      (p : PatchCheck) (f : Folder) (m : Bytes) (part : Option Bytes)
      → f.manifest ≡ some m
      → h.sha256_hex m ≡ p.manifest_hash
      → Settled h p f.payload (finish_payload h read_text server local flag p f part)
  unfolding finish_payload
  finish_payload-Settled p f m none e same = inr (refl, _, refl)
  finish_payload-Settled p f m (some bytes) e same = elim (Bool-cases (flag before_payload_hash)) [
    | inl c ↦ rw c (inr (refl, _, refl))
    | inr c ↦ rw c (elim (ensure_hash-ok h (codes "payload") bytes p.payload_hash) [
      | inl good ↦ rw good.0 (
          inl (
            record {
              manifest_bytes = m;
              payload_bytes = bytes;
              manifest = e;
              payload = refl;
              manifest_hash = same;
              payload_hash = good.1;
              part = refl;
              progress = refl;
            },
            refl,
          ))
      | inr bad ↦ rw bad.1 (inr (refl, bad.0, refl))
    ])
  ]

  finish_download-Settled :
      (p : PatchCheck) (before : Folder) (m : Bytes) (r : Folder × Result FfiError (Unit {0}))
      → Keeps before r.0
      → before.manifest ≡ some m
      → h.sha256_hex m ≡ p.manifest_hash
      → Settled h p before.payload (finish_download h read_text server local flag p r)
  unfolding finish_download
  finish_download-Settled p before m (f, err x) k e same = inr (k.1, x, refl)
  finish_download-Settled p before m (f, ok _) k e same =
      subst (λ b. Settled h p b (finish_payload h read_text server local flag p f f.part)) k.1
        (finish_payload-Settled p f m f.part (k.0 ∙ e) same)

  save_manifest-Settled :
      (p : PatchCheck) (f : Folder) (d : Result ClientError Bytes)
      → Settled h p f.payload (save_manifest h read_text server local flag p f d)
  unfolding save_manifest
  save_manifest-Settled p f (err x) = inr (refl, _, refl)
  save_manifest-Settled p f (ok bytes) = elim (Bool-cases (flag after_manifest)) [
    | inl c ↦ rw c (inr (refl, _, refl))
    | inr c ↦ rw c (elim (ensure_hash-ok h (codes "manifest") bytes p.manifest_hash) [
      | inl good ↦ rw good.0 (
          finish_download-Settled p (record f { manifest = some bytes }) bytes _
            (resumable-Keeps p.payload_url (record f { manifest = some bytes })) refl good.1)
      | inr bad ↦ rw bad.1 (inr (refl, bad.0, refl))
    ])
  ]

  -- Whatever the server answers and whenever the operation is cancelled, a download of a patch
  -- succeeds with a manifest and a payload that have the promised hashes, under their final names,
  -- and with no part file, or fails and leaves payload.bin as it was.
  pub download_patch_files-Settled :
      (p : PatchCheck) (f : Folder)
      → Settled h p f.payload (download_patch_files h read_text server local flag p f)
  unfolding download_patch_files
  download_patch_files-Settled p f = elim (Bool-cases (flag before_manifest)) [
    | inl c ↦ rw c (inr (refl, _, refl))
    | inr c ↦ rw c (save_manifest-Settled p f _)
  ]
