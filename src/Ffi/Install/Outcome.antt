-- ===== src/Ffi/Install/Outcome.antt =====
-- updater/src/lib.rs: what `download_and_install` has done where it returns true.
use fl_codepush_box.Prelude.{
  ◌≡◌, refl, ap, sym, ◌∙◌, subst, ◌⊎◌, inl, inr, Bool, true, false, Option, none, some, Str, Bytes,
  Result, ok, err, arith, Bool-cases, contains,
}
use fl_codepush_box.Manifest.{PatchManifest}
use fl_codepush_box.Signing.{verify_patch_manifest}
use fl_codepush_box.State.{InstalledPatch}
use fl_codepush_box.State.Disk.{Disk, load_state}
use fl_codepush_box.State.Launch.{launch_patch}
use fl_codepush_box.State.PatchFiles.{InstallError}
use fl_codepush_box.State.Install.{install_payload_with_baseline}
use fl_codepush_box.State.Install.Pending.{install_payload-IsInstalled}
use fl_codepush_box.State.Install.NextLaunch.{install_payload-launch_patch}
use fl_codepush_box.Ffi.{PatchCheck, CheckResponse, Runtime, FfiError, before_install}
use fl_codepush_box.Ffi.Downloads.{Folder, download_dir}
use fl_codepush_box.Ffi.Downloads.Verified.{IsVerified, Settled, download_patch_files-Settled}
use fl_codepush_box.Ffi.Events.{Outside, Store, post_install_event, is_unconfigured}
use fl_codepush_box.Ffi.Install.{
  finish_install, install_downloaded, install_offer, proceed, install_response, last_or_new, ready,
  download_and_install, put_folder, read_baseline,
}

module _ (o : Outside) (r : Runtime) (later : Str) where
  -- A manifest and a payload with the hashes of the server's offer, the manifest signed by the
  -- runtime's key and the payload's hash signed with it; and the next launch returns that patch,
  -- unless it is listed as bad.
  pub record IsInstalledOffer (p : PatchCheck) (before after : Disk) : Type 0 where
    pub manifest_bytes : Bytes
    pub payload_bytes : Bytes
    pub manifest : PatchManifest
    pub manifest_hash : o.host.sha256_hex manifest_bytes ≡ p.manifest_hash
    pub payload_hash : o.host.sha256_hex payload_bytes ≡ p.payload_hash
    pub parsed : o.host.parse_manifest manifest_bytes ≡ some manifest
    pub signed : verify_patch_manifest o.host manifest r.public_key_b64 ≡ ok tt
    pub signed_hash : o.host.sha256_hex payload_bytes ≡ manifest.payload.hash
    pub launched :
        (contains (load_state o.now before).1.bad_patches manifest.patch_number ≡ true)
        ⊎ ((i : InstalledPatch) × ((launch_patch later after).1 ≡ some i)
            × (i.patch_number ≡ manifest.patch_number))

  disk-post_install_event :
      (p : PatchCheck) (st : Store) → (post_install_event o r p.patch_number st).disk ≡ st.disk
  unfolding post_install_event
  disk-post_install_event p st = elim (Bool-cases (is_unconfigured r)) [
    | inl e ↦ rw e refl
    | inr e ↦ rw e refl
  ]

  -- A successful install.
  installed-IsInstalledOffer :
      (p : PatchCheck) (f : Folder) (d : Disk) {d' : Disk}
      → IsVerified o.host p f
      → install_payload_with_baseline o.host o.snapshot_replace o.now f.manifest f.payload
          r.public_key_b64
          (read_baseline o r.baseline_artifact_path)
          d
        ≡ (d', ok tt)
      → IsInstalledOffer p d d'
  installed-IsInstalledOffer p f d {d'} v k =
      let baseline = read_baseline o r.baseline_artifact_path in
      let (m, c, _) =
        install_payload-IsInstalled o.host o.snapshot_replace o.now r.public_key_b64 f.manifest
          f.payload baseline d k in
      let offered = v.manifest in
      let there = c.read in
      let offered_payload = v.payload in
      let there_payload = c.read_payload in
      let same : c.manifest_bytes ≡ v.manifest_bytes = cc (offered, there) in
      let same_payload : c.payload_bytes ≡ v.payload_bytes = cc (offered_payload, there_payload) in
      let bad = contains (load_state o.now d).1.bad_patches m.patch_number in
      record {
        manifest_bytes = c.manifest_bytes;
        payload_bytes = c.payload_bytes;
        manifest = m;
        manifest_hash = ap o.host.sha256_hex same ∙ v.manifest_hash;
        payload_hash = ap o.host.sha256_hex same_payload ∙ v.payload_hash;
        parsed = c.parsed;
        signed = c.signed;
        signed_hash = c.hashed;
        launched = elim (Bool-cases bad) [
          | inl e ↦ inl e
          | inr good ↦ inr (
              install_payload-launch_patch o.host o.snapshot_replace o.now r.public_key_b64
                f.manifest f.payload baseline d later c.manifest_bytes m c.read c.parsed good k)
        ];
      }

  finish_install-IsInstalledOffer :
      (p : PatchCheck) (f : Folder) (st : Store) (last : Disk × Result InstallError (Unit {0}))
      {st' : Store}
      → IsVerified o.host p f
      → install_payload_with_baseline o.host o.snapshot_replace o.now f.manifest f.payload
          r.public_key_b64
          (read_baseline o r.baseline_artifact_path)
          st.disk
        ≡ last
      → finish_install o r p.patch_number st last ≡ (st', ok true)
      → IsInstalledOffer p st.disk st'.disk
  unfolding finish_install
  finish_install-IsInstalledOffer p f st (d, err e) v k h = ground arith
  finish_install-IsInstalledOffer p f st (d, ok _) v k h =
      let posted = disk-post_install_event p (record st { disk = d }) in
      let kept = ap (λ (x : Store × Result FfiError Bool). x.0.disk) h in
      subst (IsInstalledOffer p st.disk) (sym posted ∙ kept)
        (installed-IsInstalledOffer p f st.disk v k)

  install_downloaded-IsInstalledOffer :
      (p : PatchCheck) (st : Store) (before : Option Bytes)
      (last : Folder × Result FfiError (Unit {0})) {st' : Store}
      → Settled o.host p before last
      → install_downloaded o r p st last ≡ (st', ok true)
      → IsInstalledOffer p st.disk st'.disk
  unfolding install_downloaded
  install_downloaded-IsInstalledOffer p st before (f, err e) s h = ground arith
  install_downloaded-IsInstalledOffer p st before (f, ok _) {st'} (inl (v, e)) h =
      let there = record st { folders = put_folder (download_dir r p) f st.folders } in
      let last =
        install_payload_with_baseline o.host o.snapshot_replace o.now f.manifest f.payload
          r.public_key_b64 (read_baseline o r.baseline_artifact_path) st.disk in
      elim (Bool-cases (o.flag before_install)) [
        | inl c ↦ ground arith
        | inr c ↦ finish_install-IsInstalledOffer p f there last {st' = st'} v refl (ground arith)
      ]
  install_downloaded-IsInstalledOffer p st before (f, ok _) (inr (k, x, e)) h = ground arith

  install_offer-IsInstalledOffer :
      (st : Store) (available : Bool) (offer : Option PatchCheck) {st' : Store}
      → install_offer o r st available offer ≡ (st', ok true)
      → (p : PatchCheck) × (offer ≡ some p) × IsInstalledOffer p st.disk st'.disk
  unfolding install_offer
  install_offer-IsInstalledOffer st true none h = ground arith
  install_offer-IsInstalledOffer st false none h = ground arith
  install_offer-IsInstalledOffer st available (some p) h =
      let folder = st.folders (download_dir r p) in
      let settled =
        download_patch_files-Settled o.host o.read_text o.server o.local o.flag p folder in
      (p, refl, install_downloaded-IsInstalledOffer p st folder.payload _ settled h)

  response-IsInstalledOffer :
      (found : Store × Result FfiError CheckResponse) {st' : Store}
      → install_response o r found ≡ (st', ok true)
      → (c : CheckResponse) × (p : PatchCheck) × (found.1 ≡ ok c)
        × (c.patch ≡ some p)
        × IsInstalledOffer p found.0.disk st'.disk
  unfolding install_response
  response-IsInstalledOffer (st, err e) h = ground arith
  response-IsInstalledOffer (st, ok c) h =
      let (p, e, w) = install_offer-IsInstalledOffer st c.patch_available c.patch h in
      (c, p, refl, e, w)

  proceed-IsInstalledOffer :
      (st : Store) (go : Result FfiError (Unit {0})) {st' : Store}
      → proceed o r st go ≡ (st', ok true)
      → (c : CheckResponse) × (p : PatchCheck) × ((last_or_new o r st).1 ≡ ok c)
        × (c.patch ≡ some p)
        × IsInstalledOffer p (last_or_new o r st).0.disk st'.disk
  unfolding proceed
  proceed-IsInstalledOffer st (err e) h = ground arith
  proceed-IsInstalledOffer st (ok _) h = response-IsInstalledOffer (last_or_new o r st) h

  -- Where `download_and_install` returns true, the last check, or a new one, offered a patch; the
  -- files that were installed have the hashes of the offer, the manifest is signed for the runtime's
  -- key, with the payload's hash in it, and the next launch, at any time, returns the patch of that
  -- manifest, unless it is listed as bad.
  pub download_and_install-IsInstalledOffer :
      (st : Store) {st' : Store}
      → download_and_install o r st ≡ (st', ok true)
      → (c : CheckResponse) × (p : PatchCheck) × ((last_or_new o r st).1 ≡ ok c)
        × (c.patch ≡ some p)
        × IsInstalledOffer p (last_or_new o r st).0.disk st'.disk
  unfolding download_and_install
  download_and_install-IsInstalledOffer st h = proceed-IsInstalledOffer st (ready o r) h
