-- ===== src/Ffi/Install/Examples.antt =====
-- A concrete run of `download_and_install` of updater/src/lib.rs.
use fl_codepush_box.Prelude.{
  ◌≡◌, refl, ap, Bool, true, false, none, some, [], ◌∷◌, codes, is_blank, Result, ok,
}
use fl_codepush_box.Host.Example.{example_host, zeros}
use fl_codepush_box.Client.Example.{one_byte}
use fl_codepush_box.Client.Download.{
  download_bytes, download_bytes_from, download_bytes_from_with_cancel, download_attempts,
  conclude_download, judge_download, range_request, range_headers, read_body,
}
use fl_codepush_box.Signing.{verify_b64, verify_patch_manifest}
use fl_codepush_box.Bytecode.Load.{from_slice_envelope}
use fl_codepush_box.Bytecode.Envelope.{
  validate_envelope, check_functions, check_source_map, check_debug_locals,
}
use fl_codepush_box.State.PatchFiles.{validate_payload_contract}
use fl_codepush_box.State.Install.{
  checked, make_artifact, finish, store, install_payload_with_baseline,
}
use fl_codepush_box.Ffi.{Runtime, new, PatchCheck, CheckResponse, FfiError}
use fl_codepush_box.Ffi.Downloads.{
  download_patch_files, save_manifest, finish_download, finish_payload, ensure_hash,
  download_resumable_payload, resume_offset, save_payload, write_part, new_part,
}
use fl_codepush_box.Ffi.Events.{Outside, Store}
use fl_codepush_box.Ffi.Install.{
  download_and_install, proceed, ensure_configured, install_response, install_offer,
  install_downloaded, finish_install, last_or_new,
}
use fl_codepush_box.Ffi.Install.Outcome.{IsInstalledOffer, download_and_install-IsInstalledOffer}

abbrev outside : Outside
outside = record {
  host = example_host;
  read_text = λ reads. [];
  server = one_byte;
  local = λ path. none;
  decode_check = λ reads. none;
  render_event = λ e. [];
  flag = λ q. false;
  snapshot_replace = false;
  now = codes "0";
  stats = record { interpreted = 0; aot = 0 };
}

-- The example's hash is the identity, and every manifest is the same.
abbrev offer : PatchCheck
offer = record {
  patch_number = 2;
  manifest_url = codes "http://h/m";
  payload_url = codes "http://h/p";
  manifest_hash = 7 ∷ [];
  payload_hash = 7 ∷ [];
}

abbrev runtime : Runtime
runtime = record new {
  app_id = codes "app";
  release_version = codes "1.0";
  server_url = codes "http://h";
  public_key_b64 = zeros 32;
  last_check = some (record { patch_available = true; patch = some offer });
}

abbrev here : Store
here = record {
  disk = record { state_json = none; corrupt_backups = []; events_log = none; patch_files = [] };
  config_json = none;
  folders = λ dir. record { manifest = none; part = none; progress = none; payload = none };
  posted = [];
}

abbrev run : Store × Result FfiError Bool
run = download_and_install outside runtime here

accepted : run.1 ≡ ok true
unfolding download_and_install proceed ensure_configured install_response install_offer
    install_downloaded finish_install new download_patch_files save_manifest finish_download
    finish_payload ensure_hash download_bytes download_bytes_from download_bytes_from_with_cancel
    download_attempts conclude_download judge_download range_request range_headers read_body
    download_resumable_payload resume_offset save_payload write_part new_part
    install_payload_with_baseline checked store finish make_artifact verify_patch_manifest
    verify_b64 validate_payload_contract from_slice_envelope validate_envelope check_functions
    check_source_map check_debug_locals is_blank
accepted = refl

installed : run ≡ (run.0, ok true)
installed = ap (λ (r : Result FfiError Bool). (run.0, r)) accepted

download_and_install-IsInstalledOffer_example :
    (c : CheckResponse) × (p : PatchCheck) × ((last_or_new outside runtime here).1 ≡ ok c)
    × (c.patch ≡ some p)
    × IsInstalledOffer outside runtime
        (codes "1")
        p
        (last_or_new outside runtime here).0.disk
        run.0.disk
download_and_install-IsInstalledOffer_example =
    download_and_install-IsInstalledOffer outside runtime (codes "1") here {st' = run.0} installed
