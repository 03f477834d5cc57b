-- ===== src/Signing/Sign.antt =====
-- crates/fcb_core/src/manifest.rs: `sign_patch_manifest`, and the check of what it signs.
use fl_codepush_box.Prelude.{◌≡◌, refl, ap, ◌∙◌, [], Str, Bytes, Result, ok, err, arith}
use fl_codepush_box.Manifest.{PatchManifest}
use fl_codepush_box.Host.{Host, SignsMessages}
use fl_codepush_box.Signing.{SigningError, ed25519, verify_b64, verify_patch_manifest}
use fl_codepush_box.Signing.Keys.{private_key_seed, sign_b64, public_key_b64_from_private_key}

-- The manifest that is signed.
abbrev to_sign : PatchManifest → PatchManifest
to_sign m = record m { signature = record m.signature { algorithm = ed25519; value = [] } }

abbrev pub with_signature : PatchManifest → Str → PatchManifest
with_signature m signed = record m {
  signature = record m.signature { algorithm = ed25519; value = signed };
}

unfoldable pub signed_or_kept :
    PatchManifest → Result SigningError Str → PatchManifest × Result SigningError (Unit {0})
signed_or_kept m (ok signed) = (with_signature m signed, ok tt)
signed_or_kept m (err e) = (m, err e)

module _ (h : Host) where
  -- The manifest afterwards, and the result.
  unfoldable pub sign_patch_manifest :
      PatchManifest → Str → PatchManifest × Result SigningError (Unit {0})
  unfolding signed_or_kept
  sign_patch_manifest m private_key_b64 =
      signed_or_kept m (sign_b64 h private_key_b64 (h.canonical_json (to_sign m)))

  module _ (w : SignsMessages h) where
    signature_accepted :
        (seed message : Bytes)
        → verify_b64 h
            (h.b64_encode (h.ed25519_public seed))
            message
            (h.b64_encode (h.ed25519_sign seed message))
          ≡ ok tt
    unfolding verify_b64
    signature_accepted seed message =
        rw
          (
            w.b64 (h.ed25519_public seed),
            w.key_length seed,
            w.is_key seed,
            w.b64 (h.ed25519_sign seed message),
            w.signature_length seed message,
            w.verifies seed message,
          )
          refl

    seed_accepted :
        (m : PatchManifest) (key public : Str) (seed : Result SigningError Bytes)
        → private_key_seed h key ≡ seed
        → public_key_b64_from_private_key h key ≡ ok public
        → ((sign_patch_manifest m key).1 ≡ ok tt)
          × (verify_patch_manifest h (sign_patch_manifest m key).0 public ≡ ok tt)
    unfolding sign_patch_manifest signed_or_kept sign_b64 public_key_b64_from_private_key
        verify_patch_manifest
    seed_accepted m key public (err e) there k = ground arith
    seed_accepted m key public (ok seed) there k =
        let message = h.canonical_json (to_sign m) in
        let given : public ≡ h.b64_encode (h.ed25519_public seed) = ground arith in
        rw there (
          refl,
          ap (λ p. verify_b64 h p message (h.b64_encode (h.ed25519_sign seed message))) given
              ∙ signature_accepted seed message,
        )

    -- With key material that has a public key, signing a manifest succeeds, and the check of the signed
    -- manifest with that public key accepts it.
    pub sign_patch_manifest-verify :
        (m : PatchManifest) (key public : Str)
        → public_key_b64_from_private_key h key ≡ ok public
        → ((sign_patch_manifest m key).1 ≡ ok tt)
          × (verify_patch_manifest h (sign_patch_manifest m key).0 public ≡ ok tt)
    sign_patch_manifest-verify m key public =
        seed_accepted m key public (private_key_seed h key) refl
