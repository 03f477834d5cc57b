-- ===== src/Signing.antt =====
-- crates/fcb_core/src/crypto.rs (`verify_b64`, and `sign_b64` for a base64 seed) and
-- crates/fcb_core/src/manifest.rs (`sign_patch_manifest`, `verify_patch_manifest`).
pub mod Keys
pub mod Sign
mod Examples
use fl_codepush_box.Prelude.{
  not, [], ◌==◌, Bytes, Str, codes, bytes_eq, length, Result, ◌>>=◌, ◌>>◌, refuse_if, ok_or,
}
use fl_codepush_box.Manifest.{PatchManifest}
use fl_codepush_box.Host.{Host}

pub data SigningError : Type 0 where
  public_key_base64 public_key_length public_key_invalid : SigningError
  signature_base64 signature_length verification_failed unsupported_algorithm : SigningError
  private_key_base64 private_key_length : SigningError
  openssh_base64 openssh_header openssh_truncated openssh_text openssh_encrypted : SigningError
  openssh_key_count openssh_checkints openssh_key_type openssh_public_length : SigningError
  openssh_private_length openssh_embedded_key openssh_other_key : SigningError

abbrev pub ed25519 : Str
ed25519 = codes "ed25519"

-- The manifest that is signed: with no signature value.
abbrev pub unsigned : PatchManifest → PatchManifest
unsigned m = record m { signature = record m.signature { value = [] } }

module _ (h : Host) where
  unfoldable pub verify_b64 : Str → Bytes → Str → Result SigningError (Unit {0})
  verify_b64 public_key_b64 message signature_b64 = do
    key ← ok_or (h.b64_decode public_key_b64) public_key_base64
    refuse_if (not (length key == 32)) public_key_length
    refuse_if (not (h.is_verifying_key key)) public_key_invalid
    signature ← ok_or (h.b64_decode signature_b64) signature_base64
    refuse_if (not (length signature == 64)) signature_length
    refuse_if (not (h.ed25519_verify key message signature)) verification_failed

  unfoldable pub verify_patch_manifest : PatchManifest → Str → Result SigningError (Unit {0})
  verify_patch_manifest m public_key_b64 = do
    refuse_if (not (bytes_eq m.signature.algorithm ed25519)) unsupported_algorithm
    verify_b64 public_key_b64 (h.canonical_json (unsigned m)) m.signature.value
