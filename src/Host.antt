-- ===== src/Host.antt =====
-- What the code takes from other packages: sha2 with hex, base64, ed25519_dalek, serde_json, zstd and
-- bsdiff. `none` is a call that fails. The record of a simple diff, of
-- crates/fcb_core/src/diff.rs, stands here because serde_json parses it.
pub mod Example
use fl_codepush_box.Prelude.{ℕ, ◌≡◌, Bool, true, Option, some, length, Bytes, Str}
use fl_codepush_box.Bytecode.Format.{BytecodeModule}
use fl_codepush_box.Manifest.{PatchManifest}

pub record SimpleBinaryDiff : Type 0 where
  pub algorithm : Str
  pub base_hash : Str
  pub output_hash : Str
  pub prefix_len : ℕ
  pub suffix_len : ℕ
  pub insert_b64 : Str

pub record Host : Type 0 where
  pub sha256_hex : Bytes → Str
  pub b64_encode : Bytes → Str
  pub b64_decode : Str → Option Bytes
  -- `VerifyingKey::from_bytes` accepts the key, and `verify` the signature of the message.
  pub is_verifying_key : Bytes → Bool
  pub ed25519_verify : Bytes → Bytes → Bytes → Bool
  -- The verifying key of a seed of 32 bytes, and the signature of a message.
  pub ed25519_public : Bytes → Bytes
  pub ed25519_sign : Bytes → Bytes → Bytes
  pub canonical_json : PatchManifest → Bytes
  pub parse_manifest : Bytes → Option PatchManifest
  pub parse_module : Bytes → Option BytecodeModule
  pub render_simple_diff : SimpleBinaryDiff → Bytes
  pub parse_simple_diff : Bytes → Option SimpleBinaryDiff
  pub zstd_decode : Bytes → Option Bytes
  pub bsdiff_patch : Bytes → Bytes → Option Bytes

-- A seed's verifying key accepts the seed's signatures; their lengths are those of the standard.
pub record SignsMessages (h : Host) : Type 0 where
  pub b64 : (bytes : Bytes) → h.b64_decode (h.b64_encode bytes) ≡ some bytes
  pub key_length : (seed : Bytes) → length (h.ed25519_public seed) ≡ 32
  pub signature_length : (seed message : Bytes) → length (h.ed25519_sign seed message) ≡ 64
  pub is_key : (seed : Bytes) → h.is_verifying_key (h.ed25519_public seed) ≡ true
  pub verifies :
      (seed message : Bytes)
      → h.ed25519_verify (h.ed25519_public seed) message (h.ed25519_sign seed message) ≡ true

-- What is decoded or parsed is what was encoded or rendered.
pub record DecodesText (h : Host) : Type 0 where
  pub b64 : (bytes : Bytes) → h.b64_decode (h.b64_encode bytes) ≡ some bytes
  pub simple_diff : (d : SimpleBinaryDiff) → h.parse_simple_diff (h.render_simple_diff d) ≡ some d
