-- ===== src/Signing/Examples.antt =====
-- Concrete keys and signatures of crates/fcb_core/src/crypto.rs.
use fl_codepush_box.Prelude.{
  ℕ, ◌≡◌, refl, ◌∷◌, ◌++◌, Bytes, Str, codes, length, trim, trim_start, trim_end, is_utf8, is_blank,
  ok, err,
}
use fl_codepush_box.Host.Example.{example_host, example_host-SignsMessages, example_manifest, zeros}
use fl_codepush_box.Signing.{openssh_checkints, verify_patch_manifest}
use fl_codepush_box.Signing.Keys.{
  take_bytes, read_u32, read_string, read_string_utf8, private_part, private_key_seed,
  public_key_b64_from_private_key,
}
use fl_codepush_box.Signing.Sign.{sign_patch_manifest, sign_patch_manifest-verify}

abbrev sized : Bytes → Bytes
sized bytes = 0 ∷ 0 ∷ 0 ∷ length bytes ∷ bytes

-- The private part of a key, with these numbers to be compared.
abbrev private_blob : ℕ → ℕ → Bytes
private_blob check1 check2 =
    0
    ∷ 0
    ∷ 0
    ∷ check1
    ∷ 0
    ∷ 0
    ∷ 0
    ∷ check2
    ∷ (sized (codes "ssh-ed25519") ++ (sized (zeros 32) ++ sized (zeros 64)))

seed_found : private_part example_host (private_blob 5 5) ≡ ok (zeros 32)
unfolding private_part read_u32 read_string read_string_utf8 take_bytes is_utf8
seed_found = refl

wrong_checkints : private_part example_host (private_blob 5 6) ≡ err openssh_checkints
unfolding private_part read_u32 read_string read_string_utf8 take_bytes is_utf8
wrong_checkints = refl

-- The example's base64 is the identity, so that this is a seed of 32 bytes.
abbrev key : Str
key = codes "0123456789abcdef0123456789abcdef"

public_key : public_key_b64_from_private_key example_host key ≡ ok (zeros 32)
unfolding public_key_b64_from_private_key private_key_seed trim trim_start trim_end is_blank
public_key = refl

sign_patch_manifest-verify_example :
    ((sign_patch_manifest example_host example_manifest key).1 ≡ ok tt)
    × (verify_patch_manifest example_host
          (sign_patch_manifest example_host example_manifest key).0
          (zeros 32)
        ≡ ok tt)
sign_patch_manifest-verify_example =
    sign_patch_manifest-verify example_host example_host-SignsMessages example_manifest key
      (zeros 32) public_key
