-- ===== src/Ffi/Keys.antt =====
-- updater/src/lib.rs: the public key that `fcb_init` accepts: the base64 of 32 bytes or of a
-- SubjectPublicKeyInfo, or the PEM of one.
use fl_codepush_box.Prelude.{
  ℕ, ◌+◌, Bool, true, false, Option, none, some, [], ◌∷◌, if◌then◌else◌, ◌==◌, leb, Str, Bytes,
  codes, starts_with, find, length, take, drop, lines, without_armor, concat_lines, trim, map,
  Result, ok, err, ◌>>=◌, ok_or,
}
use fl_codepush_box.Host.{Host}

pub data KeyError : Type 0 where
  key_base64 no_ed25519_key : KeyError

-- The last position of the window, from a position on.
unfoldable pub rposition : Bytes → Bytes → ℕ → Option ℕ
rposition window [] at = none
rposition window (b ∷ bytes) at =
    let later = rposition window bytes (at + 1) in
    elim later [
      | some i ↦ some i
      | none ↦ (if starts_with window (b ∷ bytes) then some at else none)
    ]

-- The tag and the length of a bit string of 32 bytes, and its number of unused bits.
abbrev pub bit_string : Bytes
bit_string = 0x03 ∷ 0x21 ∷ 0x00 ∷ []

abbrev pub contains_text : Str → Str → Bool
contains_text pattern s = elim (find pattern s) [ none ↦ false | some _ ↦ true ]

module _ (h : Host) where
  unfoldable pub key_behind : Bytes → Option ℕ → Result KeyError Str
  key_behind der none = err no_ed25519_key
  key_behind der (some at) =
      if leb (at + 3 + 32) (length der)
      then ok (h.b64_encode (take 32 (drop (at + 3) der)))
      else err no_ed25519_key

  unfoldable pub public_key_der_to_raw_b64 : Bytes → Result KeyError Str
  unfolding key_behind
  public_key_der_to_raw_b64 der =
      if length der == 32
      then ok (h.b64_encode der)
      else key_behind der (rposition bit_string der 0)

  unfoldable pub normalize_public_key_b64 : Str → Result KeyError Str
  normalize_public_key_b64 value =
      let body =
        if contains_text (codes "-----BEGIN") value
        then concat_lines (map trim (without_armor (lines value)))
        else trim value in
      ok_or (h.b64_decode body) key_base64 >>= public_key_der_to_raw_b64
