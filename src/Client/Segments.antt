-- ===== src/Client/Segments.antt =====
-- crates/fcb_core/src/server_api.rs: `path_segment_encode` loses nothing, and its result is a single
-- path segment.
use fl_codepush_box.Prelude.{
  ℕ, ◌+◌, ◌-◌, ◌*◌, ◌/◌, ◌%◌, ◌<◌, ◌≡◌, refl, Bool, true, false, ◌&&◌, ◌||◌, [], ◌∷◌, arith,
  if◌then◌else◌, ◌==◌, leb, Str, All,
}
use fl_codepush_box.Client.{is_unreserved, hex_digit, path_segment_encode}

abbrev hex_value : ℕ → ℕ
hex_value d = if leb 65 d then d - 55 else d - 48

-- Between two codes, behind a percent sign, or behind its first digit.
data Position : Type 0 where
  between behind_percent : Position
  behind_digit : ℕ → Position

decode_from : Position → Str → Str
decode_from at [] = []
decode_from between (b ∷ s) =
    let coded = decode_from behind_percent s in
    let rest = decode_from between s in if b == 37 then coded else b ∷ rest
decode_from behind_percent (c ∷ s) = decode_from (behind_digit (hex_value c)) s
decode_from (behind_digit n) (d ∷ s) = (n * 16 + hex_value d) ∷ decode_from between s

-- The percent decoding of RFC 3986.
pub percent_decode : Str → Str
percent_decode s = decode_from between s

abbrev IsByte : ℕ → Type 0
IsByte b = b < 256

hex_value-hex_digit : (n : ℕ) → n < 16 → hex_value (hex_digit n) ≡ n
hex_value-hex_digit n h = ground arith

unreserved-ne_percent : (b : ℕ) → is_unreserved b ≡ true → (b == 37) ≡ false
unreserved-ne_percent b h = ground arith

-- One byte, whatever is encoded behind it.
decode_byte :
    (b : ℕ) (rest s : Str)
    → b < 256
    → decode_from between rest ≡ s
    → decode_from between
        (if is_unreserved b then b ∷ rest else 37 ∷ hex_digit (b / 16) ∷ hex_digit (b % 16) ∷ rest)
      ≡ b ∷ s
unfolding decode_from
decode_byte b rest s h e =
    elim (is_unreserved b)
        as (λ u.
          is_unreserved b ≡ u
          → decode_from between
              (if u then b ∷ rest else 37 ∷ hex_digit (b / 16) ∷ hex_digit (b % 16) ∷ rest)
            ≡ b ∷ s) [
              | true ↦ λ u. rw (unreserved-ne_percent b u, e) refl
              | false ↦ λ u.
                  let high = hex_value-hex_digit (b / 16) (omega arith) in
                  let low = hex_value-hex_digit (b % 16) (omega arith) in
                  let whole : b / 16 * 16 + b % 16 ≡ b = omega arith in
                  rw (high, low, whole, e) refl
            ]
      refl

decode-encode : (s : Str) → All IsByte s → decode_from between (path_segment_encode s) ≡ s
unfolding decode_from path_segment_encode
decode-encode [] h = refl
decode-encode (b ∷ s) (hb, hs) = decode_byte b (path_segment_encode s) s hb (decode-encode s hs)

abbrev is_segment_byte : ℕ → Bool
is_segment_byte b = is_unreserved b || b == 37

-- Every byte of the text passes in a path segment.
abbrev pub is_segment : Str → Bool
is_segment [] = true
is_segment (b ∷ s) = is_segment_byte b && is_segment s

hex_digit-is_segment_byte : (n : ℕ) → n < 16 → is_segment_byte (hex_digit n) ≡ true
hex_digit-is_segment_byte n h = ground arith

encode-is_segment : (s : Str) → All IsByte s → is_segment (path_segment_encode s) ≡ true
unfolding path_segment_encode
encode-is_segment [] h = refl
encode-is_segment (b ∷ s) (hb, hs) = ground (
  arith,
  encode-is_segment s hs,
  hex_digit-is_segment_byte (b / 16) (omega arith),
  hex_digit-is_segment_byte (b % 16) (omega arith),
)

-- Where every byte is below 256, percent decoding gives back the text that `path_segment_encode`
-- encoded, and the encoded text has only unreserved characters and percent signs: no slash, no
-- question mark, no hash sign.
pub percent_decode-path_segment_encode :
    (s : Str)
    → All IsByte s
    → (percent_decode (path_segment_encode s) ≡ s) × (is_segment (path_segment_encode s) ≡ true)
unfolding percent_decode
percent_decode-path_segment_encode s h = (decode-encode s h, encode-is_segment s h)
