-- ===== src/Client/Example.antt =====
-- A server of a file of one byte, for crates/fcb_core/src/server_api.rs.
use fl_codepush_box.Prelude.{
  ℕ, zero, suc, ◌≡◌, refl, ap, true, false, List, [], ◌∷◌, ltb, Str, Bytes, arith,
}
use fl_codepush_box.Client.{Read, chunk, Reply, answered, Server}
use fl_codepush_box.Client.Download.{range_headers, range_request}
use fl_codepush_box.Client.Download.Body.{delivered, is_readable}
use fl_codepush_box.Client.Download.Resume.{served, Serves}

abbrev one_byte_reply : List (Str × Str) → Reply
one_byte_reply [] = answered 200 (chunk (7 ∷ []) ∷ [])
one_byte_reply (h ∷ hs) = answered 416 []

-- Whatever the URL.
abbrev pub one_byte : Server
one_byte request attempt = one_byte_reply request.headers

abbrev one_byte_reads : ℕ → List Read
one_byte_reads zero = chunk (7 ∷ []) ∷ []
one_byte_reads (suc n) = []

served_behind : (n : ℕ) → served (7 ∷ []) (suc n) ≡ (416, [])
served_behind n = let behind : ltb (suc n) 1 ≡ false = ground arith in rw behind refl

one_byte-replies :
    (offset : ℕ)
    → one_byte_reply (range_headers offset)
      ≡ answered (served (7 ∷ []) offset).0 (one_byte_reads offset)
unfolding range_headers
one_byte-replies zero = refl
one_byte-replies (suc n) =
    let positive : ltb 0 (suc n) ≡ true = ground arith in
    rw (positive, ap (λ (r : ℕ × Bytes). r.0) (served_behind n)) refl

one_byte-bodies : (offset : ℕ) → delivered (one_byte_reads offset) ≡ (served (7 ∷ []) offset).1
one_byte-bodies zero = refl
one_byte-bodies (suc n) = rw (ap (λ (r : ℕ × Bytes). r.1) (served_behind n)) refl

one_byte-readable : (offset : ℕ) → is_readable (one_byte_reads offset) ≡ true
one_byte-readable zero = refl
one_byte-readable (suc n) = refl

pub one_byte-Serves : (url : Str) → Serves one_byte url (7 ∷ [])
unfolding range_request
one_byte-Serves url = record {
  reads = λ offset attempt. one_byte_reads offset;
  replies = λ offset attempt. one_byte-replies offset;
  bodies = λ offset attempt. one_byte-bodies offset;
  readable = λ offset attempt. one_byte-readable offset;
}
