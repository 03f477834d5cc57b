-- ===== src/Bytecode/RoundTrip/Rules.antt =====
-- crates/fcb_core/src/bytecode.rs: a read that takes just the given bytes and returns the given
-- value, with a rule for each way to build a read.
use fl_codepush_box.Prelude.{
  ℕ, zero, suc, ◌^◌, ◌<◌, ◌≡◌, refl, ap, subst, List, [], ◌∷◌, ◌++◌, append_assoc, arith, Bytes,
  Str, ltb, length, take-append, drop-append, length-append, ok, >>=-eq-ok, String, true, false,
  is_utf8, All,
}
use fl_codepush_box.Bytecode.Format.{Checked}
use fl_codepush_box.Bytecode.Reader.{
  Read, pure, ◌>>=◌, bytes, from_be, read_uint, read_string, text_of, read_many,
}
use fl_codepush_box.Bytecode.RoundTrip.Words.{from_be-to_be₂, from_be-to_be₄}
use fl_codepush_box.Bytecode.Writer.{to_be, write_uint, write_string, write_many}

pub record Reads {A : Type 0} (r : Read A) (a : A) (w : Bytes) : Type 0 where
  pub at : (rest : Bytes) → r (w ++ rest) ≡ ok (a, rest)

pub Reads-pure : {A : Type 0} (a : A) → Reads (pure a) a []
Reads-pure a = record { at = λ rest. refl }

pub Reads-bind :
    {A B : Type 0} (m : Read A) (k : A → Read B) (a : A) (b : B) (w₁ w₂ : Bytes)
    → Reads m a w₁
    → Reads (k a) b w₂
    → Reads (m >>= k) b (w₁ ++ w₂)
unfolding ◌>>=◌
Reads-bind m k a b w₁ w₂ h₁ h₂ = record {
  at = λ rest. rw (append_assoc w₁ w₂ rest) (rw (h₁.at (w₂ ++ rest)) (h₂.at rest));
}

-- The last read of a block.
pub Reads-map :
    {A B : Type 0} (m : Read A) (f : A → B) (a : A) (w : Bytes)
    → Reads m a w
    → Reads (m >>= λ x. pure (f x)) (f a) w
unfolding ◌>>=◌
Reads-map m f a w h = record { at = λ rest. rw (h.at rest) refl }

pub Reads-bytes : (n : ℕ) (w : Bytes) → length w ≡ n → Reads (bytes n) w w
unfolding bytes
Reads-bytes n w same = record {
  at = λ rest.
      let enough : ltb (length (w ++ rest)) n ≡ false = ground (arith, length-append w rest) in
      rw enough (rw (← same) (rw (take-append w rest) (rw (drop-append w rest))));
}

length-to_be : (n v : ℕ) → length (to_be n v) ≡ n
length-to_be zero v = refl
length-to_be (suc n) v = ap suc (length-to_be n v)

pub read_uint-to_be : (n v : ℕ) → from_be 0 (to_be n v) ≡ v → Reads (read_uint n) v (to_be n v)
unfolding read_uint
read_uint-to_be n v same =
    subst (λ k. Reads (bytes n >>= λ bs. pure (from_be 0 bs)) k (to_be n v)) same
      (Reads-map (bytes n) (from_be 0) (to_be n v) (to_be n v)
        (Reads-bytes n (to_be n v) (length-to_be n v)))

-- A byte that is written as it is.
pub read_uint-byte : (b : ℕ) → Reads (read_uint 1) b (b ∷ [])
unfolding read_uint bytes ◌>>=◌
read_uint-byte b = record { at = λ rest. ground arith }

-- A loop reads what a loop has written, where each item does.
pub read_many-write_many :
    {A : Type 0} (r : Read A) (item : A → Checked Bytes) (xs : List A) {ws : Bytes}
    → All (λ x. (w : Bytes) → item x ≡ ok w → Reads r x w) xs
    → write_many item xs ≡ ok ws
    → Reads (read_many (length xs) r) xs ws
unfolding read_many write_many
read_many-write_many r item [] h e = subst (Reads (pure []) []) (ground arith) (Reads-pure [])
read_many-write_many r item (x ∷ xs) h e =
    let (w, one, e₁) = >>=-eq-ok (item x) _ e in
    let (ws, many, e₂) = >>=-eq-ok (write_many item xs) _ e₁ in
    subst (Reads (read_many (suc (length xs)) r) (x ∷ xs)) (ground arith) (
      Reads-bind r _ x (x ∷ xs) w ws (h.0 w one) (
        Reads-map (read_many (length xs) r) (λ rest. x ∷ rest) xs ws
          (read_many-write_many r item xs h.1 many)))

write_uint-eq-ok :
    (n v : ℕ) (label : String) {w : Bytes}
    → write_uint n v label ≡ ok w
    → (v < 256 ^ n) × (to_be n v ≡ w)
unfolding write_uint
write_uint-eq-ok n v label e = ground arith

-- The counts and lengths that precede their items.
pub read_uint-write_uint₂ :
    (v : ℕ) (label : String) {w : Bytes} → write_uint 2 v label ≡ ok w → Reads (read_uint 2) v w
read_uint-write_uint₂ v label e =
    let (fits, same) = write_uint-eq-ok 2 v label e in
    subst (Reads (read_uint 2) v) same (read_uint-to_be 2 v (from_be-to_be₂ v fits))

pub read_uint-write_uint₄ :
    (v : ℕ) (label : String) {w : Bytes} → write_uint 4 v label ≡ ok w → Reads (read_uint 4) v w
read_uint-write_uint₄ v label e =
    let (fits, same) = write_uint-eq-ok 4 v label e in
    subst (Reads (read_uint 4) v) same (read_uint-to_be 4 v (from_be-to_be₄ v fits))

read_text : (s : Str) → is_utf8 s ≡ true → Reads (text_of (length s)) s s
unfolding text_of ◌>>=◌
read_text s valid = record {
  at = λ rest. rw ((Reads-bytes (length s) s refl).at rest) (rw valid refl);
}

-- A text that is valid UTF-8, if it was short enough to be written.
pub read_string-write_string :
    (s : Str) (label : String) (w : Bytes)
    → is_utf8 s ≡ true
    → write_string s label ≡ ok w
    → Reads read_string s w
unfolding read_string write_string
read_string-write_string s label w valid e =
    let (len, counted, e') = >>=-eq-ok (write_uint 2 (length s) label) _ e in
    subst (Reads read_string s) (ground arith) (
      Reads-bind (read_uint 2) text_of (length s) s len s
        (read_uint-write_uint₂ (length s) label counted) (read_text s valid))

-- A tag byte, and what it announces.
pub Reads-tag :
    {A : Type 0} (tag : ℕ) (k : ℕ → Read A) {a : A} {w : Bytes}
    → Reads (k tag) a w
    → Reads (read_uint 1 >>= k) a (tag ∷ w)
Reads-tag tag k {a} {w} h = Reads-bind (read_uint 1) k tag a (tag ∷ []) w (read_uint-byte tag) h
