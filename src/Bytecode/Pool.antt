-- ===== src/Bytecode/Pool.antt =====
-- crates/fcb_core/src/bytecode.rs: `ConstantPool`. Constants are compared by the derived `==`, which
-- compares an `f64` by value: no NaN equals itself, and the two zeros are equal.
use fl_codepush_box.Prelude.{
  ℕ, zero, suc, ◌*◌, ◌%◌, ◌^◌, ◌<◌, ◌≡◌, refl, Bool, true, false, not, ◌&&◌, ◌||◌, Option, none,
  some, List, [], ◌∷◌, ◌++◌, arith, if◌then◌else◌, ◌==◌, ltb, bytes_eq, length, ◌⊎◌, inl, subst,
  get_elem?, ok, err,
}
use fl_codepush_box.Bytecode.Format.{
  Constant, int, double, bool, string, null, Checked, exceeds_range,
}

-- The exponent bits are all set, and the fraction is not 0.
abbrev is_nan : ℕ → Bool
is_nan bits = ltb (0x7ff0 * 2 ^ 48) (bits % 2 ^ 63)

abbrev is_zero : ℕ → Bool
is_zero bits = bits % 2 ^ 63 == 0

unfoldable pub double_eq : ℕ → ℕ → Bool
double_eq x y = not (is_nan x) && not (is_nan y) && (x == y || is_zero x && is_zero y)

abbrev bool_eq : Bool → Bool → Bool
bool_eq true b = b
bool_eq false b = not b

unfoldable pub constant_eq : Constant → Constant → Bool
unfolding double_eq
constant_eq (int x) (int y) = x == y
constant_eq (double x) (double y) = double_eq x y
constant_eq (bool x) (bool y) = bool_eq x y
constant_eq (string x) (string y) = bytes_eq x y
constant_eq null null = true
constant_eq _ _ = false

-- `.iter().position(|existing| existing == constant)`
unfoldable pub position : List Constant → Constant → Option ℕ
position [] c = none
position (x ∷ xs) c =
    let later = position xs c in
    if constant_eq x c then some 0 else (elim later [ none ↦ none | some i ↦ some (suc i) ])

unfoldable pub to_u16 : ℕ → Checked ℕ
to_u16 i = if ltb i (2 ^ 16) then ok i else err (exceeds_range "constant pool")

unfoldable pub push_at : List Constant → Constant → Option ℕ → List Constant × Checked ℕ
push_at pool c (some i) = (pool, to_u16 i)
push_at pool c none = (pool ++ c ∷ [], to_u16 (length pool))

-- The pool is extended also where the index no longer fits.
unfoldable pub push : List Constant → Constant → List Constant × Checked ℕ
unfolding push_at to_u16
push pool c = push_at pool c (position pool c)

get_elem?-append :
    {A : Type 0} (xs ys : List A) (j : ℕ) {x : A}
    → get_elem? xs j ≡ some x
    → get_elem? (xs ++ ys) j ≡ some x
get_elem?-append [] ys j e = cc e
get_elem?-append (y ∷ xs) ys zero e = e
get_elem?-append (y ∷ xs) ys (suc j) e = get_elem?-append xs ys j e

get_elem?-last : {A : Type 0} (xs : List A) (x : A) → get_elem? (xs ++ x ∷ []) (length xs) ≡ some x
get_elem?-last [] x = refl
get_elem?-last (y ∷ xs) x = get_elem?-last xs x

-- The constant at an index, if it is there, is the one given or compares equal to it.
abbrev pub Holds : Option Constant → Constant → Type 0
Holds none c = ⊥
Holds (some x) c = (x ≡ c) ⊎ (constant_eq x c ≡ true)

position-Holds :
    (pool : List Constant) (c : Constant) (i : ℕ)
    → position pool c ≡ some i
    → Holds (get_elem? pool i) c
unfolding position
position-Holds [] c i e = cc e
position-Holds (x ∷ xs) c zero e = ground arith
position-Holds (x ∷ xs) c (suc i) e = position-Holds xs c i (ground arith)

push_at-Holds :
    (pool : List Constant) (c : Constant) (o : Option ℕ) {i : ℕ}
    → position pool c ≡ o
    → (push_at pool c o).1 ≡ ok i
    → Holds (get_elem? (push_at pool c o).0 i) c
unfolding push_at to_u16
push_at-Holds pool c none {i} e h =
    let same : length pool ≡ i = ground arith in
    subst (λ k. Holds (get_elem? (pool ++ c ∷ []) k) c) same (rw (get_elem?-last pool c) (inl refl))
push_at-Holds pool c (some j) {i} e h =
    let same : j ≡ i = ground arith in
    subst (λ k. Holds (get_elem? pool k) c) same (position-Holds pool c j e)

push_at-keeps :
    (pool : List Constant) (c : Constant) (o : Option ℕ) (j : ℕ) {x : Constant}
    → get_elem? pool j ≡ some x
    → get_elem? (push_at pool c o).0 j ≡ some x
unfolding push_at
push_at-keeps pool c none j e = get_elem?-append pool (c ∷ []) j e
push_at-keeps pool c (some i) j e = e

push_fits :
    (pool : List Constant) (c : Constant) (o : Option ℕ) {i : ℕ}
    → (push_at pool c o).1 ≡ ok i
    → i < 2 ^ 16
unfolding push_at to_u16
push_fits pool c none h = ground arith
push_fits pool c (some j) h = ground arith

-- An index that `push` returns fits in a u16 and holds the constant, or one that compares equal to
-- it.
pub push_lem :
    (pool : List Constant) (c : Constant) {i : ℕ}
    → (push pool c).1 ≡ ok i
    → (i < 2 ^ 16) × Holds (get_elem? (push pool c).0 i) c
unfolding push
push_lem pool c h =
    (push_fits pool c (position pool c) h, push_at-Holds pool c (position pool c) refl h)

-- The constants that the pool had keep their indices, also if `push` fails.
pub push_keeps :
    (pool : List Constant) (c : Constant) (j : ℕ) (x : Constant)
    → get_elem? pool j ≡ some x
    → get_elem? (push pool c).0 j ≡ some x
unfolding push
push_keeps pool c j x e = push_at-keeps pool c (position pool c) j e
