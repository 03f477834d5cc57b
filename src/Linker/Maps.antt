-- ===== src/Linker/Maps.antt =====
-- crates/fcb_core/src/linker.rs: a map that was built without a duplicate finds what its list holds.
use fl_codepush_box.Prelude.{
  ◌≡◌, refl, ap, sym, subst, ◌∙◌, Bool, true, false, Option, none, some, List, [], ◌∷◌, arith, Str,
  bytes_eq, bytes_eq-eq, bytes_eq_refl, ok, if◌then◌else◌,
}
use fl_codepush_box.Linker.{LinkError, get, insert_new, is_there, insert_all}

same_key : (x y k : Str) → bytes_eq x k ≡ true → bytes_eq y k ≡ true → bytes_eq x y ≡ true
same_key x y k hx hy =
    let ex = bytes_eq-eq x k hx in let ey = bytes_eq-eq y k hy in rw (ex, ey) (bytes_eq_refl k)

first : {A : Type 0} → Option A → Option A → Option A
first none o = o
first (some a) o = some a

first-none : {A : Type 0} (o : Option A) → first o none ≡ o
unfolding first
first-none none = refl
first-none (some a) = refl

-- The two places of a key that is not in the map yet.
first-if :
    {A : Type 0} (b : Bool) (a : A) (o o' : Option A)
    → (b ≡ true → o ≡ none)
    → first (if b then some a else o) o' ≡ first o (if b then some a else o')
unfolding first
first-if true a o o' h = rw (h refl) refl
first-if false a o o' h = refl

module _ {A : Type 0} (key : A → Str) where
  get-insert_new :
      (k : Str) (a : A) (m : List A)
      → is_there key (key a) m ≡ false
      → get key k (insert_new key a m) ≡ (if bytes_eq (key a) k then some a else get key k m)
  get-insert_new k a [] h = refl
  get-insert_new k a (b ∷ bs) h = ground (arith, get-insert_new k a bs, same_key (key b) (key a) k)

  get-is_there : (k : Str) (m : List A) → is_there key k m ≡ false → get key k m ≡ none
  get-is_there k [] h = refl
  get-is_there k (b ∷ bs) h = ground (arith, get-is_there k bs)

  get-insert_all :
      (duplicate : Str → LinkError) (k : Str) (m as_ : List A) {m' : List A}
      → insert_all key duplicate m as_ ≡ ok m'
      → get key k m' ≡ first (get key k m) (get key k as_)
  get-insert_all duplicate k m [] {m'} e =
      let same : m ≡ m' = cc e in rw (first-none (get key k m)) (ap (get key k) (sym same))
  get-insert_all duplicate k m (a ∷ as_) {m'} e =
      let new : is_there key (key a) m ≡ false = ground arith in
      let rest : insert_all key duplicate (insert_new key a m) as_ ≡ ok m' = ground arith in
      let absent : bytes_eq (key a) k ≡ true → get key k m ≡ none = λ same.
        get-is_there k m (subst (λ x. is_there key x m ≡ false) (bytes_eq-eq (key a) k same) new) in
      get-insert_all duplicate k (insert_new key a m) as_ rest
      ∙ ap (λ o. first o (get key k as_)) (get-insert_new k a m new)
      ∙ first-if (bytes_eq (key a) k) a (get key k m) (get key k as_) absent

  -- The map of a list finds what the list finds.
  pub get-map :
      (duplicate : Str → LinkError) (k : Str) (as_ : List A) {m : List A}
      → insert_all key duplicate [] as_ ≡ ok m
      → get key k m ≡ get key k as_
  unfolding first
  get-map duplicate k as_ e = get-insert_all duplicate k [] as_ e
