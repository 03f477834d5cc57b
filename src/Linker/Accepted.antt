-- ===== src/Linker/Accepted.antt =====
-- crates/fcb_core/src/linker.rs: which functions of the patch a plan leaves as they are, and which
-- it interprets.
use fl_codepush_box.Prelude.{
  ◌≡◌, ◌≤◌, refl, ap, sym, ◌∙◌, Bool, true, false, not, ◌&&◌, ◌||◌, Option, none, some, List, [],
  ◌∷◌, ◌++◌, append_assoc, append-nil, arith, Str, Bytes, bytes_eq, Result, ok, >>=-eq-ok,
  if◌then◌else◌, length, length-append, ℕ, suc, ◌+◌,
}
use fl_codepush_box.Linker.{
  RejectReason, FunctionInventoryEntry, ClassInventoryEntry, FieldInventoryEntry, KernelInventory,
  FunctionDecision, RejectDecision, LinkerPlan, LinkError, push_reject, empty_plan, validate, get,
  function_map, class_map, field_map, decided, check_class, check_field, check_function,
  check_reasons, check_source, check_all, plan_bytecode_link,
}
use fl_codepush_box.Linker.Maps.{get-map}

abbrev pub function_key : FunctionInventoryEntry → Str
function_key f = f.function_id

abbrev class_key : ClassInventoryEntry → Str
class_key c = c.class_id

abbrev field_key : FieldInventoryEntry → Str
field_key f = f.field_id

abbrev no_reasons : List RejectReason → Bool
no_reasons [] = true
no_reasons (_ ∷ _) = false

abbrev has_source : Option Bytes → Bool
has_source none = false
has_source (some _) = true

-- The function is in the release, with the same signature and the same body.
abbrev is_unchanged : Option FunctionInventoryEntry → FunctionInventoryEntry → Bool
is_unchanged none f = false
is_unchanged (some r) f =
    bytes_eq r.signature_hash f.signature_hash && bytes_eq r.body_hash f.body_hash

-- The function is in the release, with the same signature and another body, which the patch can
-- interpret.
abbrev is_interpreted : Option FunctionInventoryEntry → FunctionInventoryEntry → Bool
is_interpreted none f = false
is_interpreted (some r) f =
    bytes_eq r.signature_hash f.signature_hash
    && (not (bytes_eq r.body_hash f.body_hash)
        && (no_reasons f.unsupported_reasons && has_source f.bytecode_source))

-- The decisions of the functions that pass a test.
abbrev pub decisions :
    (FunctionInventoryEntry → Bool) → List FunctionInventoryEntry → List FunctionDecision
decisions test [] = []
decisions test (f ∷ fs) = let rest = decisions test fs in if test f then decided f ∷ rest else rest

abbrev pub unchanged_in : List FunctionInventoryEntry → FunctionInventoryEntry → Bool
unchanged_in release f = is_unchanged (get function_key f.function_id release) f

abbrev pub interpreted_in : List FunctionInventoryEntry → FunctionInventoryEntry → Bool
interpreted_in release f = is_interpreted (get function_key f.function_id release) f

-- What a round adds to the plan, if the function is unchanged, or to be interpreted, or neither.
abbrev Adds : Bool → Bool → FunctionInventoryEntry → LinkerPlan → LinkerPlan → Type 0
Adds same changed f plan plan' =
    (plan'.unchanged ≡ (if same then plan.unchanged ++ decided f ∷ [] else plan.unchanged))
    × (plan'.interpret ≡ (if changed then plan.interpret ++ decided f ∷ [] else plan.interpret))
    × (length plan'.reject
        ≡ (if same || changed then length plan.reject else length plan.reject + 1))

check_source-Adds :
    (o : Option Bytes) (f : FunctionInventoryEntry) (plan : LinkerPlan)
    → Adds false (has_source o) f plan (check_source o f plan)
unfolding check_source
check_source-Adds none f plan = (refl, refl, length-append plan.reject _)
check_source-Adds (some source) f plan = (refl, refl, refl)

check_reasons-Adds :
    (rs : List RejectReason) (f : FunctionInventoryEntry) (plan : LinkerPlan)
    → Adds false (no_reasons rs && has_source f.bytecode_source) f plan (check_reasons rs f plan)
unfolding check_reasons
check_reasons-Adds [] f plan = check_source-Adds f.bytecode_source f plan
check_reasons-Adds (r ∷ rs) f plan = (refl, refl, length-append plan.reject _)

-- A function of the release, by whether its signature and its body are the same.
compared-Adds :
    (signature body : Bool) (f : FunctionInventoryEntry) (plan : LinkerPlan) (r : RejectDecision)
    → Adds
        (signature && body)
        (signature
          && (not body && (no_reasons f.unsupported_reasons && has_source f.bytecode_source)))
        f
        plan
        (if not signature
          then push_reject r plan
          else if body
          then record plan { unchanged = plan.unchanged ++ decided f ∷ [] }
          else check_reasons f.unsupported_reasons f plan)
compared-Adds false body f plan r = (refl, refl, length-append plan.reject _)
compared-Adds true true f plan r = (refl, refl, refl)
compared-Adds true false f plan r = check_reasons-Adds f.unsupported_reasons f plan

check_function-Adds :
    (o : Option FunctionInventoryEntry) (f : FunctionInventoryEntry) (plan : LinkerPlan)
    → Adds (is_unchanged o f) (is_interpreted o f) f plan (check_function o f plan)
unfolding check_function
check_function-Adds none f plan = (refl, refl, length-append plan.reject _)
check_function-Adds (some r) f plan =
    compared-Adds (bytes_eq r.signature_hash f.signature_hash) (bytes_eq r.body_hash f.body_hash) f
      plan _

append-if :
    {A : Type 0} (b : Bool) (xs ys rest : List A) (x : A)
    → ys ≡ (if b then xs ++ x ∷ [] else xs)
    → ys ++ rest ≡ xs ++ (if b then x ∷ rest else rest)
append-if true xs ys rest x e = rw e (append_assoc xs (x ∷ []) rest)
append-if false xs ys rest x e = rw e refl

-- The functions that are neither.
abbrev pub refused : List FunctionInventoryEntry → List FunctionInventoryEntry → ℕ
refused release [] = 0
refused release (f ∷ fs) =
    let rest = refused release fs in
    if unchanged_in release f || interpreted_in release f then rest else suc rest

check_all_lem :
    (m fs : List FunctionInventoryEntry) (plan : LinkerPlan)
    → let plan' = check_all function_key check_function m fs plan in
      (plan'.unchanged ≡ plan.unchanged ++ decisions (unchanged_in m) fs)
      × (plan'.interpret ≡ plan.interpret ++ decisions (interpreted_in m) fs)
      × (length plan'.reject ≡ length plan.reject + refused m fs)
check_all_lem m [] plan =
    (sym (append-nil plan.unchanged), sym (append-nil plan.interpret), omega arith)
check_all_lem m (f ∷ fs) plan =
    let plan₁ = check_function (get function_key f.function_id m) f plan in
    let (u, i, r) = check_function-Adds (get function_key f.function_id m) f plan in
    let (us, is, rs) = check_all_lem m fs plan₁ in
    (
      us ∙ append-if (unchanged_in m f) plan.unchanged plan₁.unchanged _ (decided f) u,
      is ∙ append-if (interpreted_in m f) plan.interpret plan₁.interpret _ (decided f) i,
      ground (arith, r, rs),
    )

-- Tests that agree on every function make the same decisions.
unchanged-map :
    (m release fs : List FunctionInventoryEntry)
    → ((k : Str) → get function_key k m ≡ get function_key k release)
    → (decisions (unchanged_in m) fs ≡ decisions (unchanged_in release) fs)
      × (decisions (interpreted_in m) fs ≡ decisions (interpreted_in release) fs)
      × (refused m fs ≡ refused release fs)
unchanged-map m release [] same = (refl, refl, refl)
unchanged-map m release (f ∷ fs) same =
    let (u, i, r) = unchanged-map m release fs same in
    rw (same f.function_id, u, i, r) (refl, refl, refl)

-- The checks of classes and fields decide no function.
Undecided : LinkerPlan → LinkerPlan → Type 0
Undecided plan plan' = (plan'.unchanged ≡ plan.unchanged) × (plan'.interpret ≡ plan.interpret)

check_class-Undecided :
    (o : Option ClassInventoryEntry) (c : ClassInventoryEntry) (plan : LinkerPlan)
    → Undecided plan (check_class o c plan)
unfolding Undecided check_class
check_class-Undecided none c plan = (refl, refl)
check_class-Undecided (some r) c plan = ground arith

check_field-Undecided :
    (o : Option FieldInventoryEntry) (f : FieldInventoryEntry) (plan : LinkerPlan)
    → Undecided plan (check_field o f plan)
unfolding Undecided check_field
check_field-Undecided none f plan = (refl, refl)
check_field-Undecided (some r) f plan = ground arith

check_all-Undecided :
    {A : Type 0} (key : A → Str) (check : Option A → A → LinkerPlan → LinkerPlan)
    → ((o : Option A) (a : A) (plan : LinkerPlan) → Undecided plan (check o a plan))
    → (release xs : List A) (plan : LinkerPlan)
    → Undecided plan (check_all key check release xs plan)
unfolding Undecided
check_all-Undecided key check step release [] plan = (refl, refl)
check_all-Undecided key check step release (a ∷ xs) plan =
    let plan₁ = check (get key (key a) release) a plan in
    let (u, i) = step (get key (key a) release) a plan in
    let (us, is) = check_all-Undecided key check step release xs plan₁ in (us ∙ u, is ∙ i)

ok-eq : {a b : LinkerPlan} → ◌≡◌ {A = Result LinkError LinkerPlan} (ok a) (ok b) → b ≡ a
ok-eq h = cc h

-- The map of the release's functions, and the plan with which the loop over the functions begins.
plan_parts :
    (release patch : KernelInventory) {plan : LinkerPlan}
    → plan_bytecode_link release patch ≡ ok plan
    → (m : List FunctionInventoryEntry) × (plan₂ : LinkerPlan) × (function_map release ≡ ok m)
      × (plan₂.unchanged ≡ [])
      × (plan₂.interpret ≡ [])
      × (plan ≡ check_all function_key check_function m patch.functions plan₂)
unfolding plan_bytecode_link Undecided
plan_parts release patch e =
    let (_, e₁, k₁) = >>=-eq-ok (validate release) _ e in
    let (_, e₂, k₂) = >>=-eq-ok (validate patch) _ k₁ in
    let (m, e₃, k₃) = >>=-eq-ok (function_map release) _ k₂ in
    let (rc, e₄, k₄) = >>=-eq-ok (class_map release) _ k₃ in
    let (pc, e₅, k₅) = >>=-eq-ok (class_map patch) _ k₄ in
    let (rf, e₆, k₆) = >>=-eq-ok (field_map release) _ k₅ in
    let (pf, e₇, k₇) = >>=-eq-ok (field_map patch) _ k₆ in
    let plan₁ = check_all class_key check_class rc pc empty_plan in
    let plan₂ = check_all field_key check_field rf pf plan₁ in
    let (u₁, i₁) =
      check_all-Undecided class_key check_class check_class-Undecided rc pc empty_plan in
    let (u₂, i₂) = check_all-Undecided field_key check_field check_field-Undecided rf pf plan₁ in
    (m, plan₂, e₃, u₂ ∙ u₁, i₂ ∙ i₁, ok-eq k₇)

-- Where a plan is made, it lists as unchanged exactly the functions of the patch that the release
-- has with the same signature and the same body, and as interpreted exactly those that the release
-- has with the same signature and another body, which have a bytecode source and no unsupported
-- node; both in the order of the patch. It has at least as many rejects as there are functions
-- that are neither.
pub plan_bytecode_link_lem :
    (release patch : KernelInventory) {plan : LinkerPlan}
    → plan_bytecode_link release patch ≡ ok plan
    → (plan.unchanged ≡ decisions (unchanged_in release.functions) patch.functions)
      × (plan.interpret ≡ decisions (interpreted_in release.functions) patch.functions)
      × (refused release.functions patch.functions ≤ length plan.reject)
plan_bytecode_link_lem release patch e =
    let (m, plan₂, em, u₂, i₂, whole) = plan_parts release patch e in
    let (u, i, r) = check_all_lem m patch.functions plan₂ in
    let found : (k : Str) → get function_key k m ≡ get function_key k release.functions =
      λ k. unfold function_map in get-map function_key _ k release.functions em in
    let (su, si, sr) = unchanged-map m release.functions patch.functions found in
    (
      ap (λ (p : LinkerPlan). p.unchanged) whole
          ∙ u
          ∙ ap (λ xs. xs ++ decisions (unchanged_in m) patch.functions) u₂
          ∙ su,
      ap (λ (p : LinkerPlan). p.interpret) whole
          ∙ i
          ∙ ap (λ xs. xs ++ decisions (interpreted_in m) patch.functions) i₂
          ∙ si,
      omega (arith, ap (λ (p : LinkerPlan). length p.reject) whole, r, sr),
    )
