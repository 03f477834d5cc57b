-- ===== src/Bytecode/Targets/Gate.antt =====
-- crates/fcb_core/src/bytecode.rs: a module whose targets are all present calls nothing that is
-- missing from the AOT snapshot.
use fl_codepush_box.Prelude.{
  ℕ, zero, suc, ◌+◌, ◌≤◌, ◌<◌, ◌≡◌, inl, inr, refl, Bool, true, false, ◌&&◌, ◌||◌, Option, none,
  some, List, [], ◌∷◌, arith, if◌then◌else◌, leb, Str, contains_str, bytes_eq, bytes_eq-eq,
  bytes_eq_refl, length, get_elem?, get_elem?-lt, Option-cases, ok, >>=-eq-ok, subst,
}
use fl_codepush_box.Bytecode.OpCode.{OpCode, to_byte, from_byte, operand_len}
use fl_codepush_box.Bytecode.Format.{BytecodeFunction, BytecodeModule, string_constant}
use fl_codepush_box.Bytecode.Verify.{read_u16, validate_bytecode}
use fl_codepush_box.Bytecode.Verify.Flow.{fetch, next, Chain, here, step, Reaches, ValidOperands}
use fl_codepush_box.Bytecode.Verify.Safety.{
  validate_bytecode-Chain, validate_bytecode-IsInstruction,
}
use fl_codepush_box.Bytecode.Envelope.{validate, validate_each, validate_envelope}
use fl_codepush_box.Bytecode.Targets.{
  insert_str, contains_op, add_target, visit, function_targets, collect, targets_for, aot_ops,
  aot_referenced_targets, absent, missing_aot_targets,
}

contains_str-insert_str :
    (k x : Str) (ks : List Str)
    → contains_str (insert_str k ks) x ≡ (bytes_eq k x || contains_str ks x)
unfolding insert_str
contains_str-insert_str k x [] = refl
contains_str-insert_str k x (j ∷ ks) =
    ground (arith, contains_str-insert_str k x ks, bytes_eq-eq j k)

-- A target that was collected is kept.
visit-keeps :
    (ops : List OpCode) (f : BytecodeFunction) (p : ℕ) (op : OpCode) (ts : List Str) (x : Str)
    → contains_str ts x ≡ true
    → contains_str (visit ops f p op ts) x ≡ true
unfolding visit
visit-keeps ops f p op ts x h = add-keeps (string_constant f (read_u16 f.code (p + 1)))
  where
    add-keeps :
        (o : Option Str)
        → contains_str
            (if contains_op ops op && leb (p + 1 + 2) (length f.code) then add_target o ts else ts)
            x
          ≡ true
    add-keeps none = ground arith
    add-keeps (some t) = ground (arith, contains_str-insert_str t x ts)

-- A call that is visited adds its target.
visit-adds :
    (ops : List OpCode) (f : BytecodeFunction) (p : ℕ) (op : OpCode) (ts : List Str) (t : Str)
    → contains_op ops op ≡ true
    → p + 3 ≤ length f.code
    → string_constant f (read_u16 f.code (p + 1)) ≡ some t
    → contains_str (visit ops f p op ts) t ≡ true
unfolding visit
visit-adds ops f p op ts t c le e =
    let fits : leb (p + 1 + 2) (length f.code) ≡ true = ground arith in
    rw c (rw fits (rw e (rw (contains_str-insert_str t t ts) (rw (bytes_eq_refl t) refl))))

fetch-lt : (f : BytecodeFunction) (p : ℕ) {op : OpCode} → fetch f p ≡ some op → p < length f.code
fetch-lt f p e = elim (Option-cases (get_elem? f.code p)) [
  | inl missing ↦ cc (rw missing at e)
  | inr (b, there) ↦ get_elem?-lt f.code p there
]

-- A round of the loop at a known opcode, and at the end or an unknown one.
function_targets-step :
    (fuel : ℕ) (ops : List OpCode) (f : BytecodeFunction) (p : ℕ) (ts : List Str) (op : OpCode)
    → fetch f p ≡ some op
    → function_targets (suc fuel) ops f p ts
      ≡ function_targets fuel ops f (next p op) (visit ops f p op ts)
unfolding function_targets
function_targets-step fuel ops f p ts op e = elim (Option-cases (get_elem? f.code p)) [
  | inl missing ↦ cc (rw missing at e)
  | inr (b, there) ↦
      let known : from_byte b ≡ some op = rw there at e in rw (there, function_targets, known)
]

function_targets-stop :
    (fuel : ℕ) (ops : List OpCode) (f : BytecodeFunction) (p : ℕ) (ts : List Str)
    → fetch f p ≡ none
    → function_targets (suc fuel) ops f p ts ≡ ts
unfolding function_targets
function_targets-stop fuel ops f p ts e = elim (Option-cases (get_elem? f.code p)) [
  | inl missing ↦ rw (missing, function_targets)
  | inr (b, there) ↦
      let unknown : from_byte b ≡ none = rw there at e in rw (there, function_targets, unknown)
]

function_targets-keeps :
    (fuel : ℕ) (ops : List OpCode) (f : BytecodeFunction) (p : ℕ) (ts : List Str) (x : Str)
    → contains_str ts x ≡ true
    → contains_str (function_targets fuel ops f p ts) x ≡ true
unfolding function_targets
function_targets-keeps zero ops f p ts x h = h
function_targets-keeps (suc fuel) ops f p ts x h = elim (Option-cases (fetch f p)) [
  | inl stop ↦ rw (function_targets-stop fuel ops f p ts stop) h
  | inr (op, e) ↦ rw (function_targets-step fuel ops f p ts op e) (
      function_targets-keeps fuel ops f (next p op) (visit ops f p op ts) x
        (visit-keeps ops f p op ts x h))
]

module _ (ops : List OpCode) (f : BytecodeFunction) {q : ℕ} {op : OpCode} (t : Str)
    (e : fetch f q ≡ some op) (o : contains_op ops op ≡ true) (le : q + 3 ≤ length f.code)
    (named : string_constant f (read_u16 f.code (q + 1)) ≡ some t) where
  -- The loop collects the target of every call that straight-line decoding arrives at.
  function_targets-Chain :
      (fuel p : ℕ) (ts : List Str)
      → Chain f p q
      → length f.code < fuel + p
      → contains_str (function_targets fuel ops f p ts) t ≡ true
  function_targets-Chain zero p ts here lt = absurd (omega arith)
  function_targets-Chain zero p ts (step op' e' c) lt = absurd (omega (arith, fetch-lt f p e'))
  function_targets-Chain (suc fuel) p ts here lt = rw (function_targets-step fuel ops f q ts op e) (
      function_targets-keeps fuel ops f (next q op) (visit ops f q op ts) t
        (visit-adds ops f q op ts t o le named))
  function_targets-Chain (suc fuel) p ts (step op' e' c) lt =
      rw (function_targets-step fuel ops f p ts op' e')
        (function_targets-Chain fuel (next p op') (visit ops f p op' ts) c (omega arith))

collect-keeps :
    (ops : List OpCode) (fs : List BytecodeFunction) (ts : List Str) (x : Str)
    → contains_str ts x ≡ true
    → contains_str (collect ops fs ts) x ≡ true
unfolding collect
collect-keeps ops [] ts x h = h
collect-keeps ops (f ∷ fs) ts x h =
    collect-keeps ops fs _ x (function_targets-keeps (suc (length f.code)) ops f 0 ts x h)

-- So does the loop over the functions.
collect-Chain :
    (ops : List OpCode) (fs : List BytecodeFunction) (ts : List Str) (k : ℕ) {f : BytecodeFunction}
    {q : ℕ} {op : OpCode} (t : Str)
    → get_elem? fs k ≡ some f
    → Chain f 0 q
    → fetch f q ≡ some op
    → contains_op ops op ≡ true
    → q + 3 ≤ length f.code
    → string_constant f (read_u16 f.code (q + 1)) ≡ some t
    → contains_str (collect ops fs ts) t ≡ true
unfolding collect
collect-Chain ops [] ts k t at_k c e o le named = cc at_k
collect-Chain ops (g ∷ fs) ts zero {f = f} t at_k c e o le named =
    let same : g ≡ f = cc at_k in
    rw same (
      collect-keeps ops fs _ t
        (function_targets-Chain ops f t e o le named (suc (length f.code)) 0 ts c (omega arith)))
collect-Chain ops (g ∷ fs) ts (suc k) t at_k c e o le named =
    collect-Chain ops fs _ k t at_k c e o le named

validate-each :
    (fs : List BytecodeFunction) (k : ℕ) {f : BytecodeFunction}
    → validate_each fs ≡ ok tt
    → get_elem? fs k ≡ some f
    → validate_bytecode f ≡ ok tt
unfolding validate_each
validate-each [] k h at_k = cc at_k
validate-each (g ∷ fs) zero {f} h at_k =
    let same : g ≡ f = cc at_k in
    let (_, valid, _) = >>=-eq-ok (validate_bytecode g) _ h in rw (← same) valid
validate-each (g ∷ fs) (suc k) h at_k =
    let (_, _, rest) = >>=-eq-ok (validate_bytecode g) _ h in validate-each fs k rest at_k

absent-nil :
    (present ts : List Str) (t : Str)
    → absent present ts ≡ []
    → contains_str ts t ≡ true
    → contains_str present t ≡ true
unfolding absent
absent-nil present [] t h c = cc c
absent-nil present (u ∷ ts) t h c = ground (arith, absent-nil present ts t, bytes_eq-eq u t)

-- The instructions whose first operand names a function of the AOT snapshot, by their opcode.
abbrev pub calls_aot : OpCode → Bool
calls_aot OpCode.call_static = true
calls_aot OpCode.call_original = true
calls_aot _ = false

calls_aot-contains_op : (op : OpCode) → calls_aot op ≡ true → contains_op aot_ops op ≡ true
unfolding to_byte
calls_aot-contains_op OpCode.call_static e = refl
calls_aot-contains_op OpCode.call_original e = refl
calls_aot-contains_op _ e = cc e

-- What a call by name needs of its operands.
aot_call :
    (f : BytecodeFunction) (p : ℕ) (op : OpCode)
    → contains_op aot_ops op ≡ true
    → next p op ≤ length f.code
    → ValidOperands f p op
    → (p + 3 ≤ length f.code) × ((t : Str) × (string_constant f (read_u16 f.code (p + 1)) ≡ some t))
unfolding to_byte operand_len
aot_call f p OpCode.call_static o fits v = (omega arith, v)
aot_call f p OpCode.call_original o fits v = (omega arith, (v.0, v.1))
aot_call f p _ o fits v = cc o

reached_call :
    (f : BytecodeFunction) {p : ℕ} {op : OpCode}
    → validate_bytecode f ≡ ok tt
    → Reaches f p
    → fetch f p ≡ some op
    → contains_op aot_ops op ≡ true
    → (p + 3 ≤ length f.code) × ((t : Str) × (string_constant f (read_u16 f.code (p + 1)) ≡ some t))
reached_call f {p} {op} valid r e o = elim (validate_bytecode-IsInstruction f valid r) [
  | inl beyond ↦ absurd (omega (arith, fetch-lt f p e))
  | inr (i, _) ↦
      let same : i.opcode ≡ op = cc (i.fetched, e) in
      aot_call f p op o (subst (λ x. next p x ≤ length f.code) same i.fits)
        (subst (λ x. ValidOperands f p x) same i.operands)
]

-- In a module that is valid and misses no target, the operand of each call by name into the AOT
-- snapshot that control can come to, a CALL_STATIC or a CALL_ORIGINAL, names a function that is
-- present.
pub missing_aot_targets-nil :
    (m : BytecodeModule) (present : List Str) (k : ℕ) {f : BytecodeFunction} {p : ℕ} {op : OpCode}
    → validate m ≡ ok tt
    → missing_aot_targets m present ≡ []
    → get_elem? m.functions k ≡ some f
    → Reaches f p
    → fetch f p ≡ some op
    → calls_aot op ≡ true
    → (t : Str) × (string_constant f (read_u16 f.code (p + 1)) ≡ some t)
      × (contains_str present t ≡ true)
unfolding validate missing_aot_targets aot_referenced_targets targets_for
missing_aot_targets-nil m present k {f} {p} {op} valid all at_k r e call =
    let o = calls_aot-contains_op op call in
    let (_, _, each) = >>=-eq-ok (validate_envelope m) _ valid in
    let sound = validate-each m.functions k each at_k in
    let (le, (t, named)) = reached_call f sound r e o in
    (
      t,
      named,
      absent-nil present (collect aot_ops m.functions []) t all (
          collect-Chain aot_ops m.functions [] k t at_k (validate_bytecode-Chain f sound r) e o le
            named),
    )
