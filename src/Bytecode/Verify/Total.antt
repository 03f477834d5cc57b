-- ===== src/Bytecode/Verify/Total.antt =====
-- crates/fcb_core/src/bytecode.rs: the loops of `validate_bytecode` end, and its `expect` never
-- panics.
use fl_codepush_box.Prelude.{
  ℕ, zero, suc, ◌+◌, ◌≤◌, ◌<◌, ◌≡◌, refl, inl, inr, Bool, true, false, Option, none, some, List, [],
  ◌∷◌, arith, length, get_elem?, get_elem?-lt, Option-cases, ok, err, ◌>>=◌, refuse_if, ok_or, ltb,
}
use fl_codepush_box.Bytecode.OpCode.{OpCode, from_byte}
use fl_codepush_box.Bytecode.Format.{
  BytecodeFunction, BytecodeError, Checked, out_of_fuel, not_validated, invalid_opcode,
  missing_operands, locals_below_params, empty_bytecode,
}
use fl_codepush_box.Bytecode.Verify.{
  string_operand, named_operand, closure_operand, check_operand, scan, branch_target, handler_range,
  check_branch, scan_branches, is_empty, validate_bytecode,
}
use fl_codepush_box.Bytecode.Verify.Flow.{next, Chain, here}
use fl_codepush_box.Bytecode.Verify.Scan.{scan-Chain, scan-le}
use fl_codepush_box.Bytecode.Verify.Safety.{Chain-step}

-- The outcomes that stand for no result of the program: fuel that ran out, and a panic.
abbrev pub is_internal : BytecodeError → Bool
is_internal out_of_fuel = true
is_internal not_validated = true
is_internal _ = false

pub record IsQuiet {A : Type 0} (r : Checked A) : Type 0 where
  pub at : (e : BytecodeError) → r ≡ err e → is_internal e ≡ false

ok-IsQuiet : {A : Type 0} (a : A) → IsQuiet (ok a)
ok-IsQuiet a = record { at = λ e h. cc h }

err-IsQuiet : {A : Type 0} (x : BytecodeError) → is_internal x ≡ false → IsQuiet {A = A} (err x)
err-IsQuiet x q = record { at = λ e h. ground arith }

bind-IsQuiet :
    {A B : Type 0} (m : Checked A) (f : A → Checked B)
    → IsQuiet m
    → ((a : A) → m ≡ ok a → IsQuiet (f a))
    → IsQuiet (m >>= f)
bind-IsQuiet (ok a) f q k = k a refl
bind-IsQuiet (err e) f q k = err-IsQuiet e (q.at e refl)

refuse_if-IsQuiet : (b : Bool) (e : BytecodeError) → is_internal e ≡ false → IsQuiet (refuse_if b e)
refuse_if-IsQuiet true e q = err-IsQuiet e q
refuse_if-IsQuiet false e q = ok-IsQuiet tt

ok_or-IsQuiet :
    {A : Type 0} (o : Option A) (e : BytecodeError) → is_internal e ≡ false → IsQuiet (ok_or o e)
ok_or-IsQuiet none e q = err-IsQuiet e q
ok_or-IsQuiet (some a) e q = ok-IsQuiet a

ruleset quiet_rules = (ok-IsQuiet, bind-IsQuiet, refuse_if-IsQuiet, ok_or-IsQuiet)

string_operand-IsQuiet :
    (f : BytecodeFunction) (p : ℕ) (op : OpCode) → IsQuiet (string_operand f p op)
unfolding string_operand
string_operand-IsQuiet f p op = search quiet_rules

named_operand-IsQuiet :
    (f : BytecodeFunction) (p : ℕ) (op : OpCode) → IsQuiet (named_operand f p op)
unfolding named_operand
named_operand-IsQuiet f p op = search quiet_rules

closure_operand-IsQuiet : (f : BytecodeFunction) (p idx : ℕ) → IsQuiet (closure_operand f p idx)
unfolding closure_operand
closure_operand-IsQuiet f p zero = search quiet_rules
closure_operand-IsQuiet f p (suc idx) = search quiet_rules

ruleset operand_rules =
    (quiet_rules, string_operand-IsQuiet, named_operand-IsQuiet, closure_operand-IsQuiet)

check_operand-IsQuiet :
    (f : BytecodeFunction) (p : ℕ) (op : OpCode) → IsQuiet (check_operand f p op)
unfolding check_operand
check_operand-IsQuiet f p OpCode.load_const = search operand_rules
check_operand-IsQuiet f p _ = search operand_rules

branch_target-IsQuiet :
    (f : BytecodeFunction) (starts : List ℕ) (p : ℕ) (op : OpCode)
    → IsQuiet (branch_target f starts p op)
unfolding branch_target
branch_target-IsQuiet f starts p op = search quiet_rules

handler_range-IsQuiet :
    (f : BytecodeFunction) (starts : List ℕ) (p : ℕ) (op : OpCode)
    → IsQuiet (handler_range f starts p op)
unfolding handler_range
handler_range-IsQuiet f starts p op = search (quiet_rules, branch_target-IsQuiet) depth 7

check_branch-IsQuiet :
    (f : BytecodeFunction) (starts : List ℕ) (p : ℕ) (op : OpCode)
    → IsQuiet (check_branch f starts p op)
unfolding check_branch
check_branch-IsQuiet f starts p OpCode.jump = branch_target-IsQuiet f starts p _
check_branch-IsQuiet f starts p OpCode.jump_if_false = branch_target-IsQuiet f starts p _
check_branch-IsQuiet f starts p OpCode.jump_if_true = branch_target-IsQuiet f starts p _
check_branch-IsQuiet f starts p OpCode.try_begin = handler_range-IsQuiet f starts p _
check_branch-IsQuiet f starts p OpCode.try_finally = handler_range-IsQuiet f starts p _
check_branch-IsQuiet f starts p _ = ok-IsQuiet tt

fits_le :
    (n p : ℕ) (op : OpCode) (e : BytecodeError)
    → refuse_if (ltb n (next p op)) e ≡ ok tt
    → next p op ≤ n
fits_le n p op e h = ground arith

-- The first loop ends within the fuel.
scan-IsQuiet :
    (fuel : ℕ) (f : BytecodeFunction) (pos : ℕ) (starts : List ℕ)
    → pos ≤ length f.code
    → length f.code < fuel + pos
    → IsQuiet (scan fuel f pos starts)
unfolding scan
scan-IsQuiet zero f pos starts le lt = absurd (omega arith)
scan-IsQuiet (suc fuel) f pos starts le lt = elim (Option-cases (get_elem? f.code pos)) [
  | inl missing ↦ rw (missing, scan) (ok-IsQuiet starts)
  | inr (b, there) ↦
      rw (there, scan)
        (bind-IsQuiet (ok_or (from_byte b) (invalid_opcode b pos)) _ (ok_or-IsQuiet _ _ refl)
          λ op known.
            bind-IsQuiet (refuse_if (ltb (length f.code) (next pos op)) (missing_operands op pos)) _
              (refuse_if-IsQuiet _ _ refl)
              λ _ fits.
                bind-IsQuiet (check_operand f pos op) _ (check_operand-IsQuiet f pos op) λ _ _.
                  scan-IsQuiet fuel f (next pos op) (pos ∷ starts)
                    (fits_le (length f.code) pos op _ fits) (omega arith))
]

-- So does the second, and each opcode that it decodes was decoded by the first.
scan_branches-IsQuiet :
    (fuel : ℕ) (f : BytecodeFunction) (starts : List ℕ) (pos n : ℕ) {out : List ℕ}
    → scan n f 0 [] ≡ ok out
    → Chain f 0 pos
    → length f.code < fuel + pos
    → IsQuiet (scan_branches fuel f starts pos)
unfolding scan_branches
scan_branches-IsQuiet zero f starts pos n scanned c lt =
    absurd (omega (arith, scan-le n f 0 [] scanned c (omega arith)))
scan_branches-IsQuiet (suc fuel) f starts pos n scanned c lt =
    elim (Option-cases (get_elem? f.code pos)) [
      | inl missing ↦ rw (missing, scan_branches) (ok-IsQuiet tt)
      | inr (b, there) ↦
          let i = (scan-Chain n f 0 [] scanned c (get_elem?-lt f.code pos there)).0 in
          let known : from_byte b ≡ some i.opcode = rw there at i.fetched in
          rw (there, scan_branches, known)
            (bind-IsQuiet (check_branch f starts pos i.opcode) _
              (check_branch-IsQuiet f starts pos i.opcode)
              λ _ _.
                scan_branches-IsQuiet fuel f starts (next pos i.opcode) n scanned
                  (Chain-step f i.opcode c i.fetched refl) (omega arith))
    ]

-- The verdict on any function is a result of the program: both loops end within their fuel, and
-- the opcode that the second loop expects to be valid is.
pub validate_bytecode_total :
    (f : BytecodeFunction) (e : BytecodeError) → validate_bytecode f ≡ err e → is_internal e ≡ false
unfolding validate_bytecode
validate_bytecode_total f = (verdict f).at
  where
    verdict : (f : BytecodeFunction) → IsQuiet (validate_bytecode f)
    verdict f =
        bind-IsQuiet (refuse_if (ltb f.local_count f.param_count) (locals_below_params f.name)) _
          (refuse_if-IsQuiet _ _ refl)
          λ _ _.
            bind-IsQuiet (scan (suc (length f.code)) f 0 []) _
              (scan-IsQuiet _ f 0 [] (omega arith) (omega arith))
              λ starts scanned.
                bind-IsQuiet (refuse_if (is_empty f.code) (empty_bytecode f.name)) _
                  (refuse_if-IsQuiet _ _ refl)
                  λ _ _. scan_branches-IsQuiet _ f starts 0 _ scanned here (omega arith)
