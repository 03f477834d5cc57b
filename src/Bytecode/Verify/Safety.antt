-- ===== src/Bytecode/Verify/Safety.antt =====
-- crates/fcb_core/src/bytecode.rs: what a function that `validate_bytecode` accepts guarantees to an
-- interpreter.
use fl_codepush_box.Prelude.{
  ℕ, suc, ◌+◌, ◌≤◌, ◌≡◌, sym, ◌⊎◌, inl, inr, true, false, some, List, [], arith, length, contains,
  ok, >>=-eq-ok, refuse_if, ltb, subst,
}
use native.Mathlib.Decide.{dec_lt}
use fl_codepush_box.Bytecode.OpCode.{OpCode}
use fl_codepush_box.Bytecode.Format.{BytecodeFunction, locals_below_params, empty_bytecode}
use fl_codepush_box.Bytecode.Verify.{scan, scan_branches, is_empty, validate_bytecode, read_u16}
use fl_codepush_box.Bytecode.Verify.Operands.{check_branch-ValidBranch}
use fl_codepush_box.Bytecode.Verify.Scan.{scan-Chain, scan-le, scan-collects, scan_branches-Chain}
use fl_codepush_box.Bytecode.Verify.Flow.{
  fetch, next, Chain, here, step, Reaches, entry, falls, jumps, leaves, IsInstruction, is_branch,
  is_handler, ValidBranch,
}

-- What the two loops of an accepted function have returned.
record Loops (f : BytecodeFunction) : Type 0 where
  starts : List ℕ
  params : f.param_count ≤ f.local_count
  scanned : scan (suc (length f.code)) f 0 [] ≡ ok starts
  nonempty : is_empty f.code ≡ false
  branches : scan_branches (suc (length f.code)) f starts 0 ≡ ok tt

loops : (f : BytecodeFunction) → validate_bytecode f ≡ ok tt → Loops f
unfolding validate_bytecode
loops f h =
    let (_, params, h₁) =
      >>=-eq-ok (refuse_if (ltb f.local_count f.param_count) (locals_below_params f.name)) _ h in
    let (starts, scanned, h₂) = >>=-eq-ok (scan (suc (length f.code)) f 0 []) _ h₁ in
    let (_, nonempty, h₃) = >>=-eq-ok (refuse_if (is_empty f.code) (empty_bytecode f.name)) _ h₂ in
    record {
      starts = starts;
      params = ground arith;
      scanned = scanned;
      nonempty = ground arith;
      branches = h₃;
    }

pub Chain-step :
    (f : BytecodeFunction) {p q r : ℕ} (op : OpCode)
    → Chain f p q
    → fetch f q ≡ some op
    → r ≡ next q op
    → Chain f p r
Chain-step f {p = p} op here e same = step op e (subst (λ k. Chain f (next p op) k) (sym same) here)
Chain-step f op (step op' e' c) e same = step op' e' (Chain-step f op c e same)

module _ (f : BytecodeFunction) (l : Loops f) where
  branch_checked :
      {p : ℕ} (op : OpCode)
      → Chain f 0 p
      → fetch f p ≡ some op
      → ValidBranch f p op
        × (is_branch op ≡ true → contains l.starts (read_u16 f.code (p + 1)) ≡ true)
        × (is_handler op ≡ true → contains l.starts (read_u16 f.code (p + 1 + 2)) ≡ true)
  branch_checked op c e =
      check_branch-ValidBranch f l.starts _ op (scan_branches-Chain _ f l.starts 0 l.branches c e)

  collected : (x : ℕ) → contains l.starts x ≡ true → Chain f 0 x
  collected x c = elim (scan-collects _ f 0 [] x l.scanned c) [
    | inl none_before ↦ cc none_before
    | inr chain ↦ chain
  ]

  -- Control stays on the instructions of straight-line decoding.
  Reaches-Chain : {p : ℕ} → Reaches f p → Chain f 0 p
  Reaches-Chain (entry e) = subst (λ k. Chain f 0 k) (sym e) here
  Reaches-Chain (falls op r e same) = Chain-step f op (Reaches-Chain r) e same
  Reaches-Chain (jumps op r e branch same) =
      subst (λ k. Chain f 0 k) (sym same)
        (collected _ ((branch_checked op (Reaches-Chain r) e).1 branch))
  Reaches-Chain (leaves op r e handler same) =
      subst (λ k. Chain f 0 k) (sym same)
        (collected _ ((branch_checked op (Reaches-Chain r) e).2 handler))

pub validate_bytecode-Chain :
    (f : BytecodeFunction) {p : ℕ} → validate_bytecode f ≡ ok tt → Reaches f p → Chain f 0 p
validate_bytecode-Chain f h r = Reaches-Chain f (loops f h) r

-- In an accepted function, wherever control can go, either the code ends exactly there, or a whole
-- instruction with a known opcode and valid operands stands there; if it branches, its targets lie
-- in the code, and a handler lies behind its instruction and before the end of its range.
pub validate_bytecode-IsInstruction :
    (f : BytecodeFunction) {p : ℕ}
    → validate_bytecode f ≡ ok tt
    → Reaches f p
    → (p ≡ length f.code) ⊎ ((i : IsInstruction f p) × ValidBranch f p i.opcode)
validate_bytecode-IsInstruction f {p} h r =
    let l = loops f h in
    let c = Reaches-Chain f l r in
    let bound = scan-le _ f 0 [] l.scanned c (omega arith) in
    elim (dec_lt p (length f.code)) [
      | yes lt ↦
          let i = (scan-Chain _ f 0 [] l.scanned c lt).0 in
          inr (i, (branch_checked f l i.opcode c i.fetched).0)
      | no beyond ↦ inl (omega arith)
    ]
