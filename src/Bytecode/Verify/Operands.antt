-- ===== src/Bytecode/Verify/Operands.antt =====
-- crates/fcb_core/src/bytecode.rs: the operand and branch checks of `validate_bytecode` establish
-- what `ValidOperands` and `ValidBranch` ask.
use fl_codepush_box.Prelude.{
  ℕ, zero, suc, ◌+◌, ◌≡◌, true, arith, List, contains, ok, >>=-eq-ok, ok_or, ok_or-eq-ok,
}
use fl_codepush_box.Bytecode.OpCode.{OpCode}
use fl_codepush_box.Bytecode.Format.{
  BytecodeFunction, string_constant, missing_string, missing_metadata,
}
use fl_codepush_box.Bytecode.Verify.{
  read_u16, string_operand, named_operand, closure_operand, check_operand, check_branch,
}
use fl_codepush_box.Bytecode.Verify.Flow.{
  NamesString, NamesCall, NamesMetadata, ValidOperands, is_branch, is_handler, ValidBranch,
}

string_operand-NamesString :
    (f : BytecodeFunction) (p : ℕ) (op : OpCode) → string_operand f p op ≡ ok tt → NamesString f p
unfolding string_operand
string_operand-NamesString f p op h =
    let o = string_constant f (read_u16 f.code (p + 1)) in
    let (v, e, _) = >>=-eq-ok (ok_or o (missing_string op p (read_u16 f.code (p + 1)))) _ h in
    (v, ok_or-eq-ok o _ e)

named_operand-NamesCall :
    (f : BytecodeFunction) (p : ℕ) (op : OpCode) → named_operand f p op ≡ ok tt → NamesCall f p
unfolding named_operand
named_operand-NamesCall f p op h =
    let o = string_constant f (read_u16 f.code (p + 1)) in
    let (v, e, rest) = >>=-eq-ok (ok_or o (missing_string op p (read_u16 f.code (p + 1)))) _ h in
    (v, ok_or-eq-ok o _ e, ground arith)

closure_operand-NamesMetadata :
    (f : BytecodeFunction) (p idx : ℕ) → closure_operand f p idx ≡ ok tt → NamesMetadata f p idx
unfolding closure_operand
closure_operand-NamesMetadata f p zero h = tt
closure_operand-NamesMetadata f p (suc idx) h =
    let o = string_constant f idx in
    let (v, e, rest) = >>=-eq-ok (ok_or o (missing_metadata OpCode.call_closure p idx)) _ h in
    (v, ok_or-eq-ok o _ e, ground arith, ground arith)

-- The operand checks establish what an instruction needs.
pub check_operand-ValidOperands :
    (f : BytecodeFunction) (p : ℕ) (op : OpCode)
    → check_operand f p op ≡ ok tt
    → ValidOperands f p op
unfolding check_operand
check_operand-ValidOperands f p OpCode.load_const h = ground arith
check_operand-ValidOperands f p OpCode.load_arg h = ground arith
check_operand-ValidOperands f p OpCode.load_local h = ground arith
check_operand-ValidOperands f p OpCode.store_local h = ground arith
check_operand-ValidOperands f p OpCode.get_field h = string_operand-NamesString f p _ h
check_operand-ValidOperands f p OpCode.set_field h = string_operand-NamesString f p _ h
check_operand-ValidOperands f p OpCode.is_type h = string_operand-NamesString f p _ h
check_operand-ValidOperands f p OpCode.as_type h = string_operand-NamesString f p _ h
check_operand-ValidOperands f p OpCode.call_static h = string_operand-NamesString f p _ h
check_operand-ValidOperands f p OpCode.make_closure h = string_operand-NamesString f p _ h
check_operand-ValidOperands f p OpCode.call_dynamic h = named_operand-NamesCall f p _ h
check_operand-ValidOperands f p OpCode.call_original h = named_operand-NamesCall f p _ h
check_operand-ValidOperands f p OpCode.new_object h = named_operand-NamesCall f p _ h
check_operand-ValidOperands f p OpCode.call_closure h = closure_operand-NamesMetadata f p _ h
check_operand-ValidOperands f p _ h = tt

-- The branch checks keep a branch in the code, at an instruction that the first loop has seen.
pub check_branch-ValidBranch :
    (f : BytecodeFunction) (starts : List ℕ) (p : ℕ) (op : OpCode)
    → check_branch f starts p op ≡ ok tt
    → ValidBranch f p op
      × (is_branch op ≡ true → contains starts (read_u16 f.code (p + 1)) ≡ true)
      × (is_handler op ≡ true → contains starts (read_u16 f.code (p + 1 + 2)) ≡ true)
unfolding check_branch
check_branch-ValidBranch f starts p OpCode.jump h = ground arith
check_branch-ValidBranch f starts p OpCode.jump_if_false h = ground arith
check_branch-ValidBranch f starts p OpCode.jump_if_true h = ground arith
check_branch-ValidBranch f starts p OpCode.try_begin h = ground arith
check_branch-ValidBranch f starts p OpCode.try_finally h = ground arith
check_branch-ValidBranch f starts p _ h = ground arith
