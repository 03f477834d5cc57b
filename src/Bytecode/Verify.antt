-- ===== src/Bytecode/Verify.antt =====
-- crates/fcb_core/src/bytecode.rs: `validate_bytecode`. Its two `while` loops take fuel, one more
-- than the length of the code; each round moves on by one byte at least.
pub mod Flow
mod Operands
mod Scan
pub mod Safety
pub mod Total
use fl_codepush_box.Prelude.{
  ℕ, zero, suc, ◌+◌, ◌-◌, ◌*◌, Bool, true, false, not, ◌||◌, Option, none, some, List, [], ◌∷◌,
  if◌then◌else◌, ◌==◌, ltb, leb, Bytes, starts_with, length, get_elem?, get_or, contains, Result,
  ok, err, ◌>>=◌, ◌>>◌, refuse_if, ok_or,
}
use fl_codepush_box.Bytecode.OpCode
use fl_codepush_box.Bytecode.OpCode.{OpCode, from_byte, operand_len}
use fl_codepush_box.Bytecode.Format.{
  BytecodeFunction, BytecodeError, Checked, string_constant, locals_below_params, empty_bytecode,
  invalid_opcode, missing_operands, missing_constant, missing_argument, missing_string,
  missing_local, missing_metadata, metadata_prefix, too_many_named, target_out_of_range,
  target_not_instruction, end_out_of_range, end_not_instruction, handler_order, out_of_fuel,
  not_validated,
}
use fl_codepush_box.Bytecode.Names.{marker, count_named_arguments}

-- `code[pos]`, where the code has checked that `pos` is in range.
abbrev pub byte_at : Bytes → ℕ → ℕ
byte_at code pos = get_or code pos 0

abbrev pub read_u16 : Bytes → ℕ → ℕ
read_u16 code pos = byte_at code pos * 256 + byte_at code (pos + 1)

unfoldable pub string_operand : BytecodeFunction → ℕ → OpCode → Checked (Unit {0})
string_operand f pos op = do
  let idx = read_u16 f.code (pos + 1)
  value ← ok_or (string_constant f idx) (missing_string op pos idx)
  ok tt

unfoldable pub named_operand : BytecodeFunction → ℕ → OpCode → Checked (Unit {0})
named_operand f pos op = do
  let idx = read_u16 f.code (pos + 1)
  value ← ok_or (string_constant f idx) (missing_string op pos idx)
  let argc = byte_at f.code (pos + 1 + 2)
  let named = count_named_arguments value false
  refuse_if (ltb argc named) (too_many_named op pos named argc)

unfoldable pub closure_operand : BytecodeFunction → ℕ → ℕ → Checked (Unit {0})
closure_operand f pos zero = ok tt
closure_operand f pos (suc idx) = do
  value ← ok_or (string_constant f idx) (missing_metadata OpCode.call_closure pos idx)
  refuse_if (not (starts_with marker value)) (metadata_prefix pos)
  let argc = byte_at f.code (pos + 1 + 2)
  let named = count_named_arguments value true
  refuse_if (ltb argc named) (too_many_named OpCode.call_closure pos named argc)

-- The checks of the first loop on the operands of an opcode.
unfoldable pub check_operand : BytecodeFunction → ℕ → OpCode → Checked (Unit {0})
unfolding string_operand named_operand closure_operand
check_operand f pos OpCode.load_const =
    let idx = read_u16 f.code (pos + 1) in
    refuse_if (leb (length f.constants) idx) (missing_constant OpCode.load_const pos idx)
check_operand f pos OpCode.load_arg =
    let idx = byte_at f.code (pos + 1) in
    refuse_if (leb f.param_count idx) (missing_argument OpCode.load_arg pos idx)
check_operand f pos OpCode.load_local =
    let idx = byte_at f.code (pos + 1) in
    refuse_if (leb f.local_count idx) (missing_local OpCode.load_local pos idx)
check_operand f pos OpCode.store_local =
    let idx = byte_at f.code (pos + 1) in
    refuse_if (leb f.local_count idx) (missing_local OpCode.store_local pos idx)
check_operand f pos OpCode.call_closure = closure_operand f pos (read_u16 f.code (pos + 1))
check_operand f pos OpCode.get_field = string_operand f pos OpCode.get_field
check_operand f pos OpCode.set_field = string_operand f pos OpCode.set_field
check_operand f pos OpCode.is_type = string_operand f pos OpCode.is_type
check_operand f pos OpCode.as_type = string_operand f pos OpCode.as_type
check_operand f pos OpCode.call_static = string_operand f pos OpCode.call_static
check_operand f pos OpCode.make_closure = string_operand f pos OpCode.make_closure
check_operand f pos OpCode.call_dynamic = named_operand f pos OpCode.call_dynamic
check_operand f pos OpCode.call_original = named_operand f pos OpCode.call_original
check_operand f pos OpCode.new_object = named_operand f pos OpCode.new_object
check_operand f pos _ = ok tt

-- The first loop: it checks each instruction and collects where the instructions start.
unfoldable pub scan : ℕ → BytecodeFunction → ℕ → List ℕ → Checked (List ℕ)
scan zero f pos starts = err out_of_fuel
scan (suc fuel) f pos starts = elim (get_elem? f.code pos) [
  | none ↦ ok starts
  | some b ↦ do
    op ← ok_or (from_byte b) (invalid_opcode b pos)
    let next = pos + 1 + operand_len op
    refuse_if (ltb (length f.code) next) (missing_operands op pos)
    check_operand f pos op
    scan fuel f next (pos ∷ starts)
]

unfoldable pub branch_target : BytecodeFunction → List ℕ → ℕ → OpCode → Checked (Unit {0})
branch_target f starts pos op = do
  let target = read_u16 f.code (pos + 1)
  refuse_if (leb (length f.code) target) (target_out_of_range op pos target)
  refuse_if (not (contains starts target)) (target_not_instruction op pos target)

unfoldable pub handler_range : BytecodeFunction → List ℕ → ℕ → OpCode → Checked (Unit {0})
handler_range f starts pos op = do
  branch_target f starts pos op
  let target = read_u16 f.code (pos + 1)
  let last = read_u16 f.code (pos + 1 + 2)
  refuse_if (leb (length f.code) last) (end_out_of_range op pos last)
  refuse_if (not (contains starts last)) (end_not_instruction op pos last)
  refuse_if (leb target pos || leb last target) (handler_order op pos)

-- The checks of the second loop.
unfoldable pub check_branch : BytecodeFunction → List ℕ → ℕ → OpCode → Checked (Unit {0})
unfolding branch_target handler_range
check_branch f starts pos OpCode.jump = branch_target f starts pos OpCode.jump
check_branch f starts pos OpCode.jump_if_false = branch_target f starts pos OpCode.jump_if_false
check_branch f starts pos OpCode.jump_if_true = branch_target f starts pos OpCode.jump_if_true
check_branch f starts pos OpCode.try_begin = handler_range f starts pos OpCode.try_begin
check_branch f starts pos OpCode.try_finally = handler_range f starts pos OpCode.try_finally
check_branch f starts pos _ = ok tt

unfoldable pub scan_branches : ℕ → BytecodeFunction → List ℕ → ℕ → Checked (Unit {0})
scan_branches zero f starts pos = err out_of_fuel
scan_branches (suc fuel) f starts pos = elim (get_elem? f.code pos) [
  | none ↦ ok tt
  | some b ↦ do
    op ← ok_or (from_byte b) not_validated
    check_branch f starts pos op
    scan_branches fuel f starts (pos + 1 + operand_len op)
]

unfoldable pub is_empty : Bytes → Bool
is_empty [] = true
is_empty (_ ∷ _) = false

unfoldable pub validate_bytecode : BytecodeFunction → Checked (Unit {0})
unfolding is_empty
validate_bytecode f = do
  refuse_if (ltb f.local_count f.param_count) (locals_below_params f.name)
  starts ← scan (suc (length f.code)) f 0 []
  refuse_if (is_empty f.code) (empty_bytecode f.name)
  scan_branches (suc (length f.code)) f starts 0
