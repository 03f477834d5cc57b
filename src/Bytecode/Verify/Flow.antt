-- ===== src/Bytecode/Verify/Flow.antt =====
-- crates/fcb_core/src/bytecode.rs: what `validate_bytecode` is to guarantee, said without its loops:
-- where control can go in a function, and what an instruction needs of its operands.
use fl_codepush_box.Prelude.{
  ℕ, zero, suc, ◌⊎◌, ◌+◌, ◌≤◌, ◌<◌, ◌≡◌, Bool, true, false, Option, none, some, Str, starts_with,
  length, get_elem?,
}
use fl_codepush_box.Bytecode.OpCode.{OpCode, from_byte, operand_len}
use fl_codepush_box.Bytecode.Format.{BytecodeFunction, string_constant}
use fl_codepush_box.Bytecode.Names.{marker, count_named_arguments}
use fl_codepush_box.Bytecode.Verify.{byte_at, read_u16}

abbrev decode : Option ℕ → Option OpCode
decode none = none
decode (some b) = from_byte b

-- The opcode at a position, if a known one stands there.
abbrev pub fetch : BytecodeFunction → ℕ → Option OpCode
fetch f p = decode (get_elem? f.code p)

abbrev pub next : ℕ → OpCode → ℕ
next p op = p + 1 + operand_len op

-- `q` is where straight-line decoding from `p` arrives.
pub data Chain (f : BytecodeFunction) : ℕ → ℕ → Type 0 where
  here : {p : ℕ} → Chain f p p
  step : {p q : ℕ} (op : OpCode) → fetch f p ≡ some op → Chain f (next p op) q → Chain f p q

abbrev pub is_branch : OpCode → Bool
is_branch OpCode.jump = true
is_branch OpCode.jump_if_false = true
is_branch OpCode.jump_if_true = true
is_branch OpCode.try_begin = true
is_branch OpCode.try_finally = true
is_branch _ = false

abbrev pub is_handler : OpCode → Bool
is_handler OpCode.try_begin = true
is_handler OpCode.try_finally = true
is_handler _ = false

-- The positions that an interpreter may come to: the entry, the instruction behind one that it
-- came to, the target of a branch, and the end of a protected range.
pub data Reaches (f : BytecodeFunction) : ℕ → Type 0 where
  entry : {p : ℕ} → p ≡ 0 → Reaches f p
  falls : {p q : ℕ} (op : OpCode) → Reaches f p → fetch f p ≡ some op → q ≡ next p op → Reaches f q
  jumps :
      {p q : ℕ} (op : OpCode)
      → Reaches f p
      → fetch f p ≡ some op
      → is_branch op ≡ true
      → q ≡ read_u16 f.code (p + 1)
      → Reaches f q
  leaves :
      {p q : ℕ} (op : OpCode)
      → Reaches f p
      → fetch f p ≡ some op
      → is_handler op ≡ true
      → q ≡ read_u16 f.code (p + 1 + 2)
      → Reaches f q

-- The first operand names a string constant.
abbrev pub NamesString : BytecodeFunction → ℕ → Type 0
NamesString f p = (v : Str) × (string_constant f (read_u16 f.code (p + 1)) ≡ some v)

-- It names the metadata of a call that passes no more named arguments than arguments.
abbrev pub NamesCall : BytecodeFunction → ℕ → Type 0
NamesCall f p =
    (v : Str) × (string_constant f (read_u16 f.code (p + 1)) ≡ some v)
    × (count_named_arguments v false ≤ byte_at f.code (p + 1 + 2))

-- It is 0, or one more than the index of metadata that begins with the marker.
abbrev pub NamesMetadata : BytecodeFunction → ℕ → ℕ → Type 0
NamesMetadata f p zero = Unit {0}
NamesMetadata f p (suc idx) =
    (v : Str) × (string_constant f idx ≡ some v)
    × (starts_with marker v ≡ true)
    × (count_named_arguments v true ≤ byte_at f.code (p + 1 + 2))

abbrev pub ValidOperands : BytecodeFunction → ℕ → OpCode → Type 0
ValidOperands f p OpCode.load_const = read_u16 f.code (p + 1) < length f.constants
ValidOperands f p OpCode.load_arg = byte_at f.code (p + 1) < f.param_count
ValidOperands f p OpCode.load_local = byte_at f.code (p + 1) < f.local_count
ValidOperands f p OpCode.store_local = byte_at f.code (p + 1) < f.local_count
ValidOperands f p OpCode.get_field = NamesString f p
ValidOperands f p OpCode.set_field = NamesString f p
ValidOperands f p OpCode.is_type = NamesString f p
ValidOperands f p OpCode.as_type = NamesString f p
ValidOperands f p OpCode.call_static = NamesString f p
ValidOperands f p OpCode.make_closure = NamesString f p
ValidOperands f p OpCode.call_dynamic = NamesCall f p
ValidOperands f p OpCode.call_original = NamesCall f p
ValidOperands f p OpCode.new_object = NamesCall f p
ValidOperands f p OpCode.call_closure = NamesMetadata f p (read_u16 f.code (p + 1))
ValidOperands f p _ = Unit {0}

-- A whole instruction with a known opcode and valid operands stands at the position.
pub record IsInstruction (f : BytecodeFunction) (p : ℕ) : Type 0 where
  pub opcode : OpCode
  pub fetched : fetch f p ≡ some opcode
  pub fits : next p opcode ≤ length f.code
  pub operands : ValidOperands f p opcode

-- A branch stays in the code, and a handler lies behind its instruction and before its end.
abbrev pub ValidBranch : BytecodeFunction → ℕ → OpCode → Type 0
ValidBranch f p op =
    ((is_branch op ≡ false) ⊎ (read_u16 f.code (p + 1) < length f.code))
    × ((is_handler op ≡ false)
        ⊎ (p < read_u16 f.code (p + 1))
          × (read_u16 f.code (p + 1) < read_u16 f.code (p + 1 + 2))
          × (read_u16 f.code (p + 1 + 2) < length f.code))
