-- ===== src/Bytecode/Format.antt =====
-- crates/fcb_core/src/bytecode.rs: the records of a bytecode module, and the errors about them.
-- A text is the list of its UTF-8 bytes, an `i64` its bits, and an `f64` its IEEE 754 bits.
use fl_codepush_box.Prelude.{
  ℕ, String, Bool, Option, none, some, List, Str, Bytes, codes, get_elem?, Result,
}
use fl_codepush_box.Bytecode.OpCode.{OpCode}

abbrev pub format_version : ℕ
format_version = 3

abbrev pub min_supported_module_version : ℕ
min_supported_module_version = 1

abbrev pub binary_magic : Bytes
binary_magic = codes "FCBM"

abbrev pub tagged : Str
tagged = codes "tagged"

abbrev pub unboxed_int64 : Str
unboxed_int64 = codes "unboxed_int64"

pub data AsyncKind : Type 0 where
  sync async_future async_star sync_star : AsyncKind

pub data Constant : Type 0 where
  int : ℕ → Constant
  double : ℕ → Constant
  bool : Bool → Constant
  string : Str → Constant
  null : Constant

pub record SourceMapEntry : Type 0 where
  pub bytecode_offset : ℕ
  pub source_location : Str

pub record DebugLocalEntry : Type 0 where
  pub slot : ℕ
  pub name : Str

pub record BytecodeFunction : Type 0 where
  pub name : Str
  pub return_convention : Str
  pub async_kind : AsyncKind
  pub param_count : ℕ
  pub local_count : ℕ
  pub constants : List Constant
  pub code : Bytes
  pub source_map : List SourceMapEntry
  pub debug_locals : List DebugLocalEntry

pub record BytecodeModule : Type 0 where
  pub version : ℕ
  pub functions : List BytecodeFunction

-- One constructor for each message. `out_of_fuel` is no error of the program, and `not_validated`
-- stands for the panic of `expect("validated opcode")`: neither is ever returned.
pub data BytecodeError : Type 0 where
  locals_below_params empty_bytecode : Str → BytecodeError
  invalid_opcode : ℕ → ℕ → BytecodeError
  missing_operands : OpCode → ℕ → BytecodeError
  missing_constant missing_argument missing_string : OpCode → ℕ → ℕ → BytecodeError
  missing_local missing_metadata : OpCode → ℕ → ℕ → BytecodeError
  metadata_prefix : ℕ → BytecodeError
  too_many_named : OpCode → ℕ → ℕ → ℕ → BytecodeError
  target_out_of_range target_not_instruction : OpCode → ℕ → ℕ → BytecodeError
  end_out_of_range end_not_instruction : OpCode → ℕ → ℕ → BytecodeError
  handler_order : OpCode → ℕ → BytecodeError
  unexpected_version : ℕ → BytecodeError
  no_functions empty_function_name : BytecodeError
  unsupported_return_convention : Str → Str → BytecodeError
  duplicate_function : Str → BytecodeError
  source_map_offset : Str → ℕ → BytecodeError
  source_map_location : Str → BytecodeError
  debug_local_slot : Str → ℕ → BytecodeError
  debug_local_name : Str → BytecodeError
  exceeds_range : String → BytecodeError
  bad_magic truncated trailing_data invalid_utf8 : BytecodeError
  bad_return_convention bad_async_kind bad_bool bad_constant_tag : ℕ → BytecodeError
  bad_json : BytecodeError
  out_of_fuel not_validated : BytecodeError

abbrev pub Checked : Type 0 → Type 0
Checked A = Result BytecodeError A

-- `function.constants.get(idx)`, where it is a string.
abbrev pub as_string : Option Constant → Option Str
as_string (some (string v)) = some v
as_string _ = none

abbrev pub string_constant : BytecodeFunction → ℕ → Option Str
string_constant f idx = as_string (get_elem? f.constants idx)
