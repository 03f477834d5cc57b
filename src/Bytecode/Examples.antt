-- ===== src/Bytecode/Examples.antt =====
-- Concrete runs of the verifier, the codec, the gate and the pool of crates/fcb_core/src/bytecode.rs.
use fl_codepush_box.Prelude.{
  ℕ, ◌<◌, ◌^◌, ◌≡◌, ◌⊎◌, refl, true, false, none, some, List, [], ◌∷◌, Str, Bytes, codes, ok, err,
  All, contains_str, get_elem?, is_blank, is_utf8,
}
use fl_codepush_box.Host.Example.{example_function, example_module}
use fl_codepush_box.Bytecode.OpCode.{
  OpCode, to_byte, from_byte, operand_len, from_byte-to_byte, to_byte-from_byte,
}
use fl_codepush_box.Bytecode.Format.{
  BytecodeFunction, Constant, string_constant, format_version, locals_below_params,
}
use fl_codepush_box.Bytecode.Verify.{
  validate_bytecode, scan, scan_branches, check_operand, string_operand, check_branch, is_empty,
  read_u16,
}
use fl_codepush_box.Bytecode.Verify.Flow.{Reaches, entry, falls, fetch, IsInstruction, ValidBranch}
use fl_codepush_box.Bytecode.Verify.Safety.{validate_bytecode-IsInstruction}
use fl_codepush_box.Bytecode.Verify.Total.{is_internal, validate_bytecode_total}
use fl_codepush_box.Bytecode.Envelope.{
  validate, validate_envelope, validate_each, check_functions, check_source_map, check_debug_locals,
}
use fl_codepush_box.Bytecode.Writer.{
  to_binary_vec, write_uint, write_string, write_constant, kind_byte, write_convention, write_many,
  write_function,
}
use fl_codepush_box.Bytecode.Load.{from_binary, from_slice}
use fl_codepush_box.Bytecode.RoundTrip.{IsFunction, from_slice-to_binary_vec}
use fl_codepush_box.Bytecode.Targets.{
  insert_str, add_target, visit, function_targets, collect, targets_for, aot_referenced_targets,
  absent, missing_aot_targets,
}
use fl_codepush_box.Bytecode.Targets.Gate.{missing_aot_targets-nil}
use fl_codepush_box.Bytecode.Pool.{
  constant_eq, position, to_u16, push_at, push, Holds, push_lem, push_keeps,
}

from_byte-to_byte_example : from_byte (to_byte OpCode.jump) ≡ some OpCode.jump
from_byte-to_byte_example = from_byte-to_byte OpCode.jump

reads_yield : from_byte 0x64 ≡ some OpCode.yield
unfolding from_byte
reads_yield = refl

to_byte-from_byte_example : to_byte OpCode.yield ≡ 0x64
to_byte-from_byte_example = to_byte-from_byte 0x64 {op = OpCode.yield} reads_yield

function_valid : validate_bytecode example_function ≡ ok tt
unfolding validate_bytecode scan scan_branches check_operand string_operand check_branch is_empty
    from_byte operand_len
function_valid = refl

fetches_call : fetch example_function 0 ≡ some OpCode.call_static
unfolding from_byte
fetches_call = refl

fetches_return : fetch example_function 4 ≡ some OpCode.return
unfolding from_byte
fetches_return = refl

at_return : Reaches example_function 4
unfolding operand_len
at_return = falls OpCode.call_static (entry refl) fetches_call refl

validate_bytecode-IsInstruction_example :
    (◌≡◌ {A = ℕ} 4 5)
    ⊎ ((i : IsInstruction example_function 4) × ValidBranch example_function 4 i.opcode)
validate_bytecode-IsInstruction_example =
    validate_bytecode-IsInstruction example_function {p = 4} function_valid at_return

module_valid : validate example_module ≡ ok tt
unfolding validate validate_envelope validate_each check_functions check_source_map
    check_debug_locals is_blank
module_valid = rw function_valid refl

module_gated : missing_aot_targets example_module (codes "g" ∷ []) ≡ []
unfolding missing_aot_targets absent aot_referenced_targets targets_for collect function_targets
    visit add_target insert_str from_byte operand_len to_byte
module_gated = refl

missing_aot_targets-nil_example :
    (t : Str) × (string_constant example_function (read_u16 example_function.code 1) ≡ some t)
    × (contains_str (codes "g" ∷ []) t ≡ true)
missing_aot_targets-nil_example =
    missing_aot_targets-nil example_module (codes "g" ∷ []) 0 {f = example_function} {p = 0}
      {op = OpCode.call_static} module_valid module_gated refl (entry refl) fetches_call refl

-- A function with an argument and no local for it.
abbrev bad_function : BytecodeFunction
bad_function = record example_function { param_count = 1 }

function_refused : validate_bytecode bad_function ≡ err (locals_below_params (codes "f"))
unfolding validate_bytecode
function_refused = refl

validate_bytecode_total_example : is_internal (locals_below_params (codes "f")) ≡ false
validate_bytecode_total_example =
    validate_bytecode_total bad_function (locals_below_params (codes "f")) function_refused

abbrev pool : List Constant
pool = Constant.int 5 ∷ Constant.bool true ∷ []

pushed : (push pool (Constant.bool true)).1 ≡ ok 1
unfolding push push_at position constant_eq to_u16
pushed = refl

push_lem_example :
    (1 < 2 ^ 16) × Holds (get_elem? (push pool (Constant.bool true)).0 1) (Constant.bool true)
push_lem_example = push_lem pool (Constant.bool true) {i = 1} pushed

push_keeps_example : get_elem? (push pool Constant.null).0 0 ≡ some (Constant.int 5)
push_keeps_example = push_keeps pool Constant.null 0 (Constant.int 5) refl

utf8_f : is_utf8 (codes "f") ≡ true
unfolding is_utf8
utf8_f = refl

utf8_g : is_utf8 (codes "g") ≡ true
unfolding is_utf8
utf8_g = refl

example_IsFunction : All IsFunction example_module.functions
example_IsFunction = (
  record {
    name_utf8 = utf8_f;
    constants_typed = (utf8_g, tt);
    source_map_typed = tt;
    debug_locals_typed = tt;
  },
  tt,
)

abbrev example_bytes : Bytes
example_bytes =
    70 ∷ 67 ∷ 66 ∷ 77 ∷ 0 ∷ 0 ∷ 0 ∷ 3 ∷ 0 ∷ 1 ∷ 0 ∷ 1 ∷ 102 ∷ 0 ∷ 0 ∷ 0 ∷ 0 ∷ 0 ∷ 1 ∷ 4 ∷ 0 ∷ 1
    ∷ 103 ∷ 0 ∷ 0 ∷ 0 ∷ 5 ∷ 80 ∷ 0 ∷ 0 ∷ 0 ∷ 255 ∷ 0 ∷ 0 ∷ 0 ∷ 0 ∷ []

module_written : to_binary_vec example_module ≡ ok example_bytes
unfolding to_binary_vec write_uint write_string write_constant kind_byte write_convention write_many
    write_function
module_written = rw module_valid refl

from_slice-to_binary_vec_example :
    (from_binary example_bytes
      ≡ ok (record { version = format_version; functions = example_function ∷ [] }))
    × (from_slice (λ _. none) example_bytes
        ≡ ok (record { version = format_version; functions = example_function ∷ [] }))
from_slice-to_binary_vec_example =
    from_slice-to_binary_vec (λ _. none) example_module {w = example_bytes} example_IsFunction
      module_written
