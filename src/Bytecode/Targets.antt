-- ===== src/Bytecode/Targets.antt =====
-- crates/fcb_core/src/bytecode.rs: the functions of the AOT snapshot that a module calls by name.
pub mod Gate
use fl_codepush_box.Prelude.{
  ℕ, zero, suc, ◌+◌, Bool, true, false, not, ◌&&◌, ◌||◌, Option, none, some, List, [], ◌∷◌,
  if◌then◌else◌, ◌==◌, ltb, leb, Str, contains_str, bytes_eq, length, get_elem?,
}
use fl_codepush_box.Bytecode.OpCode
use fl_codepush_box.Bytecode.OpCode.{OpCode, to_byte, from_byte, operand_len}
use fl_codepush_box.Bytecode.Format.{BytecodeFunction, BytecodeModule, string_constant}
use fl_codepush_box.Bytecode.Verify.{read_u16}

-- The order of `String`, by bytes.
abbrev pub str_lt : Str → Str → Bool
str_lt [] [] = false
str_lt [] (b ∷ y) = true
str_lt (a ∷ x) [] = false
str_lt (a ∷ x) (b ∷ y) = ltb a b || a == b && str_lt x y

-- `BTreeSet::insert`, on the ascending list of the elements.
unfoldable pub insert_str : Str → List Str → List Str
insert_str k [] = k ∷ []
insert_str k (j ∷ ks) =
    let later = insert_str k ks in
    if bytes_eq j k then j ∷ ks else if str_lt k j then k ∷ j ∷ ks else j ∷ later

abbrev pub contains_op : List OpCode → OpCode → Bool
contains_op [] op = false
contains_op (o ∷ os) op = to_byte o == to_byte op || contains_op os op

unfoldable pub add_target : Option Str → List Str → List Str
add_target none targets = targets
add_target (some t) targets = insert_str t targets

-- What one instruction adds.
unfoldable pub visit : List OpCode → BytecodeFunction → ℕ → OpCode → List Str → List Str
unfolding add_target
visit ops f pos op targets =
    if contains_op ops op && leb (pos + 1 + 2) (length f.code)
    then add_target (string_constant f (read_u16 f.code (pos + 1))) targets
    else targets

-- The `while` loop over one function, on fuel; an unknown opcode breaks it.
unfoldable pub function_targets : ℕ → List OpCode → BytecodeFunction → ℕ → List Str → List Str
function_targets zero ops f pos targets = targets
function_targets (suc fuel) ops f pos targets = elim (get_elem? f.code pos) [
  | none ↦ targets
  | some b ↦ elim (from_byte b) [
    | none ↦ targets
    | some op ↦ function_targets fuel ops f (pos + 1 + operand_len op) (visit ops f pos op targets)
  ]
]

unfoldable pub collect : List OpCode → List BytecodeFunction → List Str → List Str
collect ops [] targets = targets
collect ops (f ∷ fs) targets =
    collect ops fs (function_targets (suc (length f.code)) ops f 0 targets)

unfoldable pub targets_for : List OpCode → BytecodeModule → List Str
targets_for ops m = collect ops m.functions []

pub call_original_targets : BytecodeModule → List Str
call_original_targets = targets_for (OpCode.call_original ∷ [])

abbrev pub aot_ops : List OpCode
aot_ops = OpCode.call_static ∷ OpCode.call_original ∷ []

unfoldable pub aot_referenced_targets : BytecodeModule → List Str
aot_referenced_targets = targets_for aot_ops

unfoldable pub absent : List Str → List Str → List Str
absent present [] = []
absent present (t ∷ ts) =
    let rest = absent present ts in if contains_str present t then rest else t ∷ rest

-- `aot_present` is a set; only membership is asked of it.
unfoldable pub missing_aot_targets : BytecodeModule → List Str → List Str
unfolding absent
missing_aot_targets m present = absent present (aot_referenced_targets m)
