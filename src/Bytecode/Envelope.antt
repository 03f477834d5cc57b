-- ===== src/Bytecode/Envelope.antt =====
-- crates/fcb_core/src/bytecode.rs: `validate_envelope` and `validate`.
use fl_codepush_box.Prelude.{
  ◌+◌, Bool, true, false, not, ◌&&◌, ◌||◌, List, [], ◌∷◌, Str, is_blank, bytes_eq, contains_str,
  length, ltb, leb, ok, ◌>>◌, refuse_if,
}
use fl_codepush_box.Bytecode.Format.{
  SourceMapEntry, DebugLocalEntry, BytecodeFunction, BytecodeModule, Checked, format_version,
  min_supported_module_version, tagged, unboxed_int64, locals_below_params, empty_bytecode,
  unexpected_version, no_functions, empty_function_name, unsupported_return_convention,
  duplicate_function, source_map_offset, source_map_location, debug_local_slot, debug_local_name,
}
use fl_codepush_box.Bytecode.Verify.{validate_bytecode}

abbrev pub is_nil {ℓ} : {A : Type ℓ} → List A → Bool
is_nil [] = true
is_nil (_ ∷ _) = false

unfoldable pub check_source_map : BytecodeFunction → List SourceMapEntry → Checked (Unit {0})
check_source_map f [] = ok tt
check_source_map f (entry ∷ rest) = do
  refuse_if (leb (length f.code) entry.bytecode_offset)
      (source_map_offset f.name entry.bytecode_offset)
  refuse_if (is_blank entry.source_location) (source_map_location f.name)
  check_source_map f rest

unfoldable pub check_debug_locals : BytecodeFunction → List DebugLocalEntry → Checked (Unit {0})
check_debug_locals f [] = ok tt
check_debug_locals f (entry ∷ rest) = do
  refuse_if (leb (f.param_count + f.local_count) entry.slot) (debug_local_slot f.name entry.slot)
  refuse_if (is_blank entry.name) (debug_local_name f.name)
  check_debug_locals f rest

-- The loop over the functions; `names` are those of the functions before.
unfoldable pub check_functions : List Str → List BytecodeFunction → Checked (Unit {0})
check_functions names [] = ok tt
check_functions names (f ∷ fs) = do
  refuse_if (is_blank f.name) empty_function_name
  refuse_if
      (not (bytes_eq f.return_convention tagged)
        && not (bytes_eq f.return_convention unboxed_int64))
      (unsupported_return_convention f.return_convention f.name)
  refuse_if (contains_str names f.name) (duplicate_function f.name)
  refuse_if (ltb f.local_count f.param_count) (locals_below_params f.name)
  refuse_if (is_nil f.code) (empty_bytecode f.name)
  check_source_map f f.source_map
  check_debug_locals f f.debug_locals
  check_functions (f.name ∷ names) fs

unfoldable pub validate_envelope : BytecodeModule → Checked (Unit {0})
unfolding check_source_map check_debug_locals check_functions
validate_envelope m = do
  refuse_if (ltb m.version min_supported_module_version || ltb format_version m.version)
      (unexpected_version m.version)
  refuse_if (is_nil m.functions) no_functions
  check_functions [] m.functions

unfoldable pub validate_each : List BytecodeFunction → Checked (Unit {0})
validate_each [] = ok tt
validate_each (f ∷ fs) = do validate_bytecode f; validate_each fs

unfoldable pub validate : BytecodeModule → Checked (Unit {0})
unfolding validate_each
validate m = do validate_envelope m; validate_each m.functions
