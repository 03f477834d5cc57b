-- ===== src/Bytecode/Writer.antt =====
-- crates/fcb_core/src/bytecode.rs: `to_binary_vec` and its helpers. Each returns the bytes that the
-- source appends to `out`.
use fl_codepush_box.Prelude.{
  ℕ, zero, suc, ◌/◌, ◌%◌, ◌^◌, String, Bool, true, false, List, [], ◌∷◌, ◌++◌, if◌then◌else◌, ltb,
  Bytes, Str, bytes_eq, length, ok, err, ◌>>=◌, ◌>>◌,
}
use fl_codepush_box.Bytecode.Format.{
  AsyncKind, sync, async_future, async_star, sync_star, Constant, SourceMapEntry, DebugLocalEntry,
  BytecodeFunction, BytecodeModule, Checked, binary_magic, tagged, unboxed_int64, format_version,
  exceeds_range, unsupported_return_convention,
}
use fl_codepush_box.Bytecode.Envelope.{validate}

-- `to_be_bytes` of a number of the given width in bytes
abbrev pub to_be : ℕ → ℕ → Bytes
to_be zero v = []
to_be (suc n) v = v / 256 ^ n % 256 ∷ to_be n v

unfoldable pub write_uint : ℕ → ℕ → String → Checked Bytes
write_uint width value label =
    if ltb value (256 ^ width) then ok (to_be width value) else err (exceeds_range label)

unfoldable pub write_string : Str → String → Checked Bytes
write_string value label = do len ← write_uint 2 (length value) label; ok (len ++ value)

unfoldable pub bool_byte : Bool → ℕ
bool_byte false = 0
bool_byte true = 1

unfoldable pub write_constant : Constant → Checked Bytes
write_constant Constant.null = ok (0 ∷ [])
write_constant (Constant.int v) = ok (1 ∷ to_be 8 v)
write_constant (Constant.double v) = ok (2 ∷ to_be 8 v)
write_constant (Constant.bool v) = ok (3 ∷ bool_byte v ∷ [])
write_constant (Constant.string v) = do s ← write_string v "string constant"; ok (4 ∷ s)

unfoldable pub kind_byte : AsyncKind → ℕ
kind_byte sync = 0
kind_byte async_future = 1
kind_byte async_star = 2
kind_byte sync_star = 3

unfoldable pub write_convention : Str → Str → Checked Bytes
write_convention convention name =
    if bytes_eq convention tagged
    then ok (0 ∷ [])
    else if bytes_eq convention unboxed_int64
    then ok (1 ∷ [])
    else err (unsupported_return_convention convention name)

-- `for item in items { write(out, item)? }`
unfoldable pub write_many : {A : Type 0} → (A → Checked Bytes) → List A → Checked Bytes
write_many item [] = ok []
write_many item (a ∷ rest) = do w ← item a; ws ← write_many item rest; ok (w ++ ws)

unfoldable pub write_source_map_entry : SourceMapEntry → Checked Bytes
write_source_map_entry entry = do
  location ← write_string entry.source_location "source location"
  ok (to_be 4 entry.bytecode_offset ++ location)

unfoldable pub write_debug_local : DebugLocalEntry → Checked Bytes
write_debug_local entry = do
  name ← write_string entry.name "debug local name"
  ok (to_be 2 entry.slot ++ name)

unfoldable pub write_function : BytecodeFunction → Checked Bytes
write_function f = do
  name ← write_string f.name "function name"
  convention ← write_convention f.return_convention f.name
  constant_count ← write_uint 2 (length f.constants) "constant count"
  constants ← write_many write_constant f.constants
  code_len ← write_uint 4 (length f.code) "code length"
  source_map_count ← write_uint 2 (length f.source_map) "source map count"
  source_map ← write_many write_source_map_entry f.source_map
  debug_count ← write_uint 2 (length f.debug_locals) "debug locals count"
  debug_locals ← write_many write_debug_local f.debug_locals
  ok (
      name
      ++ (convention
          ++ ((kind_byte f.async_kind ∷ [])
              ++ ((f.param_count ∷ [])
                  ++ ((f.local_count ∷ [])
                      ++ (constant_count
                          ++ (constants
                              ++ (code_len
                                  ++ (f.code
                                      ++ (source_map_count
                                          ++ (source_map ++ (debug_count ++ debug_locals))))))))))))

unfoldable pub to_binary_vec : BytecodeModule → Checked Bytes
to_binary_vec m = do
  validate m
  count ← write_uint 2 (length m.functions) "function count"
  functions ← write_many write_function m.functions
  ok (binary_magic ++ (to_be 4 format_version ++ (count ++ functions)))
