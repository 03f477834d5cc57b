-- ===== src/Bytecode/RoundTrip/Items.antt =====
-- crates/fcb_core/src/bytecode.rs: constants, conventions and the entries of a function's tables
-- are read back.
use fl_codepush_box.Prelude.{
  ◌^◌, ◌<◌, ◌≡◌, sym, subst, subst₂, Bool, true, false, [], ◌∷◌, arith, Bytes, Str, bytes_eq,
  bytes_eq-eq, is_utf8, ok, >>=-eq-ok, Bool-cases, inl, inr,
}
use fl_codepush_box.Bytecode.Format.{
  AsyncKind, sync, async_future, async_star, sync_star, Constant, SourceMapEntry, DebugLocalEntry,
  tagged, unboxed_int64, format_version,
}
use fl_codepush_box.Bytecode.Reader.{
  read_uint, read_string, bool_of, read_bool, constant_of, read_constant, convention_of,
  read_convention, kind_of, read_kind, read_source_map_entry, read_debug_local,
}
use fl_codepush_box.Bytecode.Writer.{
  to_be, write_string, bool_byte, write_constant, kind_byte, write_convention,
  write_source_map_entry, write_debug_local,
}
use fl_codepush_box.Bytecode.RoundTrip.Words.{from_be-to_be₂, from_be-to_be₄, from_be-to_be₈}
use fl_codepush_box.Bytecode.RoundTrip.Rules.{
  Reads, Reads-pure, Reads-tag, Reads-bind, Reads-map, read_uint-to_be, read_string-write_string,
}

-- The ranges of the source's types: `i64` and `f64` by their bits, `String` by its encoding.
abbrev pub IsConstant : Constant → Type 0
IsConstant (Constant.int v) = v < 2 ^ 64
IsConstant (Constant.double v) = v < 2 ^ 64
IsConstant (Constant.string s) = is_utf8 s ≡ true
IsConstant _ = Unit {0}

read_bool-bool_byte : (v : Bool) → Reads read_bool v (bool_byte v ∷ [])
unfolding read_bool bool_byte bool_of
read_bool-bool_byte false = Reads-tag 0 bool_of (Reads-pure false)
read_bool-bool_byte true = Reads-tag 1 bool_of (Reads-pure true)

pub read_constant-write_constant :
    (c : Constant) (w : Bytes) → IsConstant c → write_constant c ≡ ok w → Reads read_constant c w
unfolding read_constant constant_of write_constant
read_constant-write_constant Constant.null w h e =
    subst (Reads read_constant Constant.null) (ground arith)
      (Reads-tag 0 constant_of (Reads-pure Constant.null))
read_constant-write_constant (Constant.int v) w h e =
    subst (Reads read_constant (Constant.int v)) (ground arith) (
      Reads-tag 1 constant_of (
        Reads-map (read_uint 8) Constant.int v (to_be 8 v)
          (read_uint-to_be 8 v (from_be-to_be₈ v h))))
read_constant-write_constant (Constant.double v) w h e =
    subst (Reads read_constant (Constant.double v)) (ground arith) (
      Reads-tag 2 constant_of (
        Reads-map (read_uint 8) Constant.double v (to_be 8 v)
          (read_uint-to_be 8 v (from_be-to_be₈ v h))))
read_constant-write_constant (Constant.bool v) w h e =
    subst (Reads read_constant (Constant.bool v)) (ground arith) (
      Reads-tag 3 constant_of
        (Reads-map read_bool Constant.bool v (bool_byte v ∷ []) (read_bool-bool_byte v)))
read_constant-write_constant (Constant.string s) w h e =
    let (text, written, e') = >>=-eq-ok (write_string s "string constant") _ e in
    subst (Reads read_constant (Constant.string s)) (ground arith) (
      Reads-tag 4 constant_of (
        Reads-map read_string Constant.string s text
          (read_string-write_string s "string constant" text h written)))

pub read_convention-write_convention :
    (convention name : Str) (w : Bytes)
    → write_convention convention name ≡ ok w
    → Reads read_convention convention w
unfolding read_convention convention_of write_convention
read_convention-write_convention convention name w e =
    elim (Bool-cases (bytes_eq convention tagged)) [
      | inl same ↦
          subst₂ (Reads read_convention) (sym (bytes_eq-eq convention tagged same)) (ground arith)
            (Reads-tag 0 convention_of (Reads-pure tagged))
      | inr other ↦ elim (Bool-cases (bytes_eq convention unboxed_int64)) [
        | inl same ↦
            subst₂ (Reads read_convention) (sym (bytes_eq-eq convention unboxed_int64 same))
              (ground arith) (Reads-tag 1 convention_of (Reads-pure unboxed_int64))
        | inr neither ↦ absurd (ground arith)
      ]
    ]

pub read_kind-kind_byte : (k : AsyncKind) → Reads (read_kind format_version) k (kind_byte k ∷ [])
unfolding read_kind kind_of kind_byte
read_kind-kind_byte sync = Reads-tag 0 kind_of (Reads-pure sync)
read_kind-kind_byte async_future = Reads-tag 1 kind_of (Reads-pure async_future)
read_kind-kind_byte async_star = Reads-tag 2 kind_of (Reads-pure async_star)
read_kind-kind_byte sync_star = Reads-tag 3 kind_of (Reads-pure sync_star)

abbrev pub IsSourceMapEntry : SourceMapEntry → Type 0
IsSourceMapEntry x = (x.bytecode_offset < 2 ^ 32) × (is_utf8 x.source_location ≡ true)

pub read_source_map_entry-write_source_map_entry :
    (x : SourceMapEntry) (w : Bytes)
    → IsSourceMapEntry x
    → write_source_map_entry x ≡ ok w
    → Reads read_source_map_entry x w
unfolding read_source_map_entry write_source_map_entry
read_source_map_entry-write_source_map_entry x w h e =
    let (text, written, e') = >>=-eq-ok (write_string x.source_location "source location") _ e in
    subst (Reads read_source_map_entry x) (ground arith) (
      Reads-bind (read_uint 4) _ x.bytecode_offset x (to_be 4 x.bytecode_offset) text
        (read_uint-to_be 4 x.bytecode_offset (from_be-to_be₄ x.bytecode_offset h.0))
        (Reads-map read_string _ x.source_location text
          (read_string-write_string x.source_location "source location" text h.1 written)))

abbrev pub IsDebugLocal : DebugLocalEntry → Type 0
IsDebugLocal x = (x.slot < 2 ^ 16) × (is_utf8 x.name ≡ true)

pub read_debug_local-write_debug_local :
    (x : DebugLocalEntry) (w : Bytes)
    → IsDebugLocal x
    → write_debug_local x ≡ ok w
    → Reads read_debug_local x w
unfolding read_debug_local write_debug_local
read_debug_local-write_debug_local x w h e =
    let (text, written, e') = >>=-eq-ok (write_string x.name "debug local name") _ e in
    subst (Reads read_debug_local x) (ground arith) (
      Reads-bind (read_uint 2) _ x.slot x (to_be 2 x.slot) text
        (read_uint-to_be 2 x.slot (from_be-to_be₂ x.slot h.0))
        (Reads-map read_string _ x.name text
          (read_string-write_string x.name "debug local name" text h.1 written)))
