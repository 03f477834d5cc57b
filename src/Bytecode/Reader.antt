-- ===== src/Bytecode/Reader.antt =====
-- crates/fcb_core/src/bytecode.rs: `BinaryReader` and `read_binary`. The reader's state is the bytes
-- behind its position. Its `checked_add` cannot overflow: both numbers are far below 2 ^ 63.
use fl_codepush_box.Prelude.{
  ℕ, zero, suc, ◌+◌, ◌*◌, Bool, true, false, List, [], ◌∷◌, if◌then◌else◌, ◌==◌, ltb, leb, Bytes,
  Str, bytes_eq, starts_with, is_utf8, length, take, drop, get_or, Option, none, some, Result, ok,
  err,
}
use fl_codepush_box.Prelude
use fl_codepush_box.Bytecode.Format.{
  AsyncKind, sync, async_future, async_star, sync_star, Constant, SourceMapEntry, DebugLocalEntry,
  BytecodeFunction, BytecodeModule, BytecodeError, Checked, binary_magic, tagged, unboxed_int64,
  bad_magic, truncated, trailing_data, invalid_utf8, bad_return_convention, bad_async_kind,
  bad_bool, bad_constant_tag,
}

abbrev pub Read : Type 0 → Type 0
Read A = Bytes → Checked (A × Bytes)

abbrev pub pure : {A : Type 0} → A → Read A
pure a bytes = ok (a, bytes)

abbrev pub fail : {A : Type 0} → BytecodeError → Read A
fail e bytes = err e

infixl 5 ◌>>=◌ ◌>>◌
unfoldable pub ◌>>=◌ : {A B : Type 0} → Read A → (A → Read B) → Read B
◌>>=◌ m k bytes = Prelude.◌>>=◌ (m bytes) (λ r. k r.0 r.1)

abbrev pub ◌>>◌ : {B : Type 0} → Read (Unit {0}) → Read B → Read B
m >> k = m >>= λ _. k

unfoldable pub bytes : ℕ → Read Bytes
bytes len rest = if ltb (length rest) len then err truncated else ok (take len rest, drop len rest)

-- `from_be_bytes`
abbrev pub from_be : ℕ → Bytes → ℕ
from_be acc [] = acc
from_be acc (b ∷ bs) = from_be (acc * 256 + b) bs

unfoldable pub expect_magic : Bytes → Read (Unit {0})
expect_magic magic = do
  actual ← bytes (length magic)
  if bytes_eq actual magic then pure tt else fail bad_magic

-- `u8`, `u16`, `u32`, and the 64 bits of `i64` and `f64`, by their number of bytes.
unfoldable pub read_uint : ℕ → Read ℕ
read_uint width = do bs ← bytes width; pure (from_be 0 bs)

unfoldable pub text_of : ℕ → Read Str
text_of len = do bs ← bytes len; if is_utf8 bs then pure bs else fail invalid_utf8

unfoldable pub read_string : Read Str
read_string = do len ← read_uint 2; text_of len

unfoldable pub bool_of : ℕ → Read Bool
bool_of b = if b == 0 then pure false else if b == 1 then pure true else fail (bad_bool b)

unfoldable pub read_bool : Read Bool
read_bool = do b ← read_uint 1; bool_of b

unfoldable pub constant_of : ℕ → Read Constant
constant_of tag =
    if tag == 0
    then pure Constant.null
    else if tag == 1
    then (do v ← read_uint 8; pure (Constant.int v))
    else if tag == 2
    then (do v ← read_uint 8; pure (Constant.double v))
    else if tag == 3
    then (do v ← read_bool; pure (Constant.bool v))
    else if tag == 4
    then (do v ← read_string; pure (Constant.string v))
    else fail (bad_constant_tag tag)

unfoldable pub read_constant : Read Constant
read_constant = do tag ← read_uint 1; constant_of tag

unfoldable pub convention_of : ℕ → Read Str
convention_of b =
    if b == 0
    then pure tagged
    else if b == 1
    then pure unboxed_int64
    else fail (bad_return_convention b)

unfoldable pub read_convention : Read Str
read_convention = do b ← read_uint 1; convention_of b

unfoldable pub kind_of : ℕ → Read AsyncKind
kind_of b =
    if b == 0
    then pure sync
    else if b == 1
    then pure async_future
    else if b == 2
    then pure async_star
    else if b == 3
    then pure sync_star
    else fail (bad_async_kind b)

-- Modules before version 3 do not record the kind.
unfoldable pub read_kind : ℕ → Read AsyncKind
read_kind version = if leb 3 version then (do b ← read_uint 1; kind_of b) else pure sync

-- `for _ in 0..count { items.push(read()?) }`
unfoldable pub read_many : {A : Type 0} → ℕ → Read A → Read (List A)
read_many zero item = pure []
read_many (suc count) item = do a ← item; rest ← read_many count item; pure (a ∷ rest)

unfoldable pub read_source_map_entry : Read SourceMapEntry
read_source_map_entry = do
  offset ← read_uint 4
  location ← read_string
  pure (record { bytecode_offset = offset; source_location = location })

unfoldable pub read_debug_local : Read DebugLocalEntry
read_debug_local = do
  slot ← read_uint 2
  name ← read_string
  pure (record { slot = slot; name = name })

-- Modules of version 1 have no debug locals.
unfoldable pub read_debug_locals : ℕ → Read (List DebugLocalEntry)
read_debug_locals version =
    if leb 2 version then (do count ← read_uint 2; read_many count read_debug_local) else pure []

unfoldable pub read_function : ℕ → Read BytecodeFunction
read_function version = do
  name ← read_string
  convention ← read_convention
  kind ← read_kind version
  params ← read_uint 1
  locals ← read_uint 1
  constant_count ← read_uint 2
  constants ← read_many constant_count read_constant
  code_len ← read_uint 4
  code ← bytes code_len
  source_map_count ← read_uint 2
  source_map ← read_many source_map_count read_source_map_entry
  debug_locals ← read_debug_locals version
  pure (record {
    name = name;
    return_convention = convention;
    async_kind = kind;
    param_count = params;
    local_count = locals;
    constants = constants;
    code = code;
    source_map = source_map;
    debug_locals = debug_locals;
  })

unfoldable pub finish : BytecodeModule → Read BytecodeModule
finish m [] = ok (m, [])
finish m (b ∷ rest) = err trailing_data

unfoldable pub read_module : Read BytecodeModule
read_module = do
  expect_magic binary_magic
  version ← read_uint 4
  count ← read_uint 2
  functions ← read_many count (read_function version)
  finish (record { version = version; functions = functions })

unfoldable pub read_binary : Bytes → Checked BytecodeModule
read_binary input = Prelude.◌>>=◌ (read_module input) (λ r. ok r.0)
