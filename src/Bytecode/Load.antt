-- ===== src/Bytecode/Load.antt =====
-- crates/fcb_core/src/bytecode.rs: `from_slice` and its kin. The JSON form is parsed by serde_json,
-- which is the parameter `json`: what it reads from the bytes, if they are a module.
use fl_codepush_box.Prelude.{Option, Bytes, starts_with, if◌then◌else◌, ok, ◌>>=◌, ◌>>◌, ok_or}
use fl_codepush_box.Bytecode.Format.{BytecodeModule, Checked, binary_magic, bad_json}
use fl_codepush_box.Bytecode.Envelope.{validate, validate_envelope}
use fl_codepush_box.Bytecode.Reader.{read_binary}

unfoldable pub from_binary : Bytes → Checked BytecodeModule
from_binary input = do m ← read_binary input; validate m; ok m

unfoldable pub from_binary_envelope : Bytes → Checked BytecodeModule
from_binary_envelope input = do m ← read_binary input; validate_envelope m; ok m

module _ (json : Bytes → Option BytecodeModule) where
  unfoldable pub from_slice : Bytes → Checked BytecodeModule
  from_slice input =
      if starts_with binary_magic input
      then from_binary input
      else do m ← ok_or (json input) bad_json; validate m; ok m

  unfoldable pub from_slice_envelope : Bytes → Checked BytecodeModule
  from_slice_envelope input =
      if starts_with binary_magic input
      then from_binary_envelope input
      else do m ← ok_or (json input) bad_json; validate_envelope m; ok m
