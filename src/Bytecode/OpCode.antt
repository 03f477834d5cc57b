-- ===== src/Bytecode/OpCode.antt =====
-- crates/fcb_core/src/bytecode.rs: the opcodes, their bytes and the lengths of their operands.
use fl_codepush_box.Prelude.{ℕ, ◌≡◌, refl, Option, none, some, arith, ◌==◌, if◌then◌else◌}

pub data OpCode : Type 0 where
  load_const load_arg load_local store_local pop add : OpCode
  sub mul div greater equal jump : OpCode
  jump_if_false jump_if_true make_list make_map string_concat get_field : OpCode
  set_field is_type as_type call_static call_dynamic call_original : OpCode
  call_closure make_closure new_object throw try_begin await : OpCode
  async_return yield try_finally end_finally rethrow return : OpCode

-- The discriminants of the enum.
unfoldable pub to_byte : OpCode → ℕ
to_byte load_const = 0x01
to_byte load_arg = 0x02
to_byte load_local = 0x03
to_byte store_local = 0x04
to_byte pop = 0x05
to_byte add = 0x10
to_byte sub = 0x11
to_byte mul = 0x12
to_byte div = 0x13
to_byte greater = 0x20
to_byte equal = 0x21
to_byte jump = 0x30
to_byte jump_if_false = 0x31
to_byte jump_if_true = 0x32
to_byte make_list = 0x40
to_byte make_map = 0x41
to_byte string_concat = 0x42
to_byte get_field = 0x43
to_byte set_field = 0x44
to_byte is_type = 0x45
to_byte as_type = 0x46
to_byte call_static = 0x50
to_byte call_dynamic = 0x51
to_byte call_original = 0x52
to_byte call_closure = 0x53
to_byte make_closure = 0x54
to_byte new_object = 0x55
to_byte throw = 0x60
to_byte try_begin = 0x61
to_byte await = 0x62
to_byte async_return = 0x63
to_byte yield = 0x64
to_byte try_finally = 0x65
to_byte end_finally = 0x66
to_byte rethrow = 0x67
to_byte return = 0xff

unfoldable pub from_byte : ℕ → Option OpCode
from_byte b =
    if b == 0x01
    then some load_const
    else if b == 0x02
    then some load_arg
    else if b == 0x03
    then some load_local
    else if b == 0x04
    then some store_local
    else if b == 0x05
    then some pop
    else if b == 0x10
    then some add
    else if b == 0x11
    then some sub
    else if b == 0x12
    then some mul
    else if b == 0x13
    then some div
    else if b == 0x20
    then some greater
    else if b == 0x21
    then some equal
    else if b == 0x30
    then some jump
    else if b == 0x31
    then some jump_if_false
    else if b == 0x32
    then some jump_if_true
    else if b == 0x40
    then some make_list
    else if b == 0x41
    then some make_map
    else if b == 0x42
    then some string_concat
    else if b == 0x43
    then some get_field
    else if b == 0x44
    then some set_field
    else if b == 0x45
    then some is_type
    else if b == 0x46
    then some as_type
    else if b == 0x50
    then some call_static
    else if b == 0x51
    then some call_dynamic
    else if b == 0x52
    then some call_original
    else if b == 0x53
    then some call_closure
    else if b == 0x54
    then some make_closure
    else if b == 0x55
    then some new_object
    else if b == 0x60
    then some throw
    else if b == 0x61
    then some try_begin
    else if b == 0x62
    then some await
    else if b == 0x63
    then some async_return
    else if b == 0x64
    then some yield
    else if b == 0x65
    then some try_finally
    else if b == 0x66
    then some end_finally
    else if b == 0x67
    then some rethrow
    else if b == 0xff
    then some return
    else none

unfoldable pub operand_len : OpCode → ℕ
operand_len load_const = 2
operand_len load_arg = 1
operand_len load_local = 1
operand_len store_local = 1
operand_len pop = 0
operand_len add = 0
operand_len sub = 0
operand_len mul = 0
operand_len div = 0
operand_len greater = 0
operand_len equal = 0
operand_len jump = 2
operand_len jump_if_false = 2
operand_len jump_if_true = 2
operand_len make_list = 2
operand_len make_map = 2
operand_len string_concat = 2
operand_len get_field = 2
operand_len set_field = 2
operand_len is_type = 2
operand_len as_type = 2
operand_len call_static = 3
operand_len call_dynamic = 3
operand_len call_original = 3
operand_len call_closure = 3
operand_len make_closure = 2
operand_len new_object = 3
operand_len throw = 0
operand_len try_begin = 4
operand_len await = 0
operand_len async_return = 0
operand_len yield = 0
operand_len try_finally = 4
operand_len end_finally = 0
operand_len rethrow = 0
operand_len return = 0

-- Every opcode is read back from its byte.
pub from_byte-to_byte : (op : OpCode) → from_byte (to_byte op) ≡ some op
unfolding from_byte to_byte
from_byte-to_byte load_const = refl
from_byte-to_byte load_arg = refl
from_byte-to_byte load_local = refl
from_byte-to_byte store_local = refl
from_byte-to_byte pop = refl
from_byte-to_byte add = refl
from_byte-to_byte sub = refl
from_byte-to_byte mul = refl
from_byte-to_byte div = refl
from_byte-to_byte greater = refl
from_byte-to_byte equal = refl
from_byte-to_byte jump = refl
from_byte-to_byte jump_if_false = refl
from_byte-to_byte jump_if_true = refl
from_byte-to_byte make_list = refl
from_byte-to_byte make_map = refl
from_byte-to_byte string_concat = refl
from_byte-to_byte get_field = refl
from_byte-to_byte set_field = refl
from_byte-to_byte is_type = refl
from_byte-to_byte as_type = refl
from_byte-to_byte call_static = refl
from_byte-to_byte call_dynamic = refl
from_byte-to_byte call_original = refl
from_byte-to_byte call_closure = refl
from_byte-to_byte make_closure = refl
from_byte-to_byte new_object = refl
from_byte-to_byte throw = refl
from_byte-to_byte try_begin = refl
from_byte-to_byte await = refl
from_byte-to_byte async_return = refl
from_byte-to_byte yield = refl
from_byte-to_byte try_finally = refl
from_byte-to_byte end_finally = refl
from_byte-to_byte rethrow = refl
from_byte-to_byte return = refl

-- A byte that is read as an opcode is the byte of that opcode.
pub to_byte-from_byte : (b : ℕ) {op : OpCode} → from_byte b ≡ some op → to_byte op ≡ b
unfolding from_byte to_byte
to_byte-from_byte b e = ground arith
