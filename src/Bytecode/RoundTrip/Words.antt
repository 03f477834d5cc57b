-- ===== src/Bytecode/RoundTrip/Words.antt =====
-- crates/fcb_core/src/bytecode.rs: big-endian numbers are read back.
use fl_codepush_box.Prelude.{ℕ, ◌^◌, ◌<◌, ◌≡◌, arith}
use fl_codepush_box.Bytecode.Reader.{from_be}
use fl_codepush_box.Bytecode.Writer.{to_be}

pub from_be-to_be₁ : (v : ℕ) → v < 2 ^ 8 → from_be 0 (to_be 1 v) ≡ v
from_be-to_be₁ v h = omega arith

pub from_be-to_be₂ : (v : ℕ) → v < 2 ^ 16 → from_be 0 (to_be 2 v) ≡ v
from_be-to_be₂ v h = omega arith

pub from_be-to_be₄ : (v : ℕ) → v < 2 ^ 32 → from_be 0 (to_be 4 v) ≡ v
from_be-to_be₄ v h = omega arith

pub from_be-to_be₈ : (v : ℕ) → v < 2 ^ 64 → from_be 0 (to_be 8 v) ≡ v
from_be-to_be₈ v h = omega arith
