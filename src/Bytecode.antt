-- ===== src/Bytecode.antt =====
-- crates/fcb_core/src/bytecode.rs: the bytecode module format, its verifier and its binary codec.
pub mod OpCode
pub mod Format
pub mod Names
pub mod Verify
pub mod Envelope
pub mod Reader
pub mod Writer
pub mod Load
pub mod RoundTrip
pub mod Targets
pub mod Pool
mod Examples
