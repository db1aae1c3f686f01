-- ===== src/Bytecode.antt =====
-- crates/byteflow/src/bytecode: the data that programs are made of, the module format, the
-- verifier and capabilities.
pub mod Opcode
pub mod Value
pub mod Chunk
pub mod Trust
pub mod Utf8
pub mod Format
pub mod Verify
pub mod Builder
pub mod Program
pub mod Cap
