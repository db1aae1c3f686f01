-- ===== src/Vm.antt =====
-- crates/byteflow/src/vm: the register machine that runs a chunk.
pub mod Fault
pub mod Native
pub mod Gate
pub mod Machine
pub mod Monad
pub mod Registers
pub mod Arith
pub mod Step
pub mod Resume
pub mod Safety
