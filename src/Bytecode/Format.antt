-- ===== src/Bytecode/Format.antt =====
-- bytecode/format.rs: the on-disk module format BFV0.
pub mod Write
pub mod Reader
pub mod Decode
pub mod WellFormed
pub mod Values
pub mod RoundTrip
pub mod Returns
pub mod Accepted
