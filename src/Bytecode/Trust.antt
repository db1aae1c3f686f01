-- ===== src/Bytecode/Trust.antt =====
-- bytecode/verify.rs: trust levels, and the constants that an untrusted module must not embed.
pub data TrustLevel : Type 0 where
  trusted untrusted : TrustLevel

pub data ConstantKind : Type 0 where
  capability process_id message : ConstantKind
