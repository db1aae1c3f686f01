-- ===== src/Bytecode/Format/WellFormed.antt =====
-- What a chunk must be for the decoder to accept it: the limits of format.rs and the ranges of
-- the integer types.
use bytecode_vm.Prelude.{ℕ, zero, suc, ◌+◌, ◌^◌, ◌≤◌, ◌<◌, ◌≡◌, true, List, length, All}
use bytecode_vm.Bytecode.Trust.{TrustLevel, trusted, untrusted}
use bytecode_vm.Bytecode.Value.{Value}
use bytecode_vm.Bytecode.Chunk.{Instruction, FunctionDef, Chunk}
use bytecode_vm.Bytecode.Utf8.{is_utf8}
use bytecode_vm.Bytecode.Format.Decode.{max_name, max_items, max_blob, max_value_depth}

abbrev pub IsTrusted : TrustLevel → Type 0
IsTrusted trusted = Unit
IsTrusted untrusted = ⊥

-- The value nests at most so many levels, its words fit, its buffers are within the limit, and
-- it holds authority only in a trusted module.
abbrev pub IsEncodable : TrustLevel → ℕ → Value → Type 0
IsEncodable trust zero v = ⊥
IsEncodable trust (suc levels) (Value.int i) = i < 2 ^ 64
IsEncodable trust (suc levels) (Value.float x) = x < 2 ^ 64
IsEncodable trust (suc levels) (Value.pid p) = IsTrusted trust × (p < 2 ^ 64)
IsEncodable trust (suc levels) (Value.message m payload) =
    IsTrusted trust
    × (m.sender < 2 ^ 64)
    × (m.reply_cap < 2 ^ 128)
    × (m.request_id < 2 ^ 64)
    × (m.tag < 2 ^ 16)
    × IsEncodable trust levels payload
IsEncodable trust (suc levels) (Value.cap c) = IsTrusted trust × (c < 2 ^ 128)
IsEncodable trust (suc levels) (Value.str s) = (length s ≤ max_blob) × (is_utf8 s ≡ true)
IsEncodable trust (suc levels) (Value.bytes b) = length b ≤ max_blob
IsEncodable trust (suc levels) _ = Unit

abbrev pub IsName : List ℕ → Type 0
IsName s = (length s ≤ max_name) × (is_utf8 s ≡ true)

abbrev pub IsEncodableFunction : FunctionDef → Type 0
IsEncodableFunction def = IsName def.name × (def.entry < 2 ^ 32)

abbrev pub IsEncodableInstruction : Instruction → Type 0
IsEncodableInstruction instr = instr.imm < 2 ^ 32

pub record IsEncodableChunk (trust : TrustLevel) (chunk : Chunk) : Type 0 where
  pub name_fits : IsName chunk.name
  pub constants_count : length chunk.constants ≤ max_items
  pub constants_fit : All (IsEncodable trust (max_value_depth + 1)) chunk.constants
  pub functions_count : length chunk.functions ≤ max_items
  pub functions_fit : All IsEncodableFunction chunk.functions
  pub code_count : length chunk.code ≤ max_items
  pub code_fits : All IsEncodableInstruction chunk.code
