-- ===== src/Bytecode/Chunk.antt =====
-- bytecode/instruction.rs and bytecode/chunk.rs: instruction words and compiled units.
--
-- `imm` is the bit pattern of an `i32`, a number below 2 ^ 32. A name is its UTF-8 bytes.
use bytecode_vm.Prelude.{ℕ, Option, List, [], ◌∷◌, get_elem?}
use bytecode_vm.Bytecode.Opcode.{Opcode}
use bytecode_vm.Bytecode.Value.{Value}

pub record Instruction : Type 0 where
  pub op : Opcode
  pub a : ℕ
  pub b : ℕ
  pub c : ℕ
  pub imm : ℕ

pub record FunctionDef : Type 0 where
  pub name : List ℕ
  pub entry : ℕ
  pub arity : ℕ
  pub num_registers : ℕ

pub record Chunk : Type 0 where
  pub name : List ℕ
  pub constants : List Value
  pub code : List Instruction
  pub functions : List FunctionDef

-- "BFV0"
abbrev pub magic : List ℕ
magic = b'B' ∷ b'F' ∷ b'V' ∷ b'0' ∷ []

abbrev pub abi_version : ℕ
abi_version = 5

abbrev pub function : Chunk → ℕ → Option FunctionDef
function chunk index = get_elem? chunk.functions index

abbrev pub constant : Chunk → ℕ → Option Value
constant chunk index = get_elem? chunk.constants index

abbrev pub nullary : Opcode → Instruction
nullary op = record { op = op; a = 0; b = 0; c = 0; imm = 0 }

abbrev pub abc : Opcode → ℕ → ℕ → ℕ → Instruction
abc op a b c = record { op = op; a = a; b = b; c = c; imm = 0 }

abbrev pub a_imm : Opcode → ℕ → ℕ → Instruction
a_imm op a imm = record { op = op; a = a; b = 0; c = 0; imm = imm }

abbrev pub only_imm : Opcode → ℕ → Instruction
only_imm op imm = record { op = op; a = 0; b = 0; c = 0; imm = imm }
