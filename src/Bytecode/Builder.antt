-- ===== src/Bytecode/Builder.antt =====
-- bytecode/builder.rs: the assembler behind the public program builder.
--
-- A label is its number, a name its bytes, an immediate the bit pattern of an `i32`. Lengths are
-- assumed to stay below 2 ^ 32 where the source casts them to `u32`.
pub mod Emit
pub mod Patch
pub mod Jumps
pub mod Pool
use bytecode_vm.Prelude.{
  ℕ, suc, ◌+◌, ◌-◌, ◌%◌, Bool, Option, none, some, List, [], ◌∷◌, ◌++◌, length, get_elem?, set,
  if◌then◌else◌,
}
use bytecode_vm.Prelude.Int.{ℤ, pos, negsuc, sub_ℕ, u32_mod}
use bytecode_vm.Prelude.Maps.{nat_key, bytes_key, get, insert}
use bytecode_vm.Bytecode.Value.{Value}
use bytecode_vm.Bytecode.Chunk.{Instruction, FunctionDef, Chunk}

pub record ChunkBuilder : Type 0 where
  pub name : List ℕ
  pub constants : List Value
  pub code : List Instruction
  pub functions : List FunctionDef
  pub next_label : ℕ
  pub label_targets : List (ℕ × ℕ)
  pub pending_jumps : List (ℕ × ℕ)
  pub fn_starts : List (List ℕ × ℕ)

unfoldable pub new : List ℕ → ChunkBuilder
new name = record {
  name = name;
  constants = [];
  code = [];
  functions = [];
  next_label = 0;
  label_targets = [];
  pending_jumps = [];
  fn_starts = [];
}

-- `iter().position(|c| c == &v)`, counted from an index.
unfoldable pub position_from : (Value → Value → Bool) → Value → ℕ → List Value → Option ℕ
position_from same v i [] = none
position_from same v i (c ∷ cs) =
    let rest = position_from same v (suc i) cs in if same c v then some i else rest

abbrev pub pooled : Value → ChunkBuilder → Option ℕ → ℕ × ChunkBuilder
pooled v b (some at) = (at, b)
pooled v b none = (length b.constants, record b { constants = b.constants ++ v ∷ [] })

-- `same` is the derived equality of values.
unfoldable pub const_ : (Value → Value → Bool) → Value → ChunkBuilder → ℕ × ChunkBuilder
unfolding position_from
const_ same v b = pooled v b (position_from same v 0 b.constants)

unfoldable pub new_label : ChunkBuilder → ℕ × ChunkBuilder
new_label b = (b.next_label, record b { next_label = b.next_label + 1 })

unfoldable pub bind_label : ℕ → ChunkBuilder → ChunkBuilder
bind_label label b = record b { label_targets = insert label (length b.code) b.label_targets }

unfoldable pub emit : Instruction → ChunkBuilder → ℕ × ChunkBuilder
emit instr b = (length b.code, record b { code = b.code ++ instr ∷ [] })

unfoldable pub begin_function : List ℕ → ℕ → ℕ → ChunkBuilder → ℕ × ChunkBuilder
begin_function name arity num_registers b =
    let idx = length b.functions in
    (
      idx,
      record b {
        functions =
            b.functions
            ++ record {
              name = name;
              entry = length b.code;
              arity = arity;
              num_registers = num_registers;
            }
              ∷ [];
        fn_starts = insert name idx b.fn_starts;
      },
    )

unfoldable pub function_index : List ℕ → ChunkBuilder → Option ℕ
function_index name b = get name b.fn_starts

abbrev pub with_registers : ℕ → ℕ → Option FunctionDef → ChunkBuilder → ChunkBuilder
with_registers index num_registers none b = b
with_registers index num_registers (some def) b = record b {
  functions = set b.functions index (record def { num_registers = num_registers });
}

unfoldable pub set_num_registers : ℕ → ℕ → ChunkBuilder → ChunkBuilder
set_num_registers index num_registers b =
    with_registers index num_registers (get_elem? b.functions index) b

-- `offset as i32`, as a bit pattern.
abbrev pub i32_bits : ℤ → ℕ
i32_bits (pos n) = n % u32_mod
i32_bits (negsuc n) = u32_mod - 1 - n % u32_mod

-- The immediate of a jump: from the instruction after it to the target, or to itself.
unfoldable pub jump_imm : ℕ → Option ℕ → ℕ
jump_imm idx (some target) = i32_bits (sub_ℕ target (idx + 1))
jump_imm idx none = 0

abbrev pub with_imm : Option Instruction → ℕ → ℕ → List Instruction → List Instruction
with_imm none idx imm code = code
with_imm (some instr) idx imm code = set code idx (record instr { imm = imm })

unfoldable pub patch : List (ℕ × ℕ) → ℕ × ℕ → List Instruction → List Instruction
unfolding jump_imm
patch targets (idx, label) code =
    with_imm (get_elem? code idx) idx (jump_imm idx (get label targets)) code

-- The loop over the pending jumps.
unfoldable pub patch_all : List (ℕ × ℕ) → List (ℕ × ℕ) → List Instruction → List Instruction
unfolding patch
patch_all targets [] code = code
patch_all targets (jump ∷ jumps) code = patch_all targets jumps (patch targets jump code)

unfoldable pub finish : ChunkBuilder → Chunk
unfolding patch_all
finish b = record {
  name = b.name;
  constants = b.constants;
  code = patch_all b.label_targets b.pending_jumps b.code;
  functions = b.functions;
}
