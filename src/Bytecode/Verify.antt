-- ===== src/Bytecode/Verify.antt =====
-- bytecode/verify.rs: the structural checks that a chunk must pass before it runs.
pub mod Loop
pub mod Sound
use bytecode_vm.Prelude.{
  ℕ, suc, ◌+◌, Bool, List, [], ◌∷◌, length, is_empty, leb, ltb, not, ◌||◌, if◌then◌else◌,
}
use bytecode_vm.Prelude.Int.{ℤ, pos, negsuc, ◌+ℤ◌, i32_val}
use bytecode_vm.Prelude.Result.{Result, ok, err, ◌>>◌, ensure}
use bytecode_vm.Bytecode.Trust.{TrustLevel, trusted, untrusted, ConstantKind}
use bytecode_vm.Bytecode.Opcode.{Opcode}
use bytecode_vm.Bytecode.Value.{Value}
use bytecode_vm.Bytecode.Chunk.{Instruction, FunctionDef, Chunk}
use bytecode_vm.Bytecode.Verify.Loop.{for_each}

pub data VerifyError : Type 0 where
  unknown_opcode : ℕ → ℕ → VerifyError
  const_out_of_range : ℕ → ℕ → ℕ → VerifyError
  function_out_of_range : ℕ → ℕ → ℕ → VerifyError
  jump_out_of_range : ℕ → ℤ → ℕ → VerifyError
  empty_function_table : VerifyError
  entry_out_of_range : ℕ → ℕ → ℕ → VerifyError
  arity_exceeds_registers : ℕ → ℕ → ℕ → VerifyError
  forbidden_constant : ℕ → ConstantKind → VerifyError

-- One round of the loop over the constants.
unfoldable pub validate_constant : TrustLevel → ℕ → Value → Result VerifyError (Unit {0})
validate_constant trusted index value = ok tt
validate_constant untrusted index (Value.cap _) =
    err (forbidden_constant index ConstantKind.capability)
validate_constant untrusted index (Value.pid _) =
    err (forbidden_constant index ConstantKind.process_id)
validate_constant untrusted index (Value.message _ _) =
    err (forbidden_constant index ConstantKind.message)
validate_constant untrusted index _ = ok tt

-- One round of the loop over the functions, for code of length `len`.
unfoldable pub validate_function : ℕ → ℕ → FunctionDef → Result VerifyError (Unit {0})
validate_function len function def = do
  ensure (ltb def.entry len) (entry_out_of_range function def.entry len)
  ensure (leb def.arity def.num_registers)
      (arity_exceeds_registers function def.arity def.num_registers)

-- `at as i64 + 1 + instr.imm as i64`
abbrev pub jump_target : ℕ → ℕ → ℤ
jump_target at imm = pos (at + 1) +ℤ i32_val imm

-- `!(target < 0 || target as usize > len)`
unfoldable pub target_ok : ℤ → ℕ → Bool
target_ok (pos n) len = leb n len
target_ok (negsuc _) len = Bool.false

-- One round of the loop over the code. `imm as u32` is the pattern.
unfoldable pub validate_op : Opcode → Chunk → ℕ → ℕ → Result VerifyError (Unit {0})
validate_op Opcode.load_const chunk at imm =
    ensure (ltb imm (length chunk.constants)) (const_out_of_range at imm (length chunk.constants))
validate_op Opcode.spawn chunk at imm =
    ensure (ltb imm (length chunk.functions))
      (function_out_of_range at imm (length chunk.functions))
validate_op Opcode.call chunk at imm =
    ensure (ltb imm (length chunk.functions))
      (function_out_of_range at imm (length chunk.functions))
validate_op Opcode.jump chunk at imm =
    let target = jump_target at imm in
    ensure (target_ok target (length chunk.code)) (jump_out_of_range at target (length chunk.code))
validate_op Opcode.branch chunk at imm =
    let target = jump_target at imm in
    ensure (target_ok target (length chunk.code)) (jump_out_of_range at target (length chunk.code))
validate_op _ chunk at imm = ok tt

unfoldable pub validate_instruction : Chunk → ℕ → Instruction → Result VerifyError (Unit {0})
validate_instruction chunk at instr = validate_op instr.op chunk at instr.imm

unfoldable pub verify_with : Chunk → TrustLevel → Result VerifyError (Unit {0})
verify_with chunk trust = do
  ensure (not (is_empty chunk.functions)) empty_function_table
  for_each (validate_constant trust) 0 chunk.constants
  for_each (validate_function (length chunk.code)) 0 chunk.functions
  for_each (validate_instruction chunk) 0 chunk.code

-- The default configuration does not trust the chunk.
unfoldable pub verify : Chunk → Result VerifyError (Unit {0})
unfolding verify_with
verify chunk = verify_with chunk untrusted
