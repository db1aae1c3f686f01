-- ===== src/Bytecode/Format/Write.antt =====
-- format.rs, the encoder. Each function returns the bytes that the source appends to `out`.
-- `(len as u32).to_le_bytes()` is the four low bytes of the length.
use bytecode_vm.Prelude.{ℕ, List, [], ◌∷◌, ◌++◌, length, if◌then◌else◌}
use bytecode_vm.Prelude.Bytes.{to_le_bytes}
use bytecode_vm.Bytecode.Opcode.{as_u8}
use bytecode_vm.Bytecode.Value.{Value}
use bytecode_vm.Bytecode.Chunk.{Instruction, FunctionDef, Chunk, magic, abi_version}

unfoldable pub write_string : List ℕ → List ℕ
write_string s = to_le_bytes 4 (length s) ++ s

unfoldable pub write_blob : List ℕ → List ℕ
write_blob b = to_le_bytes 4 (length b) ++ b

unfoldable pub write_value : Value → List ℕ
write_value Value.unit = 0 ∷ []
write_value (Value.bool b) = 1 ∷ (if b then 1 else 0) ∷ []
write_value (Value.int i) = 2 ∷ to_le_bytes 8 i
write_value (Value.float x) = 3 ∷ to_le_bytes 8 x
write_value (Value.pid p) = 4 ∷ to_le_bytes 8 p
write_value (Value.message m payload) =
    5
    ∷ (to_le_bytes 8 m.sender
        ++ (to_le_bytes 16 m.reply_cap
            ++ (to_le_bytes 8 m.request_id ++ (to_le_bytes 2 m.tag ++ write_value payload))))
write_value (Value.cap c) = 6 ∷ to_le_bytes 16 c
write_value (Value.str s) = 7 ∷ write_blob s
write_value (Value.bytes b) = 8 ∷ write_blob b

unfoldable pub write_function : FunctionDef → List ℕ
write_function def =
    write_string def.name ++ (to_le_bytes 4 def.entry ++ def.arity ∷ def.num_registers ∷ [])

unfoldable pub write_instruction : Instruction → List ℕ
write_instruction instr = as_u8 instr.op ∷ instr.a ∷ instr.b ∷ instr.c ∷ to_le_bytes 4 instr.imm

-- a `for` loop that appends each item's bytes
unfoldable pub write_all {ℓ} : {A : Type ℓ} → (A → List ℕ) → List A → List ℕ
write_all write [] = []
write_all write (x ∷ xs) = write x ++ write_all write xs

-- a count, and the items
unfoldable pub write_items {ℓ} : {A : Type ℓ} → (A → List ℕ) → List A → List ℕ
write_items write xs = to_le_bytes 4 (length xs) ++ write_all write xs

unfoldable pub encode : Chunk → List ℕ
encode chunk =
    magic
    ++ (to_le_bytes 4 abi_version
        ++ (write_string chunk.name
            ++ (write_items write_value chunk.constants
                ++ (write_items write_function chunk.functions
                    ++ write_items write_instruction chunk.code))))
