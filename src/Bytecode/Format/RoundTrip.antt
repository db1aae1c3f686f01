-- ===== src/Bytecode/Format/RoundTrip.antt =====
-- Decoding what the encoder wrote gives the module back.
use Prim.Native.String.{String}
use bytecode_vm.Prelude.{
  ℕ, suc, ◌+◌, ◌≤◌, ◌≡◌, refl, ◌∙◌, List, [], ◌∷◌, ◌++◌, append_assoc, length, arith, All,
}
use bytecode_vm.Prelude.Result.{ok}
use bytecode_vm.Prelude.Bytes.{to_le_bytes}
use bytecode_vm.Prelude.Bytes.{same_bytes}
use bytecode_vm.Bytecode.Trust.{TrustLevel}
use bytecode_vm.Bytecode.Opcode.{Opcode, as_u8, from_u8-as_u8}
use bytecode_vm.Bytecode.Chunk.{Instruction, FunctionDef, Chunk, magic, abi_version}
use bytecode_vm.Bytecode.Format.Write.{
  write_value, write_function, write_instruction, write_all, write_items, encode,
}
use bytecode_vm.Bytecode.Format.Reader.{
  Reader, ◌>>=◌, take_bytes, read_uint, read_u8, take_bytes-append, bind-ok, read_uint-to_le_bytes,
  read_u8-cons,
}
use bytecode_vm.Bytecode.Format.Decode.{
  max_items, max_value_depth, check_limit, read_count, read_string, read_constant, read_function,
  decode_op, read_instruction, read_items, read_magic, read_abi, read_chunk, decode_with,
}
use bytecode_vm.Bytecode.Format.WellFormed.{
  IsEncodable, IsEncodableFunction, IsEncodableInstruction, IsEncodableChunk,
}
use bytecode_vm.Bytecode.Format.Values.{
  check_limit-le, read_string-write_string, read_value-write_value,
}

read_function-write_function :
    (def : FunctionDef) (r : List ℕ)
    → IsEncodableFunction def
    → read_function (write_function def ++ r) ≡ ok (def, r)
unfolding read_function write_function
read_function-write_function def r (named, h) = simp append_assoc (
    bind-ok read_string _ _ (read_string-write_string def.name _ named)
    ∙ bind-ok (read_uint 4) _ _ (read_uint-to_le_bytes 4 def.entry _ h)
    ∙ bind-ok read_u8 _ _ (read_u8-cons def.arity _)
    ∙ bind-ok read_u8 _ _ (read_u8-cons def.num_registers r))

decode_op-as_u8 : (at : ℕ) (op : Opcode) (r : List ℕ) → decode_op at (as_u8 op) r ≡ ok (op, r)
unfolding decode_op
decode_op-as_u8 at op r = rw (from_u8-as_u8 op, decode_op)

read_instruction-write_instruction :
    (at : ℕ) (instr : Instruction) (r : List ℕ)
    → IsEncodableInstruction instr
    → read_instruction at (write_instruction instr ++ r) ≡ ok (instr, r)
unfolding read_instruction write_instruction
read_instruction-write_instruction at instr r h =
    bind-ok read_u8 _ _ (read_u8-cons (as_u8 instr.op) _)
    ∙ bind-ok (decode_op at (as_u8 instr.op)) _ _ (decode_op-as_u8 at instr.op _)
    ∙ bind-ok read_u8 _ _ (read_u8-cons instr.a _)
    ∙ bind-ok read_u8 _ _ (read_u8-cons instr.b _)
    ∙ bind-ok read_u8 _ _ (read_u8-cons instr.c _)
    ∙ bind-ok (read_uint 4) _ _ (read_uint-to_le_bytes 4 instr.imm r h)

-- If each item is read back, so is the list.
read_items-write_all {ℓ} :
    {A : Type ℓ} (P : A → Type 0) (read : ℕ → Reader A) (write : A → List ℕ)
    → ((at : ℕ) (x : A) (r : List ℕ) → P x → read at (write x ++ r) ≡ ok (x, r))
    → (at : ℕ) (xs : List A) (r : List ℕ) → All P xs
    → read_items read at (length xs) (write_all write xs ++ r) ≡ ok (xs, r)
unfolding read_items write_all
read_items-write_all P read write each at [] r h = refl
read_items-write_all P read write each at (x ∷ xs) r (h, hs) =
    rw (append_assoc (write x) (write_all write xs) r) (
      bind-ok (read at) _ _ (each at x _ h)
      ∙ bind-ok (read_items read (suc at) (length xs)) _ _
          (read_items-write_all P read write each (suc at) xs r hs))

read_count-to_le_bytes :
    (what : String) (n : ℕ) (r : List ℕ)
    → n ≤ max_items
    → read_count what (to_le_bytes 4 n ++ r) ≡ ok (n, r)
unfolding read_count
read_count-to_le_bytes what n r h =
    bind-ok (read_uint 4) _ _ (read_uint-to_le_bytes 4 n r (omega arith))
    ∙ bind-ok (check_limit what max_items n) _ _ (check_limit-le what max_items n _ h)

read_magic-magic : (r : List ℕ) → read_magic (magic ++ r) ≡ ok (tt, r)
unfolding read_magic same_bytes
read_magic-magic r = bind-ok (take_bytes 4) _ _ (take_bytes-append 4 magic r refl)

read_abi-to_le_bytes : (r : List ℕ) → read_abi (to_le_bytes 4 abi_version ++ r) ≡ ok (tt, r)
unfolding read_abi
read_abi-to_le_bytes r =
    bind-ok (read_uint 4) _ _ (read_uint-to_le_bytes 4 abi_version r (omega arith))

-- the count and the items of one section, and what follows them
section_lem {ℓ κ} :
    {A : Type ℓ} {B : Type κ} (P : A → Type 0) (read : ℕ → Reader A) (write : A → List ℕ)
    → ((at : ℕ) (x : A) (r : List ℕ) → P x → read at (write x ++ r) ≡ ok (x, r))
    → (what : String) (xs : List A) (r : List ℕ) (f : List A → Reader B) → length xs ≤ max_items
    → All P xs
    → (do n ← read_count what; items ← read_items read 0 n; f items) (write_items write xs ++ r)
      ≡ f xs r
unfolding write_items
section_lem P read write each what xs r f count hs =
    rw (append_assoc (to_le_bytes 4 (length xs)) (write_all write xs) r) (
      bind-ok (read_count what) _ _ (read_count-to_le_bytes what (length xs) _ count)
      ∙ bind-ok (read_items read 0 (length xs)) _ _
          (read_items-write_all P read write each 0 xs r hs))

pub read_chunk-encode :
    (trust : TrustLevel) (chunk : Chunk) (r : List ℕ)
    → IsEncodableChunk trust chunk
    → read_chunk trust (encode chunk ++ r) ≡ ok (chunk, r)
unfolding encode read_chunk read_constant
read_chunk-encode trust chunk r h = simp append_assoc (
    bind-ok read_magic _ _ (read_magic-magic _)
    ∙ bind-ok read_abi _ _ (read_abi-to_le_bytes _)
    ∙ bind-ok read_string _ _ (read_string-write_string chunk.name _ h.name_fits)
    ∙ section_lem (IsEncodable trust (max_value_depth + 1)) (λ _. read_constant trust) write_value
        (λ _. read_value-write_value trust (max_value_depth + 1)) "constants" chunk.constants _ _
        h.constants_count h.constants_fit
    ∙ section_lem IsEncodableFunction (λ _. read_function) write_function
        (λ _. read_function-write_function) "functions" chunk.functions _ _ h.functions_count
        h.functions_fit
    ∙ section_lem IsEncodableInstruction read_instruction write_instruction
        read_instruction-write_instruction "code" chunk.code r _ h.code_count h.code_fits)

-- For every chunk within the decoder's limits, decoding the encoder's output, with any bytes behind
-- it, gives the chunk: its name, constants, functions and code.
pub decode_with-encode :
    (trust : TrustLevel) (chunk : Chunk) (r : List ℕ)
    → IsEncodableChunk trust chunk
    → decode_with (encode chunk ++ r) trust ≡ ok chunk
unfolding decode_with
decode_with-encode trust chunk r h = rw (read_chunk-encode trust chunk r h, decode_with)
