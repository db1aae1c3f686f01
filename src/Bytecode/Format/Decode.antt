-- ===== src/Bytecode/Format/Decode.antt =====
-- format.rs, the decoder.
use bytecode_vm.Prelude.{
  ℕ, zero, suc, ◌+◌, none, some, not, List, [], ◌∷◌, ltb, ◌==◌, if◌then◌else◌,
}
use bytecode_vm.Prelude.Result.{Result, ok, err}
use bytecode_vm.Prelude.Bytes.{same_bytes}
use bytecode_vm.Bytecode.Trust.{TrustLevel, trusted, untrusted, ConstantKind}
use bytecode_vm.Bytecode.Opcode.{Opcode, from_u8}
use bytecode_vm.Bytecode.Value.{Value}
use bytecode_vm.Bytecode.Chunk.{Instruction, FunctionDef, Chunk, magic, abi_version}
use bytecode_vm.Bytecode.Utf8.{is_utf8}
use bytecode_vm.Bytecode.Format.Reader.{
  FormatError, Reader, ◌>>=◌, succeed, fail, take_bytes, read_uint, read_u8,
}
use Prim.Native.String.{String}

abbrev pub max_name : ℕ
max_name = 65536

abbrev pub max_items : ℕ
max_items = 1_000_000

abbrev pub max_blob : ℕ
max_blob = 1_048_576

abbrev pub max_value_depth : ℕ
max_value_depth = 16

-- `if n > limit { return Err(LimitExceeded { what, got: n }) }`
unfoldable pub check_limit : String → ℕ → ℕ → Reader (Unit {0})
check_limit what limit n =
    if ltb limit n then fail (FormatError.limit_exceeded what n) else succeed tt

unfoldable pub read_count : String → Reader ℕ
read_count what = do n ← read_uint 4; _ ← check_limit what max_items n; succeed n

-- `from_utf8`, with the bytes as the text
unfoldable pub check_utf8 : List ℕ → Reader (List ℕ)
check_utf8 bs = if is_utf8 bs then succeed bs else fail FormatError.bad_utf8

unfoldable pub read_string : Reader (List ℕ)
read_string = do
  len ← read_uint 4
  _ ← check_limit "name" max_name len
  bs ← take_bytes len
  check_utf8 bs

unfoldable pub read_blob : String → Reader (List ℕ)
read_blob what = do len ← read_uint 4; _ ← check_limit what max_blob len; take_bytes len

-- Untrusted modules must not embed authority.
unfoldable pub check_trust : TrustLevel → ConstantKind → Reader (Unit {0})
check_trust trusted kind = succeed tt
check_trust untrusted kind = fail (FormatError.forbidden_constant kind)

-- The body of a message, with the reader of its payload.
unfoldable pub read_message : Reader Value → Reader Value
read_message payload = do
  sender ← read_uint 8
  reply_cap ← read_uint 16
  request_id ← read_uint 8
  tag ← read_uint 2
  p ← payload
  succeed (
      Value.message
        (record { sender = sender; reply_cap = reply_cap; request_id = request_id; tag = tag }) p)

-- The arms of the `match` on a value's tag.
unfoldable pub read_tagged : TrustLevel → Reader Value → ℕ → Reader Value
read_tagged trust payload tag =
    if tag == 0
    then succeed Value.unit
    else if tag == 1
    then (do b ← read_u8; succeed (Value.bool (not (b == 0))))
    else if tag == 2
    then (do i ← read_uint 8; succeed (Value.int i))
    else if tag == 3
    then (do x ← read_uint 8; succeed (Value.float x))
    else if tag == 4
    then (do _ ← check_trust trust ConstantKind.process_id; p ← read_uint 8; succeed (Value.pid p))
    else if tag == 5
    then (do _ ← check_trust trust ConstantKind.message; read_message payload)
    else if tag == 6
    then (do _ ← check_trust trust ConstantKind.capability; c ← read_uint 16; succeed (Value.cap c))
    else if tag == 7
    then (do bs ← read_blob "str"; s ← check_utf8 bs; succeed (Value.str s))
    else if tag == 8
    then (do bs ← read_blob "bytes"; succeed (Value.bytes bs))
    else fail (FormatError.unknown_value_tag tag)

-- The source counts the depth up and refuses a depth above the maximum; the model counts the
-- levels that are left, from one more than the maximum down to none.
unfoldable pub read_value : TrustLevel → ℕ → Reader Value
read_value trust zero = fail FormatError.value_too_nested
read_value trust (suc levels) = do tag ← read_u8; read_tagged trust (read_value trust levels) tag

unfoldable pub read_constant : TrustLevel → Reader Value
read_constant trust = read_value trust (max_value_depth + 1)

unfoldable pub read_function : Reader FunctionDef
read_function = do
  name ← read_string
  entry ← read_uint 4
  arity ← read_u8
  num_registers ← read_u8
  succeed (record { name = name; entry = entry; arity = arity; num_registers = num_registers })

unfoldable pub decode_op : ℕ → ℕ → Reader Opcode
decode_op at byte = elim (from_u8 byte) [
  | some op ↦ succeed op
  | none ↦ fail (FormatError.unknown_opcode at byte)
]

unfoldable pub read_instruction : ℕ → Reader Instruction
read_instruction at = do
  byte ← read_u8
  op ← decode_op at byte
  a ← read_u8
  b ← read_u8
  c ← read_u8
  imm ← read_uint 4
  succeed (record { op = op; a = a; b = b; c = c; imm = imm })

-- `for at in at..at + n`, pushing each item read.
unfoldable pub read_items {ℓ} : {A : Type ℓ} → (ℕ → Reader A) → ℕ → ℕ → Reader (List A)
read_items read at zero = succeed []
read_items read at (suc n) = do x ← read at; xs ← read_items read (suc at) n; succeed (x ∷ xs)

unfoldable pub read_magic : Reader (Unit {0})
read_magic = do
  found ← take_bytes 4
  if same_bytes found magic then succeed tt else fail (FormatError.bad_magic found)

unfoldable pub read_abi : Reader (Unit {0})
read_abi = do
  abi ← read_uint 4
  if abi == abi_version then succeed tt else fail (FormatError.unsupported_abi abi)

unfoldable pub read_chunk : TrustLevel → Reader Chunk
read_chunk trust = do
  _ ← read_magic
  _ ← read_abi
  name ← read_string
  n_const ← read_count "constants"
  constants ← read_items (λ _. read_constant trust) 0 n_const
  n_fn ← read_count "functions"
  functions ← read_items (λ _. read_function) 0 n_fn
  n_code ← read_count "code"
  code ← read_items read_instruction 0 n_code
  succeed (record { name = name; constants = constants; code = code; functions = functions })

-- Bytes after the module are ignored.
unfoldable pub decode_with : List ℕ → TrustLevel → Result FormatError Chunk
decode_with bytes trust = elim (read_chunk trust bytes) [ ok (chunk, _) ↦ ok chunk | err e ↦ err e ]

unfoldable pub decode : List ℕ → Result FormatError Chunk
unfolding decode_with
decode bytes = decode_with bytes untrusted
