-- ===== src/Bytecode/Format/Accepted.antt =====
-- What the decoder accepts, on any input: a module that it returns is within every limit, and
-- an untrusted one holds no authority.
use Prim.Native.String.{String}
use bytecode_vm.Prelude.{ℕ, zero, suc, ◌≤◌, ◌≡◌, refl, List, length, ap, All, ◌==◌, none, some}
use bytecode_vm.Prelude.Result.{Result, ok, err}
use bytecode_vm.Prelude.Bytes.{same_bytes}
use bytecode_vm.Bytecode.Trust.{TrustLevel}
use bytecode_vm.Bytecode.Opcode.{from_u8}
use bytecode_vm.Bytecode.Value.{Value}
use bytecode_vm.Bytecode.Chunk.{Chunk, magic, abi_version}
use bytecode_vm.Bytecode.Format.Reader.{FormatError, Reader, succeed, fail}
use bytecode_vm.Bytecode.Format.Decode.{
  max_name, max_items, max_blob, read_count, read_string, read_blob, read_message, read_tagged,
  read_value, read_constant, read_function, decode_op, read_instruction, read_items, read_magic,
  read_abi, read_chunk, decode_with,
}
use bytecode_vm.Bytecode.Format.WellFormed.{
  IsTrusted, IsEncodable, IsName, IsEncodableFunction, IsEncodableInstruction, IsEncodableChunk,
}
use bytecode_vm.Bytecode.Format.Returns.{
  IsByte, Returns, Returns-succeed, Returns-fail, Returns-if, Returns-map, Returns-bind,
  take_bytes-Returns, read_uint-Returns, read_u8-Returns, check_limit-Returns, check_utf8-Returns,
  check_trust-Returns,
}

read_string-Returns : Returns IsName read_string
unfolding read_string
read_string-Returns = Returns-bind (read_uint-Returns 4) λ len _.
    Returns-bind (check_limit-Returns "name" max_name len) λ _ fits.
      Returns-bind (take_bytes-Returns len)
        λ bs h. Returns-map (check_utf8-Returns bs) λ s v. (rw (v.0, h.0) fits, v.1)

read_blob-Returns : (what : String) → Returns (λ b. length b ≤ max_blob) (read_blob what)
unfolding read_blob
read_blob-Returns what = Returns-bind (read_uint-Returns 4) λ len _.
    Returns-bind (check_limit-Returns what max_blob len)
      λ _ fits. Returns-map (take_bytes-Returns len) λ b h. rw (h.0) fits

read_message-Returns :
    (trust : TrustLevel) (levels : ℕ) (payload : Reader Value)
    → IsTrusted trust
    → Returns (IsEncodable trust levels) payload
    → Returns (IsEncodable trust (suc levels)) (read_message payload)
unfolding read_message
read_message-Returns trust levels payload t h = Returns-bind (read_uint-Returns 8) λ sender hs.
    Returns-bind (read_uint-Returns 16) λ reply_cap hc.
      Returns-bind (read_uint-Returns 8) λ request_id hi.
        Returns-bind (read_uint-Returns 2)
          λ tag ht. Returns-bind h λ p hp. Returns-succeed _ (t, hs, hc, hi, ht, hp)

read_tagged-Returns :
    (trust : TrustLevel) (levels : ℕ) (payload : Reader Value) (tag : ℕ)
    → Returns (IsEncodable trust levels) payload
    → Returns (IsEncodable trust (suc levels)) (read_tagged trust payload tag)
unfolding read_tagged
read_tagged-Returns trust levels payload tag h =
    Returns-if (tag == 0) (λ _. Returns-succeed _ tt)
      λ _.
        Returns-if (tag == 1) (λ _. Returns-bind read_u8-Returns λ b _. Returns-succeed _ tt)
          λ _.
            Returns-if (tag == 2)
              (λ _. Returns-bind (read_uint-Returns 8) λ i hi. Returns-succeed _ hi)
              λ _.
                Returns-if (tag == 3)
                  (λ _. Returns-bind (read_uint-Returns 8) λ x hx. Returns-succeed _ hx)
                  λ _.
                    Returns-if (tag == 4)
                      (λ _.
                        Returns-bind (check_trust-Returns trust _) λ _ t.
                          Returns-bind (read_uint-Returns 8) λ p hp. Returns-succeed _ (t, hp))
                      λ _.
                        Returns-if (tag == 5)
                          (λ _.
                            Returns-bind (check_trust-Returns trust _)
                              λ _ t. read_message-Returns trust levels payload t h)
                          λ _.
                            Returns-if (tag == 6)
                              (λ _. Returns-bind (check_trust-Returns trust _) λ _ t.
                                Returns-bind (read_uint-Returns 16)
                                  λ c hc. Returns-succeed _ (t, hc))
                              λ _.
                                Returns-if (tag == 7)
                                  (λ _. Returns-bind (read_blob-Returns "str") λ bs hb.
                                    Returns-bind (check_utf8-Returns bs)
                                      λ s v. Returns-succeed _ (rw (v.0) hb, v.1))
                                  λ _.
                                    Returns-if (tag == 8)
                                      (λ _.
                                        Returns-bind (read_blob-Returns "bytes")
                                          λ bs hb. Returns-succeed _ hb)
                                      λ _. Returns-fail _

read_value-Returns :
    (trust : TrustLevel) (levels : ℕ) → Returns (IsEncodable trust levels) (read_value trust levels)
unfolding read_value
read_value-Returns trust zero = Returns-fail _
read_value-Returns trust (suc levels) =
    Returns-bind read_u8-Returns
      λ tag _. read_tagged-Returns trust levels _ tag (read_value-Returns trust levels)

read_function-Returns : Returns IsEncodableFunction read_function
unfolding read_function
read_function-Returns = Returns-bind read_string-Returns λ name hn.
    Returns-bind (read_uint-Returns 4) λ entry he.
      Returns-bind read_u8-Returns
        λ arity _. Returns-bind read_u8-Returns λ regs _. Returns-succeed _ (hn, he)

decode_op-Returns : (at byte : ℕ) → Returns (λ _. Unit {0}) (decode_op at byte)
unfolding decode_op
decode_op-Returns at byte =
    elim (from_u8 byte)
      as (λ o.
        Returns (λ _. Unit {0})
          (elim o [ some op ↦ succeed op | none ↦ fail (FormatError.unknown_opcode at byte) ])) [
            | some op ↦ Returns-succeed op tt
            | none ↦ Returns-fail _
          ]

read_instruction-Returns : (at : ℕ) → Returns IsEncodableInstruction (read_instruction at)
unfolding read_instruction
read_instruction-Returns at = Returns-bind read_u8-Returns λ byte _.
    Returns-bind (decode_op-Returns at byte) λ op _. Returns-bind read_u8-Returns λ a _.
      Returns-bind read_u8-Returns λ b _.
        Returns-bind read_u8-Returns
          λ c _. Returns-bind (read_uint-Returns 4) λ imm h. Returns-succeed _ h

read_items-Returns :
    {A : Type 0} (P : A → Type 0) (read : ℕ → Reader A)
    → ((at : ℕ) → Returns P (read at))
    → (at n : ℕ) → Returns (λ xs. (length xs ≡ n) × All P xs) (read_items read at n)
unfolding read_items
read_items-Returns P read each at zero = Returns-succeed _ (refl, tt)
read_items-Returns P read each at (suc n) = Returns-bind (each at) λ x h.
    Returns-bind (read_items-Returns P read each (suc at) n)
      λ xs hs. Returns-succeed _ (ap suc (hs.0), (h, hs.1))

read_count-Returns : (what : String) → Returns (λ n. n ≤ max_items) (read_count what)
unfolding read_count
read_count-Returns what =
    Returns-bind (read_uint-Returns 4)
      λ n _. Returns-bind (check_limit-Returns what max_items n) λ _ h. Returns-succeed n h

read_magic-Returns : Returns (λ _. Unit {0}) read_magic
unfolding read_magic
read_magic-Returns = Returns-bind (take_bytes-Returns 4) λ found _.
    Returns-if (same_bytes found magic) (λ _. Returns-succeed tt tt) (λ _. Returns-fail _)

read_abi-Returns : Returns (λ _. Unit {0}) read_abi
unfolding read_abi
read_abi-Returns =
    Returns-bind (read_uint-Returns 4)
      λ abi _. Returns-if (abi == abi_version) (λ _. Returns-succeed tt tt) (λ _. Returns-fail _)

read_chunk-Returns : (trust : TrustLevel) → Returns (IsEncodableChunk trust) (read_chunk trust)
unfolding read_chunk read_constant
read_chunk-Returns trust = Returns-bind read_magic-Returns λ _ _.
    Returns-bind read_abi-Returns λ _ _. Returns-bind read_string-Returns λ name hn.
      Returns-bind (read_count-Returns "constants") λ n₁ c₁.
        Returns-bind (read_items-Returns _ _ (λ _. read_value-Returns trust _) 0 n₁) λ constants h₁.
          Returns-bind (read_count-Returns "functions") λ n₂ c₂.
            Returns-bind (read_items-Returns _ _ (λ _. read_function-Returns) 0 n₂) λ functions h₂.
              Returns-bind (read_count-Returns "code") λ n₃ c₃.
                Returns-bind (read_items-Returns _ _ read_instruction-Returns 0 n₃) λ code h₃.
                  Returns-succeed _ (record {
                    name_fits = hn;
                    constants_count = rw (h₁.0) c₁;
                    constants_fit = h₁.1;
                    functions_count = rw (h₂.0) c₂;
                    functions_fit = h₂.1;
                    code_count = rw (h₃.0) c₃;
                    code_fits = h₃.1;
                  })

chunk_of :
    (res : Result FormatError (Chunk × List ℕ)) {chunk : Chunk}
    → elim res as (λ _. Result FormatError Chunk) [ ok (c, _) ↦ ok c | err e ↦ err e ] ≡ ok chunk
    → (r : List ℕ) × (res ≡ ok (chunk, r))
chunk_of (ok (c, r)) h = (r, cc)
chunk_of (err e) h = cc

-- Whatever bytes the decoder is given, a module that it returns is within all limits of the format,
-- and, decoded as untrusted, has no capability, process id or message among its constants.
pub decode_with-IsEncodableChunk :
    (trust : TrustLevel) (bytes : List ℕ) (chunk : Chunk)
    → All IsByte bytes
    → decode_with bytes trust ≡ ok chunk
    → IsEncodableChunk trust chunk
unfolding decode_with
decode_with-IsEncodableChunk trust bytes chunk hb h =
    let (r, e) = chunk_of (read_chunk trust bytes) h in
    ((read_chunk-Returns trust).apply bytes chunk r hb e).0
