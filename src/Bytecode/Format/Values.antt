-- ===== src/Bytecode/Format/Values.antt =====
-- Values, names and buffers are read back as they were written.
use Prim.Native.String.{String}
use bytecode_vm.Prelude.{
  ℕ, zero, suc, ◌^◌, ◌≤◌, ◌<◌, ◌≡◌, refl, ◌∙◌, true, false, List, ◌++◌, append_assoc, length, arith,
  ltb,
}
use bytecode_vm.Prelude.Result.{ok}
use bytecode_vm.Prelude.Bytes.{to_le_bytes}
use bytecode_vm.Bytecode.Trust.{TrustLevel, trusted, untrusted, ConstantKind}
use bytecode_vm.Bytecode.Value.{Value, Header}
use bytecode_vm.Bytecode.Utf8.{is_utf8}
use bytecode_vm.Bytecode.Format.Write.{write_string, write_blob, write_value}
use bytecode_vm.Bytecode.Format.Reader.{
  Reader, take_bytes, read_uint, read_u8, take_bytes-append, bind-ok, read_uint-to_le_bytes,
  read_u8-cons,
}
use bytecode_vm.Bytecode.Format.Decode.{
  max_name, max_blob, check_limit, check_utf8, read_string, read_blob, check_trust, read_message,
  read_tagged, read_value,
}
use bytecode_vm.Bytecode.Format.WellFormed.{IsTrusted, IsEncodable, IsName}

le→ltb : (limit n : ℕ) → n ≤ limit → ltb limit n ≡ false
le→ltb limit n h = ground arith

pub check_limit-le :
    (what : String) (limit n : ℕ) (r : List ℕ) → n ≤ limit → check_limit what limit n r ≡ ok (tt, r)
unfolding check_limit
check_limit-le what limit n r h = rw (le→ltb limit n h)

check_utf8-valid : (s r : List ℕ) → is_utf8 s ≡ true → check_utf8 s r ≡ ok (s, r)
unfolding check_utf8
check_utf8-valid s r h = rw h

pub read_string-write_string :
    (s r : List ℕ) → IsName s → read_string (write_string s ++ r) ≡ ok (s, r)
unfolding read_string write_string
read_string-write_string s r (fits, valid) = rw (append_assoc (to_le_bytes 4 (length s)) s r) (
    bind-ok (read_uint 4) _ _ (read_uint-to_le_bytes 4 (length s) (s ++ r) (omega arith))
    ∙ bind-ok (check_limit "name" max_name (length s)) _ _ (check_limit-le "name" max_name _ _ fits)
    ∙ bind-ok (take_bytes (length s)) _ _ (take_bytes-append (length s) s r refl)
    ∙ check_utf8-valid s r valid)

read_blob-write_blob :
    (what : String) (b r : List ℕ)
    → length b ≤ max_blob
    → read_blob what (write_blob b ++ r) ≡ ok (b, r)
unfolding read_blob write_blob
read_blob-write_blob what b r fits = rw (append_assoc (to_le_bytes 4 (length b)) b r) (
    bind-ok (read_uint 4) _ _ (read_uint-to_le_bytes 4 (length b) (b ++ r) (omega arith))
    ∙ bind-ok (check_limit what max_blob (length b)) _ _ (check_limit-le what max_blob _ _ fits)
    ∙ take_bytes-append (length b) b r refl)

check_trust-trusted :
    (trust : TrustLevel) (kind : ConstantKind) (r : List ℕ)
    → IsTrusted trust
    → check_trust trust kind r ≡ ok (tt, r)
unfolding check_trust
check_trust-trusted trusted kind r h = refl
check_trust-trusted untrusted kind r h = elim h [ ]

-- The body of a message is read back if its payload is.
read_message_lem :
    (read : Reader Value) (m : Header) (payload : Value) (w r : List ℕ)
    → m.sender < 2 ^ 64
    → m.reply_cap < 2 ^ 128
    → m.request_id < 2 ^ 64
    → m.tag < 2 ^ 16
    → read (w ++ r) ≡ ok (payload, r)
    → read_message read (
        (to_le_bytes 8 m.sender
          ++ (to_le_bytes 16 m.reply_cap
              ++ (to_le_bytes 8 m.request_id ++ (to_le_bytes 2 m.tag ++ w))))
        ++ r)
      ≡ ok (Value.message m payload, r)
unfolding read_message
read_message_lem read m payload w r s c i g e = simp append_assoc (
    bind-ok (read_uint 8) _ _ (read_uint-to_le_bytes 8 m.sender _ s)
    ∙ bind-ok (read_uint 16) _ _ (read_uint-to_le_bytes 16 m.reply_cap _ c)
    ∙ bind-ok (read_uint 8) _ _ (read_uint-to_le_bytes 8 m.request_id _ i)
    ∙ bind-ok (read_uint 2) _ _ (read_uint-to_le_bytes 2 m.tag _ g)
    ∙ bind-ok read _ _ e)

-- A value that nests at most `levels` levels is read back, whatever follows it.
pub read_value-write_value :
    (trust : TrustLevel) (levels : ℕ) (v : Value) (r : List ℕ)
    → IsEncodable trust levels v
    → read_value trust levels (write_value v ++ r) ≡ ok (v, r)
unfolding read_value write_value read_tagged
read_value-write_value trust zero v r h = elim h [ ]
read_value-write_value trust (suc levels) Value.unit r h = bind-ok read_u8 _ _ (read_u8-cons 0 r)
read_value-write_value trust (suc levels) (Value.bool true) r h =
    bind-ok read_u8 _ _ (read_u8-cons 1 _) ∙ bind-ok read_u8 _ _ (read_u8-cons 1 r)
read_value-write_value trust (suc levels) (Value.bool false) r h =
    bind-ok read_u8 _ _ (read_u8-cons 1 _) ∙ bind-ok read_u8 _ _ (read_u8-cons 0 r)
read_value-write_value trust (suc levels) (Value.int i) r h =
    bind-ok read_u8 _ _ (read_u8-cons 2 _)
    ∙ bind-ok (read_uint 8) _ _ (read_uint-to_le_bytes 8 i r h)
read_value-write_value trust (suc levels) (Value.float x) r h =
    bind-ok read_u8 _ _ (read_u8-cons 3 _)
    ∙ bind-ok (read_uint 8) _ _ (read_uint-to_le_bytes 8 x r h)
read_value-write_value trust (suc levels) (Value.pid p) r (t, h) =
    bind-ok read_u8 _ _ (read_u8-cons 4 _)
    ∙ bind-ok (check_trust trust _) _ _ (check_trust-trusted trust _ _ t)
    ∙ bind-ok (read_uint 8) _ _ (read_uint-to_le_bytes 8 p r h)
read_value-write_value trust (suc levels) (Value.message m payload) r (t, s, c, i, g, h) =
    bind-ok read_u8 _ _ (read_u8-cons 5 _)
    ∙ bind-ok (check_trust trust _) _ _ (check_trust-trusted trust _ _ t)
    ∙ read_message_lem (read_value trust levels) m payload (write_value payload) r s c i g
        (read_value-write_value trust levels payload r h)
read_value-write_value trust (suc levels) (Value.cap c) r (t, h) =
    bind-ok read_u8 _ _ (read_u8-cons 6 _)
    ∙ bind-ok (check_trust trust _) _ _ (check_trust-trusted trust _ _ t)
    ∙ bind-ok (read_uint 16) _ _ (read_uint-to_le_bytes 16 c r h)
read_value-write_value trust (suc levels) (Value.str s) r (fits, valid) =
    bind-ok read_u8 _ _ (read_u8-cons 7 _)
    ∙ bind-ok (read_blob "str") _ _ (read_blob-write_blob "str" s r fits)
    ∙ bind-ok (check_utf8 s) _ _ (check_utf8-valid s r valid)
read_value-write_value trust (suc levels) (Value.bytes b) r h =
    bind-ok read_u8 _ _ (read_u8-cons 8 _)
    ∙ bind-ok (read_blob "bytes") _ _ (read_blob-write_blob "bytes" b r h)
