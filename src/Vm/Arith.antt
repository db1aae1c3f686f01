-- ===== src/Vm/Arith.antt =====
-- vm/machine.rs: arithmetic, comparison, and the conversions of operands.
use bytecode_vm.Prelude.{
  Option, ℕ, ◌+◌, Bool, true, false, not, ◌&&◌, none, some, ltb, ◌==◌, if◌then◌else◌,
}
use bytecode_vm.Prelude.Bytes.{same_bytes}
use bytecode_vm.Prelude.Int.{
  ltb_ℤ, leb_ℤ, i64_val, is_neg64, wrapping_add, wrapping_sub, wrapping_mul, wrapping_div,
  wrapping_rem,
}
use bytecode_vm.Prelude.Result.{Result, ok, err, ◌>>=◌}
use bytecode_vm.Bytecode.Opcode.{Opcode}
use bytecode_vm.Bytecode.Value.{Value, Header, as_int, type_name}
use bytecode_vm.Vm.Fault.{Fault, Broken}
use bytecode_vm.Vm.Machine.{Host}

abbrev pub same_header : Header → Header → Bool
same_header h k =
    h.sender == k.sender
    && h.reply_cap == k.reply_cap
    && h.request_id == k.request_id
    && h.tag == k.tag

module _ (host : Host) where
  -- `PartialEq` of values, as derived
  unfoldable pub value_eq : Value → Value → Bool
  value_eq Value.unit Value.unit = true
  value_eq (Value.bool a) (Value.bool b) = if a then b else not b
  value_eq (Value.int x) (Value.int y) = x == y
  value_eq (Value.float x) (Value.float y) = host.float_eq x y
  value_eq (Value.pid p) (Value.pid q) = p == q
  value_eq (Value.message h p) (Value.message k q) = same_header h k && value_eq p q
  value_eq (Value.cap c) (Value.cap d) = c == d
  value_eq (Value.str s) (Value.str t) = same_bytes s t
  value_eq (Value.bytes a) (Value.bytes b) = same_bytes a b
  value_eq _ _ = false

  unfoldable pub as_f64 : Value → Result Fault ℕ
  as_f64 (Value.int i) = ok (host.int_to_float i)
  as_f64 (Value.float f) = ok f
  as_f64 other = err (Fault.type_mismatch "int or float" (type_name other))

  -- an operation on two floats, the left operand converted first
  unfoldable pub on_floats :
      {A : Type 0} → (ℕ → ℕ → A) → (A → Value) → Value → Value → Result Fault Value
  on_floats f wrap a b = do x ← as_f64 a; y ← as_f64 b; ok (wrap (f x y))

  -- the denominator converted first
  abbrev pub div_floats : Value → Value → Result Fault Value
  div_floats a b = do denom ← as_f64 b; x ← as_f64 a; ok (Value.float (host.float_div x denom))

  -- The `match` of `numeric_binop` on the opcode and the operands.
  unfoldable pub binop : Opcode → Value → Value → Result Fault Value
  binop Opcode.add (Value.int x) (Value.int y) = ok (Value.int (wrapping_add x y))
  binop Opcode.add a b = on_floats host.float_add Value.float a b
  binop Opcode.sub (Value.int x) (Value.int y) = ok (Value.int (wrapping_sub x y))
  binop Opcode.sub a b = on_floats host.float_sub Value.float a b
  binop Opcode.mul (Value.int x) (Value.int y) = ok (Value.int (wrapping_mul x y))
  binop Opcode.mul a b = on_floats host.float_mul Value.float a b
  binop Opcode.div (Value.int x) (Value.int y) =
      if y == 0 then err Fault.divide_by_zero else ok (Value.int (wrapping_div x y))
  binop Opcode.div a b = div_floats a b
  binop Opcode.modulo (Value.int x) (Value.int y) =
      if y == 0 then err Fault.divide_by_zero else ok (Value.int (wrapping_rem x y))
  binop Opcode.eq a b = ok (Value.bool (value_eq a b))
  binop Opcode.lt (Value.int x) (Value.int y) = ok (Value.bool (ltb_ℤ (i64_val x) (i64_val y)))
  binop Opcode.lt a b = on_floats host.float_lt Value.bool a b
  binop Opcode.le (Value.int x) (Value.int y) = ok (Value.bool (leb_ℤ (i64_val x) (i64_val y)))
  binop Opcode.le a b = on_floats host.float_le Value.bool a b
  binop _ _ _ = err (Fault.invariant Broken.non_arithmetic_opcode)

abbrev pub tag_in : Option ℕ → Value → Result Fault ℕ
tag_in none v = err (Fault.type_mismatch "int" (type_name v))
tag_in (some i) v =
    if ltb i 65536 then ok i else err (Fault.type_mismatch "tag u16" "int-out-of-range")

-- `Int` in `0..=u16::MAX`
unfoldable pub tag_from_value : Value → Result Fault ℕ
tag_from_value v = tag_in (as_int v) v

abbrev pub request_id_in : Option ℕ → Value → Result Fault ℕ
request_id_in none v = err (Fault.type_mismatch "int" (type_name v))
request_id_in (some i) v =
    if is_neg64 i then err (Fault.type_mismatch "request_id u64" "negative-int") else ok i

-- `Int` in `0..=i64::MAX`
unfoldable pub request_id_from_value : Value → Result Fault ℕ
request_id_from_value v = request_id_in (as_int v) v

-- `reg_at`: the sum in a wider type, narrowed explicitly
unfoldable pub reg_at : ℕ → ℕ → Result Fault ℕ
reg_at base offset =
    if ltb (base + offset) 256
    then ok (base + offset)
    else err (Fault.register_index_overflow base (if ltb offset 256 then offset else 255))

-- The milliseconds of a timeout register: anything but a non-negative number counts as 0.
unfoldable pub timeout_ms : Value → ℕ
timeout_ms v = elim (as_int v) [ some n ↦ if is_neg64 n then 0 else n | none ↦ 0 ]
