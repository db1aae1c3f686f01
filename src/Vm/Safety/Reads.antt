-- ===== src/Vm/Safety/Reads.antt =====
-- Computations that only read the machine, and the conversions of operands.
use bytecode_vm.Prelude.{◌==◌, ltb, ◌+◌, ℕ, zero, suc, Option, none, some}
use bytecode_vm.Prelude.Result.{Result, ok, err, ◌>>=◌ as bind}
use bytecode_vm.Bytecode.Trust.{TrustLevel}
use bytecode_vm.Bytecode.Opcode.{Opcode}
use bytecode_vm.Bytecode.Value.{Value, as_int, as_cap}
use bytecode_vm.Prelude.Int.{is_neg64}
use bytecode_vm.Vm.Fault.{Fault}
use bytecode_vm.Vm.Machine.{Vm, Host}
use bytecode_vm.Vm.Monad.{M, ◌>>=◌, return, lift, Stop, after, fault, panic}
use bytecode_vm.Vm.Registers.{get_reg, read_slot}
use bytecode_vm.Vm.Arith.{
  reg_at, tag_in, tag_from_value, request_id_in, request_id_from_value, as_f64, on_floats,
  div_floats, binop,
}
use bytecode_vm.Vm.Step.{
  gather, cap_in, cap_or_fault, message_or_fault, str_or_fault, imm_tag, imm_reg, sleep_ms,
}
use bytecode_vm.Vm.Safety.Post.{IsSound, Keeps, Post, Safely}
use bytecode_vm.Vm.Safety.Frames.{
  FailsWell, succeeds, fails, if-FailsWell, on_top-Post, read_slot-FailsWell,
}

-- What holds after `r` holds after what follows it.
pub Post-bind :
    {A B : Type 0} (P : A → Vm → Type 0) (Q : B → Vm → Type 0) (r : Result Stop A × Vm)
    (f : A → M B)
    → Post P r
    → ((a : A) (vm : Vm) → P a vm → Post Q (f a vm))
    → Post Q (after r f)
Post-bind P Q (ok a, vm) f h k = k a vm h
Post-bind P Q (err (fault e), vm) f h k = h
Post-bind P Q (err panic, vm) f h k = tt

-- The computation leaves every property of the machine as it was.
pub record Reads (trust : TrustLevel) {A : Type 0} (m : M A) : Type 1 where
  pub apply : (Q : Vm → Type 0) (vm : Vm) → IsSound trust vm → Q vm → Post (λ _. Q) (m vm)

module _ (trust : TrustLevel) where
  pub Reads-bind :
      {A B : Type 0} {m : M A} {f : A → M B}
      → Reads trust m
      → ((a : A) → Reads trust (f a))
      → Reads trust (m >>= f)
  Reads-bind {m} {f} h k = record {
    apply = λ Q vm s q.
        Post-bind (λ _ vm'. IsSound trust vm' × Q vm') (λ _. Q) (m vm) f
          (h.apply (λ vm'. IsSound trust vm' × Q vm') vm s (s, q))
          (λ a vm' sq. (k a).apply Q vm' sq.0 sq.1);
  }

  pub Reads-return : {A : Type 0} (a : A) → Reads trust (return a)
  Reads-return a = record { apply = λ Q vm s q. q }

  lift-Post :
      {A : Type 0} (r : Result Fault A) (Q : Vm → Type 0) (vm : Vm)
      → FailsWell r
      → Q vm
      → Post (λ (_ : A). Q) (lift r vm)
  lift-Post (ok a) Q vm h q = q
  lift-Post (err e) Q vm (fails h) q = h

  pub Reads-lift : {A : Type 0} (r : Result Fault A) → FailsWell r → Reads trust (lift r)
  Reads-lift r h = record { apply = λ Q vm s q. lift-Post r Q vm h q }

  pub get_reg-Reads : (reg : ℕ) → Reads trust (get_reg reg)
  unfolding get_reg
  get_reg-Reads reg = record {
    apply = λ Q vm s q.
        on_top-Post trust (λ _. Q) vm (λ frame rest. lift (read_slot frame.registers reg)) s
          (λ frame rest h d.
            lift-Post (read_slot frame.registers reg) Q vm
              (read_slot-FailsWell trust frame.registers reg) q);
  }

  Post-unit :
      {A : Type 0} (r : Result Stop A × Vm)
      → Post (λ _. IsSound trust) r
      → Post (Keeps trust (λ _. Unit {0})) r
  Post-unit (ok a, vm) s = (tt, s)
  Post-unit (err (fault e), vm) h = h
  Post-unit (err panic, vm) h = tt

  pub Reads-Safely : {A : Type 0} {m : M A} → Reads trust m → Safely trust (λ _. Unit {0}) m
  Reads-Safely {m} h = record { apply = λ vm s. Post-unit (m vm) (h.apply (IsSound trust) vm s s) }

pub reg_at-FailsWell : (base offset : ℕ) → FailsWell (reg_at base offset)
unfolding reg_at
reg_at-FailsWell base offset = if-FailsWell (ltb (base + offset) 256) succeeds (fails tt)

pub gather-Reads : (trust : TrustLevel) (base offset n : ℕ) → Reads trust (gather base offset n)
unfolding gather
gather-Reads trust base offset zero = Reads-return trust _
gather-Reads trust base offset (suc n) =
    Reads-bind trust (Reads-lift trust (reg_at base offset) (reg_at-FailsWell base offset)) λ reg.
      Reads-bind trust (get_reg-Reads trust reg)
        λ v. Reads-bind trust (gather-Reads trust base (suc offset) n) λ rest. Reads-return trust _

cap_in-FailsWell : (o : Option ℕ) (v : Value) → FailsWell (cap_in o v)
cap_in-FailsWell (some c) v = succeeds
cap_in-FailsWell none v = fails tt

pub cap_or_fault-FailsWell : (v : Value) → FailsWell (cap_or_fault v)
cap_or_fault-FailsWell v = cap_in-FailsWell (as_cap v) v

pub message_or_fault-FailsWell : (v : Value) → FailsWell (message_or_fault v)
message_or_fault-FailsWell (Value.message h p) = succeeds
message_or_fault-FailsWell _ = fails tt

pub str_or_fault-FailsWell : (v : Value) → FailsWell (str_or_fault v)
str_or_fault-FailsWell (Value.str s) = succeeds
str_or_fault-FailsWell _ = fails tt

tag_in-FailsWell : (o : Option ℕ) (v : Value) → FailsWell (tag_in o v)
tag_in-FailsWell (some i) v = if-FailsWell (ltb i 65536) succeeds (fails tt)
tag_in-FailsWell none v = fails tt

pub tag_from_value-FailsWell : (v : Value) → FailsWell (tag_from_value v)
unfolding tag_from_value
tag_from_value-FailsWell v = tag_in-FailsWell (as_int v) v

request_id_in-FailsWell : (o : Option ℕ) (v : Value) → FailsWell (request_id_in o v)
request_id_in-FailsWell (some i) v = if-FailsWell (is_neg64 i) (fails tt) succeeds
request_id_in-FailsWell none v = fails tt

pub request_id_from_value-FailsWell : (v : Value) → FailsWell (request_id_from_value v)
unfolding request_id_from_value
request_id_from_value-FailsWell v = request_id_in-FailsWell (as_int v) v

pub sleep_ms-FailsWell : (o : Option ℕ) (v : Value) → FailsWell (sleep_ms o v)
sleep_ms-FailsWell (some n) v = if-FailsWell (is_neg64 n) (fails tt) succeeds
sleep_ms-FailsWell none v = fails tt

pub imm_tag-FailsWell : (imm : ℕ) → FailsWell (imm_tag imm)
imm_tag-FailsWell imm = if-FailsWell (ltb imm 65536) succeeds (fails tt)

pub imm_reg-FailsWell : (imm : ℕ) → FailsWell (imm_reg imm)
imm_reg-FailsWell imm = if-FailsWell (ltb imm 256) succeeds (fails tt)

both-FailsWell :
    {A B C : Type 0} (x : Result Fault A) (y : Result Fault B) (f : A → B → C)
    → FailsWell x
    → FailsWell y
    → FailsWell (bind x (λ m. bind y (λ n. ok (f m n))))
both-FailsWell (ok m) (ok n) f h k = succeeds
both-FailsWell (ok m) (err e) f h (fails k) = fails k
both-FailsWell (err e) y f (fails h) k = fails h

module _ (host : Host) where
  as_f64-FailsWell : (v : Value) → FailsWell (as_f64 host v)
  unfolding as_f64
  as_f64-FailsWell (Value.int _) = succeeds
  as_f64-FailsWell (Value.float _) = succeeds
  as_f64-FailsWell _ = fails tt

  on_floats-FailsWell :
      {A : Type 0} (f : ℕ → ℕ → A) (wrap : A → Value) (a b : Value)
      → FailsWell (on_floats host f wrap a b)
  unfolding on_floats
  on_floats-FailsWell f wrap a b =
      both-FailsWell (as_f64 host a) (as_f64 host b) (λ m n. wrap (f m n)) (as_f64-FailsWell a)
        (as_f64-FailsWell b)

  div_floats-FailsWell : (a b : Value) → FailsWell (div_floats host a b)
  div_floats-FailsWell a b =
      both-FailsWell (as_f64 host b) (as_f64 host a) (λ n m. Value.float (host.float_div m n))
        (as_f64-FailsWell b) (as_f64-FailsWell a)

  pub binop-FailsWell : (op : Opcode) (a b : Value) → FailsWell (binop host op a b)
  unfolding binop
  binop-FailsWell Opcode.add (Value.int x) (Value.int y) = succeeds
  binop-FailsWell Opcode.add a b = on_floats-FailsWell host.float_add Value.float a b
  binop-FailsWell Opcode.sub (Value.int x) (Value.int y) = succeeds
  binop-FailsWell Opcode.sub a b = on_floats-FailsWell host.float_sub Value.float a b
  binop-FailsWell Opcode.mul (Value.int x) (Value.int y) = succeeds
  binop-FailsWell Opcode.mul a b = on_floats-FailsWell host.float_mul Value.float a b
  binop-FailsWell Opcode.div (Value.int x) (Value.int y) = if-FailsWell (y == 0) (fails tt) succeeds
  binop-FailsWell Opcode.div a b = div_floats-FailsWell a b
  binop-FailsWell Opcode.modulo (Value.int x) (Value.int y) =
      if-FailsWell (y == 0) (fails tt) succeeds
  binop-FailsWell Opcode.eq a b = succeeds
  binop-FailsWell Opcode.lt (Value.int x) (Value.int y) = succeeds
  binop-FailsWell Opcode.lt a b = on_floats-FailsWell host.float_lt Value.bool a b
  binop-FailsWell Opcode.le (Value.int x) (Value.int y) = succeeds
  binop-FailsWell Opcode.le a b = on_floats-FailsWell host.float_le Value.bool a b
  binop-FailsWell _ _ _ = fails tt
