-- ===== src/Vm/Safety/Execute.antt =====
-- Every arm of the match on the opcode keeps the machine sound.
use bytecode_vm.Prelude.{ℕ, ◌==◌, Bool, true, false}
use bytecode_vm.Prelude.Result.{Result}
use bytecode_vm.Bytecode.Trust.{TrustLevel}
use bytecode_vm.Bytecode.Opcode.{Opcode}
use bytecode_vm.Bytecode.Value.{Value, as_int}
use bytecode_vm.Vm.Fault.{Fault, VmResult}
use bytecode_vm.Vm.Machine.{Vm, Host}
use bytecode_vm.Vm.Monad.{M, ◌>>=◌, lift}
use bytecode_vm.Vm.Registers.{get_reg}
use bytecode_vm.Vm.Step.{cap_or_fault, native_operand, numeric_binop, execute, finish}
use bytecode_vm.Vm.Safety.Post.{IsSound, Post, Ensures, StepsWell, EndsWell, Ensures-bind}
use bytecode_vm.Vm.Safety.Frames.{FailsWell, pop_frame-Ensures}
use bytecode_vm.Vm.Safety.Reads.{
  Reads, Reads-bind, Reads-lift, Reads-return, Reads-Safely, get_reg-Reads, gather-Reads,
  cap_or_fault-FailsWell, message_or_fault-FailsWell, str_or_fault-FailsWell,
  tag_from_value-FailsWell, request_id_from_value-FailsWell, sleep_ms-FailsWell, imm_tag-FailsWell,
  imm_reg-FailsWell, binop-FailsWell,
}
use bytecode_vm.Vm.Safety.Control.{
  IsReady, load_const-Post, jump-Post, branch-Post, fresh_request_id-Safely, negate-Safely,
  store-Ensures,
}
use bytecode_vm.Vm.Safety.Calls.{call-Post, call_native-Post}

native_operand-Reads : (trust : TrustLevel) (b : Bool) (c : ℕ) → Reads trust (native_operand b c)
native_operand-Reads trust true c = Reads-return trust _
native_operand-Reads trust false c = Reads-bind trust (get_reg-Reads trust c) λ v.
    Reads-bind trust (Reads-lift trust (cap_or_fault v) (cap_or_fault-FailsWell v))
      λ cap. Reads-return trust _

module _ (trust : TrustLevel) where
  reads :
      {A B : Type 0} {Q : B → Vm → Type 0} {m : M A} {f : A → M B}
      → Reads trust m
      → ((a : A) → Ensures trust Q (f a))
      → Ensures trust Q (m >>= f)
  reads h k = Ensures-bind trust (Reads-Safely trust h) λ a _. k a

  -- Read a register.
  from_reg :
      {B : Type 0} {Q : B → Vm → Type 0} {f : Value → M B} (reg : ℕ)
      → ((v : Value) → Ensures trust Q (f v))
      → Ensures trust Q (get_reg reg >>= f)
  from_reg reg k = reads (get_reg-Reads trust reg) k

  -- Convert an operand.
  convert :
      {A B : Type 0} {Q : B → Vm → Type 0} {f : A → M B} {r : Result Fault A}
      → FailsWell r
      → ((a : A) → Ensures trust Q (f a))
      → Ensures trust Q (lift r >>= f)
  convert {r} h k = reads (Reads-lift trust r h) k

  finish-Ensures :
      (r : VmResult)
      → ((vm : Vm) → IsSound trust vm → EndsWell trust r vm)
      → Ensures trust (StepsWell trust) (finish r)
  finish-Ensures r h = record { apply = h }

  module _ (host : Host) where
    numeric_binop-Ensures :
        (op : Opcode) (dst lhs rhs : ℕ)
        → Ensures trust (StepsWell trust) (numeric_binop host op dst lhs rhs)
    unfolding numeric_binop
    numeric_binop-Ensures op dst lhs rhs = from_reg lhs λ a.
        from_reg rhs λ b. convert (binop-FailsWell host op a b) λ v. store-Ensures trust host dst v

    -- A ready instruction of a sound machine goes on, ends the slice, or fails with an allowed fault.
    pub execute-Post :
        (op : Opcode) (a b c imm : ℕ) (vm : Vm)
        → IsSound trust vm
        → IsReady op imm vm
        → Post (StepsWell trust) (execute host op a b c imm vm)
    unfolding execute
    execute-Post Opcode.halt a b c imm vm s r =
        (from_reg 0 λ v. finish-Ensures (VmResult.complete v) λ _ _. tt).apply vm s
    execute-Post Opcode.nop a b c imm vm s r = s
    execute-Post Opcode.load_const a b c imm vm s r = load_const-Post trust host a imm vm s r
    execute-Post Opcode.load_imm a b c imm vm s r = (store-Ensures trust host a _).apply vm s
    execute-Post Opcode.move a b c imm vm s r =
        (from_reg b λ v. store-Ensures trust host a v).apply vm s
    execute-Post Opcode.add a b c imm vm s r = (numeric_binop-Ensures Opcode.add a b c).apply vm s
    execute-Post Opcode.sub a b c imm vm s r = (numeric_binop-Ensures Opcode.sub a b c).apply vm s
    execute-Post Opcode.mul a b c imm vm s r = (numeric_binop-Ensures Opcode.mul a b c).apply vm s
    execute-Post Opcode.div a b c imm vm s r = (numeric_binop-Ensures Opcode.div a b c).apply vm s
    execute-Post Opcode.modulo a b c imm vm s r =
        (numeric_binop-Ensures Opcode.modulo a b c).apply vm s
    execute-Post Opcode.eq a b c imm vm s r = (numeric_binop-Ensures Opcode.eq a b c).apply vm s
    execute-Post Opcode.lt a b c imm vm s r = (numeric_binop-Ensures Opcode.lt a b c).apply vm s
    execute-Post Opcode.le a b c imm vm s r = (numeric_binop-Ensures Opcode.le a b c).apply vm s
    execute-Post Opcode.neg a b c imm vm s r =
        (from_reg b λ v.
            Ensures-bind trust (negate-Safely trust host v)
              λ n _. store-Ensures trust host a n).apply
          vm s
    execute-Post Opcode.jump a b c imm vm s r = jump-Post trust imm vm s r
    execute-Post Opcode.branch a b c imm vm s r = branch-Post trust a imm vm s r
    execute-Post Opcode.call a b c imm vm s r = call-Post trust a b imm vm s r
    execute-Post Opcode.call_native a b c imm vm s r = call_native-Post trust host a b imm vm s
    execute-Post Opcode.return a b c imm vm s r =
        (from_reg a λ v. pop_frame-Ensures trust host v).apply vm s
    execute-Post Opcode.spawn a b c imm vm s r =
        (reads (gather-Reads trust a 1 b) λ args. finish-Ensures _ λ _ h. h).apply vm s
    execute-Post Opcode.yield a b c imm vm s r = s
    execute-Post Opcode.sleep a b c imm vm s r =
        (from_reg a λ millis.
            convert (sleep_ms-FailsWell (as_int millis) millis)
              λ ms. finish-Ensures _ λ _ h. h).apply
          vm s
    execute-Post Opcode.exit a b c imm vm s r =
        (from_reg a λ v. finish-Ensures (VmResult.complete v) λ _ _. tt).apply vm s
    execute-Post Opcode.self_pid a b c imm vm s r = s
    execute-Post Opcode.send a b c imm vm s r =
        (from_reg a λ target. from_reg b λ message. convert (cap_or_fault-FailsWell target) λ cap.
            convert (message_or_fault-FailsWell message) λ hop. finish-Ensures _ λ _ h. h).apply
          vm s
    execute-Post Opcode.receive a b c imm vm s r = s
    execute-Post Opcode.receive_timeout a b c imm vm s r =
        (from_reg b λ millis. finish-Ensures _ λ _ h. h).apply vm s
    execute-Post Opcode.receive_match a b c imm vm s r =
        (from_reg b
            λ v. convert (tag_from_value-FailsWell v) λ tag. finish-Ensures _ λ _ h. h).apply
          vm s
    execute-Post Opcode.receive_match_imm a b c imm vm s r =
        (convert (imm_tag-FailsWell imm) λ tag. finish-Ensures _ λ _ h. h).apply vm s
    execute-Post Opcode.fresh_request_id a b c imm vm s r =
        (Ensures-bind trust (fresh_request_id-Safely trust)
            λ id _. store-Ensures trust host a _).apply
          vm s
    execute-Post Opcode.receive_match_corr a b c imm vm s r =
        (from_reg b λ v. convert (tag_from_value-FailsWell v) λ tag.
            from_reg c λ w.
              convert (request_id_from_value-FailsWell w) λ rid. finish-Ensures _ λ _ h. h).apply
          vm s
    execute-Post Opcode.receive_match_corr_imm a b c imm vm s r =
        (convert (imm_tag-FailsWell imm) λ tag.
            from_reg b λ w.
              convert (request_id_from_value-FailsWell w) λ rid. finish-Ensures _ λ _ h. h).apply
          vm s
    execute-Post Opcode.ask a b c imm vm s r =
        (from_reg b λ target. from_reg c λ request. convert (cap_or_fault-FailsWell target) λ cap.
            convert (message_or_fault-FailsWell request) λ hop. finish-Ensures _ λ _ h. h).apply
          vm s
    execute-Post Opcode.ask_timeout a b c imm vm s r =
        (from_reg b λ target. from_reg c λ request. convert (imm_reg-FailsWell imm) λ reg.
            from_reg reg λ millis. convert (cap_or_fault-FailsWell target) λ cap.
              convert (message_or_fault-FailsWell request) λ hop. finish-Ensures _ λ _ h. h).apply
          vm s
    execute-Post Opcode.monitor a b c imm vm s r =
        (from_reg b λ v. convert (cap_or_fault-FailsWell v) λ cap. finish-Ensures _ λ _ h. h).apply
          vm s
    execute-Post Opcode.demonitor a b c imm vm s r = s
    execute-Post Opcode.link a b c imm vm s r =
        (from_reg b λ v. convert (cap_or_fault-FailsWell v) λ cap. finish-Ensures _ λ _ h. h).apply
          vm s
    execute-Post Opcode.unlink a b c imm vm s r = s
    execute-Post Opcode.register_name a b c imm vm s r =
        (from_reg a λ v. convert (str_or_fault-FailsWell v) λ name. finish-Ensures _ λ _ h. h).apply
          vm s
    execute-Post Opcode.whereis a b c imm vm s r =
        (from_reg b λ v. convert (str_or_fault-FailsWell v) λ name. finish-Ensures _ λ _ h. h).apply
          vm s
    execute-Post Opcode.delegate a b c imm vm s r =
        (from_reg b λ v. convert (cap_or_fault-FailsWell v) λ cap.
            reads (native_operand-Reads trust (c == 255) c) λ want. finish-Ensures _ λ _ h. h).apply
          vm s
    execute-Post Opcode.trap a b c imm vm s r = tt
