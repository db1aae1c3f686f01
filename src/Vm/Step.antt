-- ===== src/Vm/Step.antt =====
-- vm/machine.rs, `Vm::run`: one instruction, and the loop on the budget.
use bytecode_vm.Prelude.{
  Bool, true, false, ℕ, zero, suc, ◌+◌, ◌%◌, ◌^◌, Option, none, some, List, [], ◌∷◌, length, ltb,
  leb, ◌==◌, ◌&&◌, if◌then◌else◌,
}
use bytecode_vm.Prelude.Int.{i32_as_i64, is_neg64, wrapping_neg, u64_mod}
use bytecode_vm.Prelude.Result.{Result, ok, err}
use bytecode_vm.Bytecode.Opcode.{Opcode}
use bytecode_vm.Bytecode.Value.{Value, is_truthy, as_cap, as_int, type_name}
use bytecode_vm.Bytecode.Chunk.{FunctionDef, Instruction, function, constant}
use bytecode_vm.Vm.Fault.{Fault, NativeCallError, VmResult}
use bytecode_vm.Vm.Native.{NativeFn, get, check_native_gate}
use bytecode_vm.Vm.Machine.{Frame, Vm, Host, max_call_depth, enter}
use bytecode_vm.Vm.Monad.{M, ◌>>=◌, return, raise, lift, Stop, fault, panic}
use bytecode_vm.Vm.Registers.{get_reg, set_reg, pop_frame, fetch, jump_by, fresh_request_id}
use bytecode_vm.Vm.Arith.{binop, tag_from_value, request_id_from_value, reg_at, timeout_ms}

-- `none` lets the loop go on; a result ends the slice.
abbrev pub Outcome : Type 0
Outcome = Option VmResult

abbrev pub continue : M Outcome
continue = return none

abbrev pub finish : VmResult → M Outcome
finish r = return (some r)

-- The `n` arguments from `base + offset` on.
unfoldable pub gather : ℕ → ℕ → ℕ → M (List Value)
gather base offset zero = return []
gather base offset (suc n) = do
  reg ← lift (reg_at base offset)
  v ← get_reg reg
  rest ← gather base (suc offset) n
  return (v ∷ rest)

abbrev pub sleep_ms : Option ℕ → Value → Result Fault ℕ
sleep_ms none millis = err (Fault.type_mismatch "non-negative int" (type_name millis))
sleep_ms (some n) millis =
    if is_neg64 n then err (Fault.type_mismatch "non-negative int" (type_name millis)) else ok n

-- The jump is taken when the condition is falsy.
abbrev pub branch_on : Bool → ℕ → M Outcome
branch_on true imm = continue
branch_on false imm = do _ ← jump_by imm; continue

abbrev pub cap_in : Option ℕ → Value → Result Fault ℕ
cap_in (some c) v = ok c
cap_in none v = err (Fault.type_mismatch "cap" (type_name v))

abbrev pub cap_or_fault : Value → Result Fault ℕ
cap_or_fault v = cap_in (as_cap v) v

-- Register 255 stands for no operand.
abbrev pub native_operand : Bool → ℕ → M (Option ℕ)
native_operand true c = return none
native_operand false c = do v ← get_reg c; cap ← lift (cap_or_fault v); return (some cap)

abbrev pub message_or_fault : Value → Result Fault Value
message_or_fault (Value.message h p) = ok (Value.message h p)
message_or_fault v = err (Fault.type_mismatch "message" (type_name v))

abbrev pub str_or_fault : Value → Result Fault (List ℕ)
str_or_fault (Value.str s) = ok s
str_or_fault v = err (Fault.type_mismatch "str" (type_name v))

-- `u16::try_from(instr.imm)`, for a non-negative immediate
abbrev pub imm_tag : ℕ → Result Fault ℕ
imm_tag imm =
    if ltb imm 65536 then ok imm else err (Fault.type_mismatch "tag u16" "imm-out-of-range")

-- `u8::try_from(instr.imm)`
abbrev pub imm_reg : ℕ → Result Fault ℕ
imm_reg imm =
    if ltb imm 256 then ok imm else err (Fault.type_mismatch "millis register" "imm-out-of-range")

unfoldable pub push_frame : Frame → M (Unit {0})
push_frame frame vm = (ok tt, record vm { frames = frame ∷ vm.frames })

-- Copy the arguments, enter the function, and make its frame the top one.
abbrev pub call_function : Option FunctionDef → ℕ → ℕ → ℕ → M Outcome
call_function none dst argc index vm =
    raise (Fault.bad_function index (length (vm.chunk).functions)) vm
call_function (some def) dst argc index vm =
    (do
      args ← gather dst 0 argc
      frame ← lift (enter index def (some dst) args)
      _ ← push_frame frame
      continue)
      vm

-- The call, where `full` tells whether the stack is at its limit.
abbrev pub call_at : Bool → ℕ → ℕ → ℕ → M Outcome
call_at true dst argc index vm = raise (Fault.call_stack_overflow (length vm.frames)) vm
call_at false dst argc index vm = call_function (function vm.chunk index) dst argc index vm

-- `Opcode::Call`
unfoldable pub call : ℕ → ℕ → ℕ → M Outcome
call dst argc index vm = call_at (leb max_call_depth (length vm.frames)) dst argc index vm

abbrev pub native_fault : NativeCallError → ℕ → Fault
native_fault (NativeCallError.index_out_of_range index) size = Fault.bad_native index size
native_fault other size = Fault.native_denied other

-- `Value::Int(-x)`, which panics where `overflows` holds.
abbrev pub negate_int : Bool → ℕ → M Value
negate_int overflows x vm =
    if overflows then (err panic, vm) else (ok (Value.int (wrapping_neg x)), vm)

-- What follows a round: the rest of the loop, or the end of the slice.
abbrev pub proceed : (Vm → Option VmResult × Vm) → Result Stop Outcome × Vm → Option VmResult × Vm
proceed rest (ok none, vm) = rest vm
proceed rest (ok (some r), vm) = (some r, vm)
proceed rest (err (fault f), vm) = (some (VmResult.trap f), vm)
proceed rest (err panic, vm) = (none, vm)

module _ (host : Host) where
  abbrev pub call_checked :
      Result NativeCallError (Unit {0}) → Option NativeFn → ℕ → ℕ → ℕ → M Outcome
  call_checked (err e) f dst argc index vm = raise (native_fault e (length vm.natives)) vm
  call_checked (ok _) none dst argc index vm = raise (Fault.bad_native index (length vm.natives)) vm
  call_checked (ok _) (some native_fn) dst argc index vm =
      (do
        args ← gather dst 0 argc
        value ← lift (native_fn args)
        _ ← set_reg host dst value
        continue)
        vm

  -- `Opcode::CallNative`: the gate first, then the table, then the arguments.
  unfoldable pub call_native : ℕ → ℕ → ℕ → M Outcome
  call_native dst argc index vm =
      call_checked (check_native_gate vm.native_gate vm.natives index) (get vm.natives index) dst
        argc index vm

  abbrev pub store_const : Option Value → ℕ → ℕ → M Outcome
  store_const none a index vm = raise (Fault.bad_constant index (length (vm.chunk).constants)) vm
  store_const (some konst) a index vm = (do _ ← set_reg host a konst; continue) vm

  unfoldable pub load_const : ℕ → ℕ → M Outcome
  load_const a index vm = store_const (constant vm.chunk index) a index vm

  -- The negation of an integer is not a wrapping operation: on the least integer it panics in a
  -- build with overflow checks.
  unfoldable pub negate : Value → M Value
  negate (Value.int x) vm = negate_int (host.overflow_checks && x == 2 ^ 63) x vm
  negate (Value.float x) vm = (ok (Value.float (host.float_neg x)), vm)
  negate other vm = (err (fault (Fault.type_mismatch "int or float" (type_name other))), vm)

  unfoldable pub numeric_binop : Opcode → ℕ → ℕ → ℕ → M Outcome
  numeric_binop op dst lhs rhs = do
    a ← get_reg lhs
    b ← get_reg rhs
    result ← lift (binop host op a b)
    _ ← set_reg host dst result
    continue

  -- The arms of the `match` on the opcode.
  unfoldable pub execute : Opcode → ℕ → ℕ → ℕ → ℕ → M Outcome
  execute Opcode.halt a b c imm = do v ← get_reg 0; finish (VmResult.complete v)
  execute Opcode.nop a b c imm = continue
  execute Opcode.load_const a b c imm = load_const a imm
  execute Opcode.load_imm a b c imm = do _ ← set_reg host a (Value.int (i32_as_i64 imm)); continue
  execute Opcode.move a b c imm = do v ← get_reg b; _ ← set_reg host a v; continue
  execute Opcode.add a b c imm = numeric_binop Opcode.add a b c
  execute Opcode.sub a b c imm = numeric_binop Opcode.sub a b c
  execute Opcode.mul a b c imm = numeric_binop Opcode.mul a b c
  execute Opcode.div a b c imm = numeric_binop Opcode.div a b c
  execute Opcode.modulo a b c imm = numeric_binop Opcode.modulo a b c
  execute Opcode.eq a b c imm = numeric_binop Opcode.eq a b c
  execute Opcode.lt a b c imm = numeric_binop Opcode.lt a b c
  execute Opcode.le a b c imm = numeric_binop Opcode.le a b c
  execute Opcode.neg a b c imm = do
    v ← get_reg b
    negated ← negate v
    _ ← set_reg host a negated
    continue
  execute Opcode.jump a b c imm = do _ ← jump_by imm; continue
  execute Opcode.branch a b c imm = do cond ← get_reg a; branch_on (is_truthy cond) imm
  execute Opcode.call a b c imm = call a b imm
  execute Opcode.call_native a b c imm = call_native a b imm
  execute Opcode.return a b c imm = do v ← get_reg a; pop_frame host v
  execute Opcode.spawn a b c imm = do args ← gather a 1 b; finish (VmResult.spawn imm args a c)
  execute Opcode.yield a b c imm = finish VmResult.yielded
  execute Opcode.sleep a b c imm = do
    millis ← get_reg a
    ms ← lift (sleep_ms (as_int millis) millis)
    finish (VmResult.sleep ms)
  execute Opcode.exit a b c imm = do v ← get_reg a; finish (VmResult.complete v)
  execute Opcode.self_pid a b c imm = finish (VmResult.self_pid a)
  execute Opcode.send a b c imm = do
    target ← get_reg a
    message ← get_reg b
    cap ← lift (cap_or_fault target)
    hop ← lift (message_or_fault message)
    finish (VmResult.send cap hop)
  execute Opcode.receive a b c imm = finish (VmResult.receive a none none none)
  execute Opcode.receive_timeout a b c imm = do
    millis ← get_reg b
    finish (VmResult.receive a (some (timeout_ms millis)) none none)
  execute Opcode.receive_match a b c imm = do
    tag_v ← get_reg b
    tag ← lift (tag_from_value tag_v)
    finish (VmResult.receive a none (some tag) none)
  execute Opcode.receive_match_imm a b c imm = do
    tag ← lift (imm_tag imm)
    finish (VmResult.receive a none (some tag) none)
  execute Opcode.fresh_request_id a b c imm = do
    id ← fresh_request_id
    _ ← set_reg host a (Value.int id)
    continue
  execute Opcode.receive_match_corr a b c imm = do
    tag_v ← get_reg b
    tag ← lift (tag_from_value tag_v)
    id_v ← get_reg c
    rid ← lift (request_id_from_value id_v)
    finish (VmResult.receive a none (some tag) (some rid))
  execute Opcode.receive_match_corr_imm a b c imm = do
    tag ← lift (imm_tag imm)
    id_v ← get_reg b
    rid ← lift (request_id_from_value id_v)
    finish (VmResult.receive a none (some tag) (some rid))
  execute Opcode.ask a b c imm = do
    target ← get_reg b
    request ← get_reg c
    cap ← lift (cap_or_fault target)
    hop ← lift (message_or_fault request)
    finish (VmResult.ask a cap hop none)
  execute Opcode.ask_timeout a b c imm = do
    target ← get_reg b
    request ← get_reg c
    millis_reg ← lift (imm_reg imm)
    millis ← get_reg millis_reg
    cap ← lift (cap_or_fault target)
    hop ← lift (message_or_fault request)
    finish (VmResult.ask a cap hop (some (timeout_ms millis)))
  execute Opcode.monitor a b c imm = do
    target ← get_reg b
    cap ← lift (cap_or_fault target)
    finish (VmResult.monitor a cap)
  execute Opcode.demonitor a b c imm = finish (VmResult.demonitor a)
  execute Opcode.link a b c imm = do
    target ← get_reg b
    cap ← lift (cap_or_fault target)
    finish (VmResult.link a cap)
  execute Opcode.unlink a b c imm = finish (VmResult.unlink a)
  execute Opcode.register_name a b c imm = do
    name ← get_reg a
    s ← lift (str_or_fault name)
    finish (VmResult.register_name s)
  execute Opcode.whereis a b c imm = do
    name ← get_reg b
    s ← lift (str_or_fault name)
    finish (VmResult.whereis a s)
  execute Opcode.delegate a b c imm = do
    src ← get_reg b
    src_cap ← lift (cap_or_fault src)
    want_native_cap ← native_operand (c == 255) c
    finish (VmResult.delegate a src_cap imm want_native_cap)
  execute Opcode.trap a b c imm = finish (VmResult.trap (Fault.explicit imm))

  abbrev pub run_fetched : Option Instruction → M Outcome
  run_fetched (some instr) = execute instr.op instr.a instr.b instr.c instr.imm
  run_fetched none = pop_frame host Value.unit

  -- One round of the loop: count, fetch, execute. Past the end of the code a function returns unit.
  unfoldable pub round : M Outcome
  round vm =
      (do fetched ← fetch; run_fetched fetched)
        (record vm { instructions_executed = (vm.instructions_executed + 1) % u64_mod })

  -- `none` is a panic of the host program.
  unfoldable pub run : ℕ → Vm → Option VmResult × Vm
  run zero vm = (some VmResult.yielded, vm)
  run (suc budget) vm = proceed (run budget) (round vm)
