-- ===== src/Vm/Registers.antt =====
-- vm/machine.rs: reading and writing registers, and moving between frames.
pub mod RequestIds
use bytecode_vm.Prelude.{
  ℕ, ◌+◌, zero, suc, ◌%◌, Bool, false, Option, none, some, List, [], ◌∷◌, length, get_elem?, set,
  ltb, ◌==◌, ◌&&◌, if◌then◌else◌,
}
use bytecode_vm.Prelude.Bytes.{same_bytes}
use bytecode_vm.Prelude.Int.{◌+ℤ◌, i32_val, i64_val, to_u64}
use bytecode_vm.Prelude.Result.{Result, ok, err}
use bytecode_vm.Bytecode.Value.{Value}
use bytecode_vm.Bytecode.Chunk.{Instruction}
use bytecode_vm.Scheduler.Quota.{QuotaError, FlowQuota, alloc, saturating_add}
use bytecode_vm.Vm.Fault.{Fault, Broken, VmResult}
use bytecode_vm.Vm.Machine.{Frame, Vm, Host}
use bytecode_vm.Vm.Monad.{M, Stop, ◌>>=◌, return, raise, lift, fault}

-- Only the top frame changes.
abbrev pub with_top : Vm → Frame → List Frame → Vm
with_top vm frame rest = record vm { frames = frame ∷ rest }

-- `Vm::current` and `frames.last()`, handed to the use that is made of it
abbrev pub on_top : {A : Type 0} → List Frame → (Frame → List Frame → M A) → M A
on_top [] use_top = raise (Fault.invariant Broken.empty_frame_stack)
on_top (frame ∷ rest) use_top = use_top frame rest

abbrev pub slot_value : List Value → ℕ → Option Value → Result Fault Value
slot_value registers reg (some v) = ok v
slot_value registers reg none = err (Fault.register_out_of_range reg (length registers % 256))

abbrev pub read_slot : List Value → ℕ → Result Fault Value
read_slot registers reg = slot_value registers reg (get_elem? registers reg)

unfoldable pub get_reg : ℕ → M Value
get_reg reg vm = on_top vm.frames (λ frame rest. lift (read_slot frame.registers reg)) vm

abbrev pub peek : List Frame → ℕ → Option Value
peek [] reg = none
peek (frame ∷ rest) reg = get_elem? frame.registers reg

-- `map_err(|e| Fault::QuotaExceeded(e.to_string()))`
abbrev pub quota_fault : Result QuotaError FlowQuota → Result Fault FlowQuota
quota_fault (ok q) = ok q
quota_fault (err e) = err (Fault.quota_exceeded e)

unfoldable pub alloc_bytes : FlowQuota → ℕ → Result Fault FlowQuota
alloc_bytes quota n = if n == 0 then ok quota else quota_fault (alloc quota n)

-- Empty buffers are free, and so is everything that is no buffer.
unfoldable pub charge_heap_value : FlowQuota → Value → Result Fault FlowQuota
charge_heap_value quota (Value.str s) = alloc_bytes quota (length s)
charge_heap_value quota (Value.bytes b) = alloc_bytes quota (length b)
charge_heap_value quota _ = ok quota

-- Whether the old value of a register holds the same buffer, given the answer of `Arc::ptr_eq`.
unfoldable pub same_buffer : Bool → Value → Option Value → Bool
same_buffer same (Value.str s) (some (Value.str old)) = same && same_bytes s old
same_buffer same (Value.bytes b) (some (Value.bytes old)) = same && same_bytes b old
same_buffer same _ _ = false

abbrev pub kept_quota : Result Fault FlowQuota → Result Fault (Option FlowQuota)
kept_quota (ok q) = ok (some q)
kept_quota (err e) = err e

-- The quota after the charge for a store, where there is a quota.
unfoldable pub charge_for : Bool → Option FlowQuota → Value → Result Fault (Option FlowQuota)
charge_for same none value = ok none
charge_for same (some quota) value =
    if same then ok (some quota) else kept_quota (charge_heap_value quota value)

abbrev pub put_quota : Result Fault (Option FlowQuota) → M (Unit {0})
put_quota (ok quota) vm = (ok tt, record vm { quota = quota })
put_quota (err e) vm = (err (fault e), vm)

abbrev pub top_size : List Frame → ℕ
top_size [] = 0
top_size (frame ∷ rest) = length frame.registers % 256

-- What a return makes of the store of its value.
abbrev pub delivered : ℕ → Result Stop (Unit {0}) × Vm → Result Stop (Option VmResult) × Vm
delivered dest (ok _, vm) = (ok none, vm)
delivered dest (err _, vm) =
    (ok (some (VmResult.trap (Fault.register_out_of_range dest (top_size vm.frames)))), vm)

module _ (host : Host) where
  unfoldable pub charge_register_store : ℕ → Value → M (Unit {0})
  charge_register_store reg value vm =
      let same = same_buffer (host.same_arc vm.instructions_executed) value (peek vm.frames reg) in
      put_quota (charge_for same vm.quota value) vm

  abbrev pub write_slot : ℕ → Value → Frame → List Frame → M (Unit {0})
  write_slot reg value frame rest vm =
      if ltb reg (length frame.registers)
      then (ok tt, with_top vm (record frame { registers = set frame.registers reg value }) rest)
      else (err (fault (Fault.register_out_of_range reg (length frame.registers % 256))), vm)

  unfoldable pub store : ℕ → Value → M (Unit {0})
  store reg value vm = on_top vm.frames (write_slot reg value) vm

  -- The charge comes first, also for a register that is not there.
  unfoldable pub set_reg : ℕ → Value → M (Unit {0})
  set_reg reg value = do _ ← charge_register_store reg value; store reg value

  -- Deliver a return value. A failed store is reported as a register out of range.
  unfoldable pub deliver : ℕ → Value → M (Option VmResult)
  deliver dest value vm = delivered dest (set_reg dest value vm)

  abbrev pub finish_frame : Option ℕ → Value → M (Option VmResult)
  finish_frame (some dest) value = deliver dest value
  finish_frame none value = return (some (VmResult.complete value))

  abbrev pub pop_from : List Frame → Value → M (Option VmResult)
  pop_from [] value vm = (err (fault (Fault.invariant Broken.pop_on_empty)), vm)
  pop_from (finished ∷ rest) value vm =
      finish_frame finished.dest_reg value (record vm { frames = rest })

  unfoldable pub pop_frame : Value → M (Option VmResult)
  pop_frame value vm = pop_from vm.frames value vm

-- Fetch the instruction at the top frame's counter, and advance the counter.
abbrev pub fetched_from : Frame → List Frame → Option Instruction → M (Option Instruction)
fetched_from frame rest (some instr) vm =
    (ok (some instr), with_top vm (record frame { pc = frame.pc + 1 }) rest)
fetched_from frame rest none vm = (ok none, vm)

abbrev pub fetch_from : Frame → List Frame → M (Option Instruction)
fetch_from frame rest vm = fetched_from frame rest (get_elem? (vm.chunk).code frame.pc) vm

unfoldable pub fetch : M (Option Instruction)
fetch vm = on_top vm.frames fetch_from vm

-- `frame.pc as i64 + imm as i64`, back `as usize`. A frame that has just fetched stands within the
-- code or at its end, so the sum does not overflow.
unfoldable pub jump_by : ℕ → M (Unit {0})
jump_by imm vm =
    on_top vm.frames
      (λ frame rest vm.
        (ok tt, with_top vm (record frame { pc = to_u64 (i64_val frame.pc +ℤ i32_val imm) }) rest))
      vm

-- The id, and the counter after it. `0` is never handed out.
unfoldable pub fresh_id : ℕ → ℕ × ℕ
fresh_id zero = (1, 2)
fresh_id (suc n) = (suc n, saturating_add (suc n) 1)

unfoldable pub fresh_request_id : M ℕ
fresh_request_id vm =
    let (id, next) = fresh_id vm.next_request_id in (ok id, record vm { next_request_id = next })
