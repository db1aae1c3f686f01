-- ===== src/Vm/Resume.antt =====
-- vm/machine.rs: what the scheduler asks of a machine between two slices.
use bytecode_vm.Prelude.{ℕ, ◌%◌, Option, none, some, List, [], ◌∷◌, length}
use bytecode_vm.Prelude.Result.{Result, ok, ◌>>=◌}
use bytecode_vm.Bytecode.Value.{Value}
use bytecode_vm.Scheduler.Quota.{FlowQuota}
use bytecode_vm.Vm.Fault.{Fault, VmResult}
use bytecode_vm.Vm.Machine.{Frame, Vm, Host}
use bytecode_vm.Vm.Monad.{M}
use bytecode_vm.Vm.Registers.{charge_heap_value, set_reg, pop_frame, put_quota, kept_quota}

unfoldable pub charge_slots : List Value → FlowQuota → Result Fault FlowQuota
charge_slots [] quota = ok quota
charge_slots (slot ∷ slots) quota = charge_heap_value quota slot >>= charge_slots slots

-- The outermost frame is charged first.
unfoldable pub charge_frames : List Frame → FlowQuota → Result Fault FlowQuota
charge_frames [] quota = ok quota
charge_frames (frame ∷ callers) quota = charge_frames callers quota >>= charge_slots frame.registers

-- The quota is attached once all registers are charged to it.
unfoldable pub set_quota : FlowQuota → M (Unit {0})
set_quota quota vm = put_quota (kept_quota (charge_frames vm.frames quota)) vm

-- `0` stands for no frame.
unfoldable pub current_function : Vm → ℕ
current_function vm = elim vm.frames [ [] ↦ 0 | frame ∷ _ ↦ frame.function ]

unfoldable pub current_pc : Vm → Option ℕ
current_pc vm = elim vm.frames [ [] ↦ none | frame ∷ _ ↦ some frame.pc ]

unfoldable pub current_num_registers : Vm → Option ℕ
current_num_registers vm = elim vm.frames [
  | [] ↦ none
  | frame ∷ _ ↦ some (length frame.registers % 256)
]

module _ (host : Host) where
  unfoldable pub resume_with : ℕ → Value → M (Unit {0})
  resume_with dest_reg value = set_reg host dest_reg value

  unfoldable pub return_value : Value → M (Option VmResult)
  return_value value = pop_frame host value
