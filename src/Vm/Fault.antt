-- ===== src/Vm/Fault.antt =====
-- vm/fault.rs and vm/result.rs: how a slice of execution ends.
--
-- Where the source renders an error into a string, the model keeps the error itself.
use Prim.Native.String.{String}
use bytecode_vm.Prelude.{ℕ, List, Option}
use bytecode_vm.Bytecode.Value.{Value}
use bytecode_vm.Scheduler.Quota.{QuotaError}

-- The messages of `Fault::Invariant`.
pub data Broken : Type 0 where
  empty_frame_stack pop_on_empty non_arithmetic_opcode : Broken

pub data NativeCallError : Type 0 where
  no_native_right : NativeCallError
  index_not_allowlisted : ℕ → NativeCallError
  index_out_of_range : ℕ → NativeCallError
  revoked : NativeCallError

pub data Fault : Type 0 where
  divide_by_zero : Fault
  register_out_of_range : ℕ → ℕ → Fault
  register_index_overflow : ℕ → ℕ → Fault
  bad_constant : ℕ → ℕ → Fault
  bad_function : ℕ → ℕ → Fault
  bad_opcode_byte : ℕ → Fault
  call_stack_overflow : ℕ → Fault
  type_mismatch : String → String → Fault
  bad_native : ℕ → ℕ → Fault
  native_error : String → Fault
  native_denied : NativeCallError → Fault
  explicit : ℕ → Fault
  invariant : Broken → Fault
  quota_exceeded : QuotaError → Fault

-- A duration is its milliseconds.
pub data VmResult : Type 0 where
  complete : Value → VmResult
  yielded : VmResult
  sleep : ℕ → VmResult
  spawn : ℕ → List Value → ℕ → ℕ → VmResult
  self_pid : ℕ → VmResult
  send : ℕ → Value → VmResult
  receive : ℕ → Option ℕ → Option ℕ → Option ℕ → VmResult
  ask : ℕ → ℕ → Value → Option ℕ → VmResult
  monitor : ℕ → ℕ → VmResult
  demonitor : ℕ → VmResult
  link : ℕ → ℕ → VmResult
  unlink : ℕ → VmResult
  register_name : List ℕ → VmResult
  whereis : ℕ → List ℕ → VmResult
  delegate : ℕ → ℕ → ℕ → Option ℕ → VmResult
  trap : Fault → VmResult
