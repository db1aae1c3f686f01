-- ===== src/Vm/Machine.antt =====
-- vm/machine.rs and vm/frame.rs: the state of one flow's machine, and how it starts.
--
-- Frames are listed from the top of the call stack down.
use bytecode_vm.Prelude.{
  ℕ, zero, suc, Bool, Option, none, some, List, [], ◌∷◌, length, set, replicate, ltb, if◌then◌else◌,
}
use bytecode_vm.Prelude.Result.{Result, ok, err, ◌>>=◌}
use bytecode_vm.Bytecode.Value.{Value}
use bytecode_vm.Bytecode.Chunk.{FunctionDef, Chunk, function}
use bytecode_vm.Scheduler.Quota.{FlowQuota}
use bytecode_vm.Vm.Fault.{Fault}
use bytecode_vm.Vm.Native.{NativeTable, NativeGate, deny}

abbrev pub max_call_depth : ℕ
max_call_depth = 4096

pub record Frame : Type 0 where
  pub function : ℕ
  pub pc : ℕ
  pub registers : List Value
  pub dest_reg : Option ℕ

abbrev pub new_frame : ℕ → ℕ → Option ℕ → Frame
new_frame function num_registers dest_reg = record {
  function = function;
  pc = 0;
  registers = replicate num_registers Value.unit;
  dest_reg = dest_reg;
}

pub record Vm : Type 0 where
  pub chunk : Chunk
  pub natives : NativeTable
  pub native_gate : NativeGate
  pub frames : List Frame
  pub instructions_executed : ℕ
  pub next_request_id : ℕ
  pub quota : Option FlowQuota

-- What the source leaves to Rust and to the build. Floats are `f64` patterns with IEEE operations;
-- `same_arc n` tells whether the value stored by the n-th instruction and the value of equal content
-- in its register are one `Arc`; `overflow_checks` is the compiler's switch of that name.
pub record Host : Type 0 where
  pub float_add : ℕ → ℕ → ℕ
  pub float_sub : ℕ → ℕ → ℕ
  pub float_mul : ℕ → ℕ → ℕ
  pub float_div : ℕ → ℕ → ℕ
  pub float_neg : ℕ → ℕ
  pub float_eq : ℕ → ℕ → Bool
  pub float_lt : ℕ → ℕ → Bool
  pub float_le : ℕ → ℕ → Bool
  pub int_to_float : ℕ → ℕ
  pub same_arc : ℕ → Bool
  pub overflow_checks : Bool

-- The loop that copies arguments into a fresh frame: argument `i` of those left, for so many
-- parameters.
unfoldable pub load_args : ℕ → ℕ → ℕ → List Value → List Value → Result Fault (List Value)
load_args num_registers i zero args registers = ok registers
load_args num_registers i (suc k) [] registers = ok registers
load_args num_registers i (suc k) (arg ∷ args) registers =
    if ltb i (length registers)
    then load_args num_registers (suc i) k args (set registers i arg)
    else err (Fault.register_out_of_range i num_registers)

-- The frame of a call: its registers hold the arguments, and it starts at the function's entry.
unfoldable pub enter : ℕ → FunctionDef → Option ℕ → List Value → Result Fault Frame
enter index def dest_reg args =
    load_args def.num_registers 0 def.arity args (replicate def.num_registers Value.unit)
    >>= λ registers.
        ok (record { function = index; pc = def.entry; registers = registers; dest_reg = dest_reg })

-- A machine at the start of the function that was found.
abbrev pub start :
    Chunk → NativeTable → NativeGate → ℕ → List Value → Option FunctionDef → Result Fault Vm
start chunk natives native_gate index args none =
    err (Fault.bad_function index (length chunk.functions))
start chunk natives native_gate index args (some def) = do
  frame ← enter index def none args
  ok (record {
    chunk = chunk;
    natives = natives;
    native_gate = native_gate;
    frames = frame ∷ [];
    instructions_executed = 0;
    next_request_id = 1;
    quota = none;
  })

-- `Vm::with_native_gate`
unfoldable pub with_native_gate :
    Chunk → NativeTable → NativeGate → ℕ → List Value → Result Fault Vm
with_native_gate chunk natives native_gate index args =
    start chunk natives native_gate index args (function chunk index)

-- `Vm::new`: native calls are denied.
unfoldable pub new : Chunk → NativeTable → ℕ → List Value → Result Fault Vm
new chunk natives index args = with_native_gate chunk natives (deny (length natives)) index args
