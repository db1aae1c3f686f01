-- ===== src/Vm/Safety/Run.antt =====
-- The loop on the budget, from a sound machine.
use bytecode_vm.Prelude.{ℕ, zero, suc, ◌+◌, ◌%◌, Option, none, some}
use bytecode_vm.Prelude.Result.{Result, ok, err}
use bytecode_vm.Prelude.Int.{u64_mod}
use bytecode_vm.Bytecode.Trust.{TrustLevel}
use bytecode_vm.Bytecode.Value.{Value}
use bytecode_vm.Bytecode.Chunk.{Instruction}
use bytecode_vm.Vm.Fault.{VmResult}
use bytecode_vm.Vm.Machine.{Vm, Host}
use bytecode_vm.Vm.Monad.{Stop, fault, panic}
use bytecode_vm.Vm.Registers.{fetch}
use bytecode_vm.Vm.Step.{Outcome, run_fetched, round, run, proceed}
use bytecode_vm.Vm.Safety.Post.{IsSound, Post, StepsWell, EndsWell}
use bytecode_vm.Vm.Safety.Frames.{pop_frame-Ensures}
use bytecode_vm.Vm.Safety.Reads.{Post-bind}
use bytecode_vm.Vm.Safety.Control.{IsReadyFor, fetch-Ensures}
use bytecode_vm.Vm.Safety.Execute.{execute-Post}

module _ (trust : TrustLevel) where
  -- What a slice leaves behind; nothing is said of a panic of the host program.
  abbrev pub SliceEndsWell : Option VmResult × Vm → Type 0
  SliceEndsWell (some r, vm) = EndsWell trust r vm
  SliceEndsWell (none, vm) = Unit

  IsSound-counted :
      (vm : Vm)
      → IsSound trust vm
      → IsSound trust
          (record vm { instructions_executed = (vm.instructions_executed + 1) % u64_mod })
  IsSound-counted vm s = record {
    verified = s.verified;
    code_short = s.code_short;
    natives_fail_well = s.natives_fail_well;
    stack_ok = s.stack_ok;
    depth_ok = s.depth_ok;
  }

  module _ (host : Host) where
    run_fetched-Post :
        (o : Option Instruction) (vm : Vm)
        → IsSound trust vm
        → IsReadyFor o vm
        → Post (StepsWell trust) (run_fetched host o vm)
    run_fetched-Post (some instr) vm s r =
        execute-Post trust host instr.op instr.a instr.b instr.c instr.imm vm s r
    run_fetched-Post none vm s r = (pop_frame-Ensures trust host Value.unit).apply vm s

    -- One round of the loop, from a sound machine: it leaves the machine sound if the loop goes on
    -- or the flow is suspended, and a fault that it raises is never a missing constant or function,
    -- an unknown opcode or an empty call stack.
    round-Post : (vm : Vm) → IsSound trust vm → Post (StepsWell trust) (round host vm)
    unfolding round
    round-Post vm s =
        let counted = record vm {
          instructions_executed = (vm.instructions_executed + 1) % u64_mod;
        } in
        Post-bind (λ r vm'. IsSound trust vm' × IsReadyFor r vm') (StepsWell trust) (fetch counted)
          (run_fetched host) ((fetch-Ensures trust).apply counted (IsSound-counted vm s))
          (λ o vm' h. run_fetched-Post o vm' h.0 h.1)

    proceed-SliceEndsWell :
        (rest : Vm → Option VmResult × Vm) (r : Result Stop Outcome × Vm)
        → Post (StepsWell trust) r
        → ((vm : Vm) → IsSound trust vm → SliceEndsWell (rest vm))
        → SliceEndsWell (proceed rest r)
    proceed-SliceEndsWell rest (ok none, vm) h k = k vm h
    proceed-SliceEndsWell rest (ok (some r), vm) h k = h
    proceed-SliceEndsWell rest (err (fault e), vm) h k = h
    proceed-SliceEndsWell rest (err panic, vm) h k = tt

    -- From a sound machine, a slice of any budget leaves the machine sound when it yields or
    -- suspends the flow, and a trap that ends it is never a missing constant, a missing function,
    -- an unknown opcode byte or an empty call stack. Nothing is said of a slice that ends in a
    -- panic of the host program.
    pub run-SliceEndsWell :
        (budget : ℕ) (vm : Vm) → IsSound trust vm → SliceEndsWell (run host budget vm)
    unfolding run
    run-SliceEndsWell zero vm s = s
    run-SliceEndsWell (suc budget) vm s =
        proceed-SliceEndsWell (run host budget) (round host vm) (round-Post vm s)
          (run-SliceEndsWell budget)
