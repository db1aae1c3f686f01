-- ===== src/Tests/Vm.antt =====
-- The machine on the small program.
use bytecode_vm.Prelude.Int.{u64_mod}
use bytecode_vm.Vm.Registers.{fresh_id}
use bytecode_vm.Vm.Registers.RequestIds.{fresh_id-fresh}
use bytecode_vm.Prelude.{
  ◌+◌, ◌<◌, ◌≤◌, ◌≢◌, ℕ, ◌≡◌, ◌↔◌, true, refl, none, some, [], ◌∷◌, length, arith,
}
use bytecode_vm.Prelude.Result.{ok}
use bytecode_vm.Bytecode.Trust.{untrusted}
use bytecode_vm.Bytecode.Value.{Value}
use bytecode_vm.Bytecode.Verify.{
  verify_with, validate_constant, validate_function, validate_instruction, validate_op, target_ok,
}
use bytecode_vm.Bytecode.Verify.Loop.{for_each}
use bytecode_vm.Bytecode.Verify.Sound.{verify_with-eq-ok}
use bytecode_vm.Scheduler.Quota.{FlowQuota}
use bytecode_vm.Vm.Fault.{VmResult}
use bytecode_vm.Bytecode.Cap.{
  Cap, CapTarget, native_right, is_valid, contains, allows, attenuate, attenuate_mask, intersect,
  intersect_mask,
}
use bytecode_vm.Vm.Native.{NativeTable, get, from_authority, check_native_call, check_native_gate}
use bytecode_vm.Vm.Gate.{
  IsOpen, check_native_gate-eq-ok, check_native_gate-from_authority, check_native_call-attenuate,
}
use bytecode_vm.Vm.Machine.{Vm, with_native_gate, enter, load_args}
use bytecode_vm.Vm.Registers.{
  get_reg, charge_for, charge_register_store, store, set_reg, deliver, pop_frame, fetch,
}
use bytecode_vm.Vm.Arith.{binop, reg_at}
use bytecode_vm.Vm.Step.{gather, push_frame, call, load_const, numeric_binop, execute, round, run}
use bytecode_vm.Vm.Resume.{set_quota, resume_with, return_value}
use bytecode_vm.Vm.Safety.Post.{NativesFailWell, IsSound, Safely, Ensures, StepsWell}
use bytecode_vm.Vm.Safety.Run.{SliceEndsWell, run-SliceEndsWell}
use bytecode_vm.Vm.Safety.Start.{with_native_gate-IsSound, between_slices}
use bytecode_vm.Tests.Program.{doubling, host, closed_gate, machine}

-- The program doubles 5 in six instructions; with a budget of five it yields.
completes : (run host 6 machine).0 ≡ some (VmResult.complete (Value.int 10))
unfolding run round fetch execute load_const numeric_binop binop call gather reg_at push_frame enter
    load_args get_reg set_reg charge_register_store charge_for store pop_frame deliver
completes = refl

yields : (run host 5 machine).0 ≡ some VmResult.yielded
unfolding run round fetch execute load_const numeric_binop binop call gather reg_at push_frame enter
    load_args get_reg set_reg charge_register_store charge_for store pop_frame deliver
yields = refl

doubling_verified : verify_with doubling untrusted ≡ ok tt
unfolding verify_with for_each validate_constant validate_function validate_instruction validate_op
    target_ok
doubling_verified = refl

no_natives : NativesFailWell []
unfolding get
no_natives index f args e h k = cc

machine-IsSound : IsSound untrusted machine
machine-IsSound = record {
  verified = (verify_with-eq-ok doubling untrusted).0 doubling_verified;
  code_short = omega arith;
  natives_fail_well = no_natives;
  stack_ok = (omega arith, refl);
  depth_ok = omega arith;
}

with_native_gate-IsSound_example :
    (vm : Vm) × (with_native_gate doubling [] closed_gate 0 [] ≡ ok vm) × IsSound untrusted vm
with_native_gate-IsSound_example =
    with_native_gate-IsSound untrusted doubling [] closed_gate 0 [] doubling_verified (omega arith)
      no_natives (omega arith)

run-SliceEndsWell_example : SliceEndsWell untrusted (run host 100 machine)
run-SliceEndsWell_example = run-SliceEndsWell untrusted host 100 machine machine-IsSound

between_slices_example :
    ((quota : FlowQuota) → Safely untrusted (λ _. Unit {0}) (set_quota quota))
    × ((reg : ℕ) (value : Value) → Safely untrusted (λ _. Unit {0}) (resume_with host reg value))
    × ((value : Value) → Ensures untrusted (StepsWell untrusted) (return_value host value))
between_slices_example = between_slices untrusted host

-- A capability with the native right, for the natives 0 and 3, and a table of two functions.
caller : Cap
caller = record {
  target = CapTarget.native_table;
  rights = native_right;
  native_mask = some (9 ∷ []);
  epoch = 4;
}

two_natives : NativeTable
two_natives = some (b'f' ∷ [], λ args. ok Value.unit) ∷ none ∷ []

check_native_gate-eq-ok_example :
    (check_native_gate closed_gate two_natives 0 ≡ ok tt) ↔ IsOpen closed_gate two_natives 0
check_native_gate-eq-ok_example = check_native_gate-eq-ok closed_gate two_natives 0

check_native_gate-from_authority_example :
    (check_native_gate (from_authority caller 4 0 (length two_natives)) two_natives 0 ≡ ok tt)
    ↔ ((check_native_call caller two_natives 0 ≡ ok tt) × (is_valid caller 4 ≡ true))
check_native_gate-from_authority_example = check_native_gate-from_authority caller 4 0 two_natives 0

check_native_call-attenuate_example : check_native_call caller two_natives 0 ≡ ok tt
unfolding caller two_natives check_native_call contains allows attenuate attenuate_mask intersect
    intersect_mask
check_native_call-attenuate_example =
    check_native_call-attenuate caller native_right (some (1 ∷ [])) two_natives 0 refl

fresh_id-fresh_example :
    ((fresh_id 7).0 ≢ 0)
    × (7 ≤ (fresh_id 7).0)
    × ((fresh_id 7).1 < u64_mod)
    × ((fresh_id 7).0 + 1 < u64_mod → (fresh_id 7).0 < (fresh_id 7).1)
fresh_id-fresh_example = fresh_id-fresh 7 (omega arith)
