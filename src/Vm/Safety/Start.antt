-- ===== src/Vm/Safety/Start.antt =====
-- A machine for a verified chunk starts sound, and what the scheduler does to it keeps it sound.
use bytecode_vm.Prelude.{
  ℕ, zero, suc, ◌+◌, ◌≤◌, ◌<◌, ◌^◌, ◌≡◌, refl, Bool, true, false, ltb, if◌then◌else◌, none, some,
  List, [], ◌∷◌, length, set, replicate, length-set, length-replicate, get_elem?-some, arith, ap,
  ◌∙◌,
}
use bytecode_vm.Prelude.Result.{Result, ok, err, ◌>>=◌}
use bytecode_vm.Bytecode.Trust.{TrustLevel}
use bytecode_vm.Bytecode.Value.{Value}
use bytecode_vm.Bytecode.Chunk.{Chunk, FunctionDef}
use bytecode_vm.Bytecode.Verify.{verify_with}
use bytecode_vm.Bytecode.Verify.Sound.{IsVerified, verify_with-eq-ok}
use bytecode_vm.Scheduler.Quota.{FlowQuota}
use bytecode_vm.Vm.Fault.{Fault}
use bytecode_vm.Vm.Native.{NativeTable, NativeGate}
use bytecode_vm.Vm.Machine.{Frame, Vm, Host, load_args, enter, start, with_native_gate}
use bytecode_vm.Vm.Registers.{charge_heap_value}
use bytecode_vm.Vm.Resume.{charge_slots, charge_frames, set_quota, resume_with, return_value}
use bytecode_vm.Vm.Safety.Post.{NativesFailWell, IsSound, Safely, Ensures, StepsWell}
use bytecode_vm.Vm.Safety.Frames.{
  FailsWell, succeeds, fails, charge_heap_value-FailsWell, kept_quota-FailsWell, put_quota-Post,
  set_reg-Safely, pop_frame-Ensures,
}

if-ok {ℓ} : {A : Type ℓ} (b : Bool) (x y : A) → b ≡ true → (if b then x else y) ≡ x
if-ok true x y h = refl
if-ok false x y h = cc

-- Arguments within the register file are copied without a fault.
load_args-ok :
    (num_registers i k : ℕ) (args registers : List Value)
    → i + k ≤ length registers
    → (filled : List Value) × (load_args num_registers i k args registers ≡ ok filled)
unfolding load_args
load_args-ok num_registers i zero args registers h = (registers, refl)
load_args-ok num_registers i (suc k) [] registers h = (registers, refl)
load_args-ok num_registers i (suc k) (arg ∷ args) registers h =
    let (filled, e) =
      load_args-ok num_registers (suc i) k args (set registers i arg)
        (omega (arith, length-set registers i arg)) in
    (filled, if-ok (ltb i (length registers)) _ _ (ground arith) ∙ e)

enter-ok :
    (index : ℕ) (def : FunctionDef) (args : List Value)
    → def.arity ≤ def.num_registers
    → (frame : Frame) × (enter index def none args ≡ ok frame)
      × (frame.pc ≡ def.entry)
      × (frame.dest_reg ≡ none)
unfolding enter
enter-ok index def args h =
    let (filled, e) =
      load_args-ok def.num_registers 0 def.arity args (replicate def.num_registers Value.unit)
        (omega (arith, length-replicate def.num_registers Value.unit)) in
    (
      record { function = index; pc = def.entry; registers = filled; dest_reg = none },
      ap
          (λ r. r >>= λ registers.
            ok
              (record { function = index; pc = def.entry; registers = registers; dest_reg = none }))
          e,
      refl,
      refl,
    )

start-IsSound :
    (trust : TrustLevel) (chunk : Chunk) (natives : NativeTable) (gate : NativeGate) (index : ℕ)
    (args : List Value) (def : FunctionDef)
    → IsVerified chunk trust
    → length chunk.code < 2 ^ 63
    → NativesFailWell natives
    → (def.entry < length chunk.code) × (def.arity ≤ def.num_registers)
    → (vm : Vm) × (start chunk natives gate index args (some def) ≡ ok vm) × IsSound trust vm
start-IsSound trust chunk natives gate index args def v short well (inside, fits) =
    let (frame, e, hpc, hd) = enter-ok index def args fits in
    let begin : Frame → Vm = λ f. record {
      chunk = chunk;
      natives = natives;
      native_gate = gate;
      frames = f ∷ [];
      instructions_executed = 0;
      next_request_id = 1;
      quota = none;
    } in
    (
      begin frame,
      ap (λ r. r >>= λ f. ok (begin f)) e,
      record {
        verified = v;
        code_short = short;
        natives_fail_well = well;
        stack_ok = (omega (arith, hpc), hd);
        depth_ok = omega arith;
      },
    )

-- For a chunk that the verifier accepts, with less than 2 ^ 63 instructions, host functions that
-- raise only faults that the machine itself may raise, and an index of its function table: the
-- machine starts on any arguments, and it starts sound.
pub with_native_gate-IsSound :
    (trust : TrustLevel) (chunk : Chunk) (natives : NativeTable) (gate : NativeGate) (index : ℕ)
    (args : List Value)
    → verify_with chunk trust ≡ ok tt
    → length chunk.code < 2 ^ 63
    → NativesFailWell natives
    → index < length chunk.functions
    → (vm : Vm) × (with_native_gate chunk natives gate index args ≡ ok vm) × IsSound trust vm
unfolding with_native_gate
with_native_gate-IsSound trust chunk natives gate index args h short well found =
    let v = (verify_with-eq-ok chunk trust).0 h in
    let (def, e) = get_elem?-some chunk.functions index found in
    let (vm, started, s) =
      start-IsSound trust chunk natives gate index args def v short well
        (v.functions_fit index def e) in
    (vm, ap (start chunk natives gate index args) e ∙ started, s)

bind-FailsWell :
    {A B : Type 0} (r : Result Fault A) (f : A → Result Fault B)
    → FailsWell r
    → ((a : A) → FailsWell (f a))
    → FailsWell (r >>= f)
bind-FailsWell (ok a) f h k = k a
bind-FailsWell (err e) f (fails h) k = fails h

charge_slots-FailsWell :
    (trust : TrustLevel) (slots : List Value) (quota : FlowQuota)
    → FailsWell (charge_slots slots quota)
unfolding charge_slots
charge_slots-FailsWell trust [] quota = succeeds
charge_slots-FailsWell trust (slot ∷ slots) quota =
    bind-FailsWell (charge_heap_value quota slot) (charge_slots slots)
      (charge_heap_value-FailsWell trust quota slot) (charge_slots-FailsWell trust slots)

charge_frames-FailsWell :
    (trust : TrustLevel) (frames : List Frame) (quota : FlowQuota)
    → FailsWell (charge_frames frames quota)
unfolding charge_frames
charge_frames-FailsWell trust [] quota = succeeds
charge_frames-FailsWell trust (frame ∷ callers) quota =
    bind-FailsWell (charge_frames callers quota) (charge_slots frame.registers)
      (charge_frames-FailsWell trust callers quota) (charge_slots-FailsWell trust frame.registers)

module _ (trust : TrustLevel) (host : Host) where
  -- Attaching a quota, resuming a suspended flow with a value, and returning a value from its top
  -- frame each keep a sound machine sound, or fail with an allowed fault; a return that ends the
  -- flow may leave any machine.
  pub between_slices :
      ((quota : FlowQuota) → Safely trust (λ _. Unit {0}) (set_quota quota))
      × ((reg : ℕ) (value : Value) → Safely trust (λ _. Unit {0}) (resume_with host reg value))
      × ((value : Value) → Ensures trust (StepsWell trust) (return_value host value))
  unfolding set_quota resume_with return_value
  between_slices = (
    λ quota. record {
      apply = λ vm s.
          put_quota-Post trust _ vm s
            (kept_quota-FailsWell trust _ (charge_frames-FailsWell trust vm.frames quota));
    },
    λ reg value. set_reg-Safely trust host reg value,
    λ value. pop_frame-Ensures trust host value,
  )
