-- ===== src/Vm/Safety/Post.antt =====
-- The invariant of a machine that runs verified code, and postconditions of its computations.
use bytecode_vm.Prelude.{ℕ, ◌^◌, ◌≤◌, ◌<◌, ◌≡◌, Option, none, some, List, [], ◌∷◌, length}
use bytecode_vm.Prelude.Result.{Result, ok, err}
use bytecode_vm.Bytecode.Trust.{TrustLevel}
use bytecode_vm.Bytecode.Value.{Value}
use bytecode_vm.Bytecode.Chunk.{Chunk}
use bytecode_vm.Bytecode.Verify.Sound.{IsVerified}
use bytecode_vm.Vm.Fault.{Fault, Broken, VmResult}
use bytecode_vm.Vm.Native.{NativeTable, NativeFn, get}
use bytecode_vm.Vm.Machine.{Frame, Vm, max_call_depth}
use bytecode_vm.Vm.Monad.{M, ◌>>=◌, after, Stop, fault, panic}

-- The faults that verified code never raises: a missing constant or function, an unknown opcode,
-- and an empty call stack.
abbrev pub IsAllowedFault : Fault → Type 0
IsAllowedFault (Fault.bad_constant _ _) = ⊥
IsAllowedFault (Fault.bad_function _ _) = ⊥
IsAllowedFault (Fault.bad_opcode_byte _) = ⊥
IsAllowedFault (Fault.invariant Broken.empty_frame_stack) = ⊥
IsAllowedFault (Fault.invariant Broken.pop_on_empty) = ⊥
IsAllowedFault _ = Unit

-- A host function may fail, with a fault of those that the machine itself may raise.
abbrev pub NativesFailWell : NativeTable → Type 0
NativesFailWell natives =
    (index : ℕ) (f : NativeFn) (args : List Value) (e : Fault)
    → get natives index ≡ some f
    → f args ≡ err e
    → IsAllowedFault e

-- Every frame stands inside the code or at its end; each but the outermost has a register of its
-- caller to return to, and the outermost has none.
abbrev pub StackOk : Chunk → List Frame → Type 0
StackOk chunk [] = ⊥
StackOk chunk (frame ∷ []) = (frame.pc ≤ length chunk.code) × (frame.dest_reg ≡ none)
StackOk chunk (frame ∷ caller ∷ rest) =
    (frame.pc ≤ length chunk.code)
    × ((dest : ℕ) × (frame.dest_reg ≡ some dest))
    × StackOk chunk (caller ∷ rest)

pub record IsSound (trust : TrustLevel) (vm : Vm) : Type 0 where
  pub verified : IsVerified vm.chunk trust
  pub code_short : length (vm.chunk).code < 2 ^ 63
  pub natives_fail_well : NativesFailWell vm.natives
  pub stack_ok : StackOk vm.chunk vm.frames
  pub depth_ok : length vm.frames ≤ max_call_depth

module _ (trust : TrustLevel) where
  -- Where a slice ends. After a suspension the machine can be resumed; after a result or a trap it
  -- is not run again.
  abbrev pub EndsWell : VmResult → Vm → Type 0
  EndsWell (VmResult.complete _) vm = Unit
  EndsWell (VmResult.trap e) vm = IsAllowedFault e
  EndsWell _ vm = IsSound trust vm

  abbrev pub StepsWell : Option VmResult → Vm → Type 0
  StepsWell none vm = IsSound trust vm
  StepsWell (some r) vm = EndsWell r vm

  abbrev pub Keeps : {A : Type 0} → (A → Type 0) → A → Vm → Type 0
  Keeps P a vm = P a × IsSound trust vm

-- `P` of a result and the state after it; a fault is an allowed one.
abbrev pub Post : {A : Type 0} → (A → Vm → Type 0) → Result Stop A × Vm → Type 0
Post P (ok a, vm) = P a vm
Post P (err (fault e), vm) = IsAllowedFault e
Post P (err panic, vm) = Unit

-- From a sound machine the computation ends in `P`.
pub record Ensures (trust : TrustLevel) {A : Type 0} (P : A → Vm → Type 0) (m : M A) : Type 0 where
  pub apply : (vm : Vm) → IsSound trust vm → Post P (m vm)

module _ (trust : TrustLevel) where
  abbrev pub Safely : {A : Type 0} → (A → Type 0) → M A → Type 0
  Safely P m = Ensures trust (Keeps trust P) m

  after-Post :
      {A B : Type 0} (P : A → Type 0) (Q : B → Vm → Type 0) (r : Result Stop A × Vm) (f : A → M B)
      → Post (Keeps trust P) r
      → ((a : A) → P a → Ensures trust Q (f a))
      → Post Q (after r f)
  after-Post P Q (ok a, vm) f (pa, sound) k = (k a pa).apply vm sound
  after-Post P Q (err (fault e), vm) f h k = h
  after-Post P Q (err panic, vm) f h k = tt

  pub Ensures-bind :
      {A B : Type 0} {P : A → Type 0} {Q : B → Vm → Type 0} {m : M A} {f : A → M B}
      → Ensures trust (Keeps trust P) m
      → ((a : A) → P a → Ensures trust Q (f a))
      → Ensures trust Q (m >>= f)
  Ensures-bind {P} {Q} {m} {f} h k = record {
    apply = λ vm sound. after-Post P Q (m vm) f (h.apply vm sound) k;
  }
