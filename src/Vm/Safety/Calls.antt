-- ===== src/Vm/Safety/Calls.antt =====
-- Calls of functions and of natives keep the machine sound.
use bytecode_vm.Prelude.{
  ℕ, zero, suc, ◌≤◌, ◌<◌, ◌≡◌, refl, Bool, true, false, leb, ltb, Option, none, some, List, [], ◌∷◌,
  length, set, get_elem?-some, arith,
}
use bytecode_vm.Prelude.Result.{Result, ok, err, ◌>>=◌ as bind}
use bytecode_vm.Bytecode.Trust.{TrustLevel}
use bytecode_vm.Bytecode.Value.{Value}
use bytecode_vm.Bytecode.Chunk.{FunctionDef, Chunk, function}
use bytecode_vm.Vm.Fault.{Fault, NativeCallError}
use bytecode_vm.Vm.Native.{NativeFn, get, check_native_gate}
use bytecode_vm.Vm.Machine.{Frame, Vm, Host, max_call_depth, load_args, enter}
use bytecode_vm.Vm.Monad.{◌>>=◌, lift}
use bytecode_vm.Vm.Registers.{set_reg}
use bytecode_vm.Vm.Step.{
  gather, push_frame, call, call_at, call_function, native_fault, call_checked, call_native,
  continue,
}
use bytecode_vm.Vm.Safety.Post.{IsAllowedFault, StackOk, IsSound, Post, StepsWell}
use bytecode_vm.Vm.Safety.Frames.{FailsWell, succeeds, fails, if-FailsWell, IsSound-frames}
use bytecode_vm.Vm.Safety.Reads.{gather-Reads, Post-bind}
use bytecode_vm.Vm.Safety.Control.{store-Ensures}

load_args-FailsWell :
    (num_registers i k : ℕ) (args registers : List Value)
    → FailsWell (load_args num_registers i k args registers)
unfolding load_args
load_args-FailsWell num_registers i zero args registers = succeeds
load_args-FailsWell num_registers i (suc k) [] registers = succeeds
load_args-FailsWell num_registers i (suc k) (arg ∷ args) registers =
    if-FailsWell (ltb i (length registers))
      (load_args-FailsWell num_registers (suc i) k args (set registers i arg)) (fails tt)

-- A call enters a function at its entry, with a register to return to, or fails with an allowed
-- fault.
data EntersWell (def : FunctionDef) (dest : ℕ) : Result Fault Frame → Type 0 where
  enters : {f : Frame} → f.pc ≡ def.entry → f.dest_reg ≡ some dest → EntersWell def dest (ok f)
  refuses : {e : Fault} → IsAllowedFault e → EntersWell def dest (err e)

framed-EntersWell :
    (index dest : ℕ) (def : FunctionDef) (r : Result Fault (List Value))
    → FailsWell r
    → EntersWell def dest (
        bind r λ registers. ok (record {
          function = index;
          pc = def.entry;
          registers = registers;
          dest_reg = some dest;
        }))
framed-EntersWell index dest def (ok registers) h = enters refl refl
framed-EntersWell index dest def (err e) (fails h) = refuses h

enter-EntersWell :
    (index dest : ℕ) (def : FunctionDef) (args : List Value)
    → EntersWell def dest (enter index def (some dest) args)
unfolding enter
enter-EntersWell index dest def args =
    framed-EntersWell index dest def _ (load_args-FailsWell def.num_registers 0 def.arity args _)

StackOk-push :
    (chunk : Chunk) (f : Frame) (frames : List Frame) (dest : ℕ)
    → f.pc ≤ length chunk.code
    → f.dest_reg ≡ some dest
    → StackOk chunk frames
    → StackOk chunk (f ∷ frames)
StackOk-push chunk f [] dest h e hs = elim hs [ ]
StackOk-push chunk f (caller ∷ rest) dest h e hs = (h, (dest, e), hs)

module _ (trust : TrustLevel) where
  -- There is room for one more frame, which may start at `entry`.
  abbrev HasRoom : ℕ → Vm → Type 0
  HasRoom entry vm =
      IsSound trust vm × (length vm.frames < max_call_depth) × (entry < length (vm.chunk).code)

  push_frame-Post :
      (dest : ℕ) (def : FunctionDef) (f : Frame) (vm : Vm)
      → f.pc ≡ def.entry
      → f.dest_reg ≡ some dest
      → HasRoom def.entry vm
      → Post (StepsWell trust) ((push_frame f >>= λ _. continue) vm)
  unfolding push_frame
  push_frame-Post dest def f vm hpc hd (s, room, inside) =
      IsSound-frames trust vm (f ∷ vm.frames) s
        (StackOk-push vm.chunk f vm.frames dest (omega (arith, hpc)) hd s.stack_ok) (omega arith)

  entered-Post :
      (dest : ℕ) (def : FunctionDef) (r : Result Fault Frame) (vm : Vm)
      → EntersWell def dest r
      → HasRoom def.entry vm
      → Post (StepsWell trust) ((lift r >>= λ frame. push_frame frame >>= λ _. continue) vm)
  entered-Post dest def (ok f) vm (enters hpc hd) h = push_frame-Post dest def f vm hpc hd h
  entered-Post dest def (err e) vm (refuses a) h = a

  call_function-Post :
      (o : Option FunctionDef) (dst argc index : ℕ) (vm : Vm)
      → (def : FunctionDef) × (o ≡ some def)
      → ((def : FunctionDef) → o ≡ some def → HasRoom def.entry vm)
      → Post (StepsWell trust) (call_function o dst argc index vm)
  call_function-Post none dst argc index vm (def, e) h = cc
  call_function-Post (some def) dst argc index vm x h =
      Post-bind (λ _. HasRoom def.entry) (StepsWell trust) (gather dst 0 argc vm)
        (λ args.
          lift (enter index def (some dst) args) >>= λ frame. push_frame frame >>= λ _. continue)
        ((gather-Reads trust dst 0 argc).apply (HasRoom def.entry) vm (h def refl).0 (h def refl))
        (λ args vm' h'.
          entered-Post dst def (enter index def (some dst) args) vm'
            (enter-EntersWell index dst def args) h')

  depth-Post :
      (full : Bool) (dst argc index : ℕ) (vm : Vm)
      → leb max_call_depth (length vm.frames) ≡ full
      → IsSound trust vm
      → index < length (vm.chunk).functions
      → Post (StepsWell trust) (call_at full dst argc index vm)
  depth-Post true dst argc index vm e s h = tt
  depth-Post false dst argc index vm e s h =
      call_function-Post (function vm.chunk index) dst argc index vm
        (get_elem?-some (vm.chunk).functions index h)
        (λ def found. (s, ground arith, ((s.verified).functions_fit index def found).0))

  pub call-Post :
      (dst argc index : ℕ) (vm : Vm)
      → IsSound trust vm
      → index < length (vm.chunk).functions
      → Post (StepsWell trust) (call dst argc index vm)
  unfolding call
  call-Post dst argc index vm s h =
      depth-Post (leb max_call_depth (length vm.frames)) dst argc index vm refl s h

  native_fault-allowed : (e : NativeCallError) (size : ℕ) → IsAllowedFault (native_fault e size)
  native_fault-allowed (NativeCallError.index_out_of_range index) size = tt
  native_fault-allowed _ size = tt

  native-FailsWell :
      (r : Result Fault Value) → ((e : Fault) → r ≡ err e → IsAllowedFault e) → FailsWell r
  native-FailsWell (ok v) h = succeeds
  native-FailsWell (err e) h = fails (h e refl)

  module _ (host : Host) where
    returned-Post :
        (dst : ℕ) (r : Result Fault Value) (vm : Vm)
        → FailsWell r
        → IsSound trust vm
        → Post (StepsWell trust) ((lift r >>= λ value. set_reg host dst value >>= λ _. continue) vm)
    returned-Post dst (ok v) vm h s = (store-Ensures trust host dst v).apply vm s
    returned-Post dst (err e) vm (fails h) s = h

    call_checked-Post :
        (r : Result NativeCallError (Unit {0})) (o : Option NativeFn) (dst argc index : ℕ) (vm : Vm)
        → get vm.natives index ≡ o
        → IsSound trust vm
        → Post (StepsWell trust) (call_checked host r o dst argc index vm)
    call_checked-Post (err e) o dst argc index vm found s =
        native_fault-allowed e (length vm.natives)
    call_checked-Post (ok _) none dst argc index vm found s = tt
    call_checked-Post (ok _) (some f) dst argc index vm found s =
        Post-bind (λ _. IsSound trust) (StepsWell trust) (gather dst 0 argc vm)
          (λ args. lift (f args) >>= λ value. set_reg host dst value >>= λ _. continue)
          ((gather-Reads trust dst 0 argc).apply (IsSound trust) vm s s)
          (λ args vm' s'.
            returned-Post dst (f args) vm'
              (native-FailsWell (f args) (λ e. s.natives_fail_well index f args e found)) s')

    pub call_native-Post :
        (dst argc index : ℕ) (vm : Vm)
        → IsSound trust vm
        → Post (StepsWell trust) (call_native host dst argc index vm)
    unfolding call_native
    call_native-Post dst argc index vm s =
        call_checked-Post (check_native_gate vm.native_gate vm.natives index) (get vm.natives index)
          dst argc index vm refl s
