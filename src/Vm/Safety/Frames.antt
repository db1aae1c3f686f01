-- ===== src/Vm/Safety/Frames.antt =====
-- The computations on registers and frames keep the machine sound.
use bytecode_vm.Prelude.{
  ℕ, ◌≤◌, ◌%◌, ◌≡◌, refl, Bool, true, false, Option, none, some, List, [], ◌∷◌, length, get_elem?,
  set, arith, inl, inr, ◌⊎◌, ltb, ◌==◌, if◌then◌else◌,
}
use bytecode_vm.Prelude.Result.{Result, ok, err}
use bytecode_vm.Bytecode.Trust.{TrustLevel}
use bytecode_vm.Bytecode.Value.{Value}
use bytecode_vm.Bytecode.Chunk.{Chunk}
use bytecode_vm.Scheduler.Quota.{QuotaError, FlowQuota, alloc}
use bytecode_vm.Vm.Fault.{Fault}
use bytecode_vm.Vm.Machine.{Frame, Vm, Host, max_call_depth}
use bytecode_vm.Vm.Monad.{M, return, lift, Stop, fault}
use bytecode_vm.Vm.Registers.{
  on_top, read_slot, slot_value, get_reg, alloc_bytes, charge_heap_value, charge_for, kept_quota,
  quota_fault, put_quota, delivered, charge_register_store, write_slot, store, peek, set_reg,
  deliver, finish_frame, pop_from, pop_frame, same_buffer,
}
use bytecode_vm.Vm.Safety.Post.{
  IsAllowedFault, StackOk, IsSound, StepsWell, Keeps, Post, Ensures, Safely, Ensures-bind,
}

pub StackOk-top :
    (chunk : Chunk) (f g : Frame) (rest : List Frame)
    → g.pc ≤ length chunk.code
    → g.dest_reg ≡ f.dest_reg
    → StackOk chunk (f ∷ rest)
    → StackOk chunk (g ∷ rest)
StackOk-top chunk f g [] hpc hd (h, e) = (hpc, rw hd e)
StackOk-top chunk f g (caller ∷ rest) hpc hd (h, (dest, e), hs) = (hpc, (dest, rw hd e), hs)

pub StackOk-pc :
    (chunk : Chunk) (f : Frame) (rest : List Frame)
    → StackOk chunk (f ∷ rest)
    → f.pc ≤ length chunk.code
StackOk-pc chunk f [] (h, e) = h
StackOk-pc chunk f (caller ∷ rest) (h, e, hs) = h

pub StackOk-registers :
    (chunk : Chunk) (f : Frame) (rest : List Frame) (registers : List Value)
    → StackOk chunk (f ∷ rest)
    → StackOk chunk (record f { registers = registers } ∷ rest)
StackOk-registers chunk f rest registers h =
    StackOk-top chunk f (record f { registers = registers }) rest (StackOk-pc chunk f rest h) refl h

-- A fault that the computation raises is an allowed one.
pub data FailsWell {A : Type 0} : Result Fault A → Type 0 where
  succeeds : {a : A} → FailsWell (ok a)
  fails : {e : Fault} → IsAllowedFault e → FailsWell (err e)

pub if-FailsWell :
    {A : Type 0} (b : Bool) {x y : Result Fault A}
    → FailsWell x
    → FailsWell y
    → FailsWell (if b then x else y)
if-FailsWell true h k = h
if-FailsWell false h k = k

module _ (trust : TrustLevel) where
  pub IsSound-frames :
      (vm : Vm) (frames : List Frame)
      → IsSound trust vm
      → StackOk vm.chunk frames
      → length frames ≤ max_call_depth
      → IsSound trust (record vm { frames = frames })
  IsSound-frames vm frames s h d = record {
    verified = s.verified;
    code_short = s.code_short;
    natives_fail_well = s.natives_fail_well;
    stack_ok = h;
    depth_ok = d;
  }

  -- A use of the top frame may rely on the stack.
  on_frames-Post :
      {A : Type 0} (P : A → Vm → Type 0) (vm : Vm) (frames : List Frame)
      (use_top : Frame → List Frame → M A)
      → StackOk vm.chunk frames
      → length frames ≤ max_call_depth
      → ((frame : Frame) (rest : List Frame)
          → StackOk vm.chunk (frame ∷ rest)
          → length (frame ∷ rest) ≤ max_call_depth
          → Post P (use_top frame rest vm))
      → Post P (on_top frames use_top vm)
  on_frames-Post P vm [] use_top h d k = elim h [ ]
  on_frames-Post P vm (frame ∷ rest) use_top h d k = k frame rest h d

  pub on_top-Post :
      {A : Type 0} (P : A → Vm → Type 0) (vm : Vm) (use_top : Frame → List Frame → M A)
      → IsSound trust vm
      → ((frame : Frame) (rest : List Frame)
          → StackOk vm.chunk (frame ∷ rest)
          → length (frame ∷ rest) ≤ max_call_depth
          → Post P (use_top frame rest vm))
      → Post P (on_top vm.frames use_top vm)
  on_top-Post P vm use_top s k = on_frames-Post P vm vm.frames use_top s.stack_ok s.depth_ok k

  pub return-Ensures : {A : Type 0} (P : A → Type 0) (a : A) → P a → Safely trust P (return a)
  return-Ensures P a h = record { apply = λ vm s. (h, s) }

  lift-Post :
      {A : Type 0} (r : Result Fault A) (vm : Vm)
      → IsSound trust vm
      → FailsWell r
      → Post (Keeps trust (λ a. r ≡ ok a)) (lift r vm)
  lift-Post (ok a) vm s h = (refl, s)
  lift-Post (err e) vm s (fails h) = h

  pub lift-Safely :
      {A : Type 0} (r : Result Fault A) → FailsWell r → Safely trust (λ a. r ≡ ok a) (lift r)
  lift-Safely r h = record { apply = λ vm s. lift-Post r vm s h }

  slot_value-FailsWell :
      (registers : List Value) (reg : ℕ) (o : Option Value) → FailsWell (slot_value registers reg o)
  slot_value-FailsWell registers reg (some v) = succeeds
  slot_value-FailsWell registers reg none = fails tt

  pub read_slot-FailsWell : (registers : List Value) (reg : ℕ) → FailsWell (read_slot registers reg)
  read_slot-FailsWell registers reg = slot_value-FailsWell registers reg (get_elem? registers reg)

  lift-Post-any :
      {A : Type 0} (r : Result Fault A) (vm : Vm)
      → IsSound trust vm
      → FailsWell r
      → Post (Keeps trust (λ a. Unit {0})) (lift r vm)
  lift-Post-any (ok a) vm s h = (tt, s)
  lift-Post-any (err e) vm s (fails h) = h

  pub get_reg-Safely : (reg : ℕ) → Safely trust (λ _. Unit {0}) (get_reg reg)
  unfolding get_reg
  get_reg-Safely reg = record {
    apply = λ vm s. on_top-Post _ vm _ s (λ frame rest h d.
        lift-Post-any (read_slot frame.registers reg) vm s
          (read_slot-FailsWell frame.registers reg));
  }

  quota_fault-FailsWell : (r : Result QuotaError FlowQuota) → FailsWell (quota_fault r)
  quota_fault-FailsWell (ok q) = succeeds
  quota_fault-FailsWell (err e) = fails tt

  alloc_bytes-FailsWell : (quota : FlowQuota) (n : ℕ) → FailsWell (alloc_bytes quota n)
  unfolding alloc_bytes
  alloc_bytes-FailsWell quota n =
      if-FailsWell (n == 0) succeeds (quota_fault-FailsWell (alloc quota n))

  pub charge_heap_value-FailsWell :
      (quota : FlowQuota) (v : Value) → FailsWell (charge_heap_value quota v)
  unfolding charge_heap_value
  charge_heap_value-FailsWell quota (Value.str s) = alloc_bytes-FailsWell quota (length s)
  charge_heap_value-FailsWell quota (Value.bytes b) = alloc_bytes-FailsWell quota (length b)
  charge_heap_value-FailsWell quota _ = succeeds

  pub kept_quota-FailsWell : (r : Result Fault FlowQuota) → FailsWell r → FailsWell (kept_quota r)
  kept_quota-FailsWell (ok q) h = succeeds
  kept_quota-FailsWell (err e) (fails h) = fails h

  charge_for-FailsWell :
      (same : Bool) (quota : Option FlowQuota) (v : Value) → FailsWell (charge_for same quota v)
  unfolding charge_for
  charge_for-FailsWell same none v = succeeds
  charge_for-FailsWell true (some quota) v = succeeds
  charge_for-FailsWell false (some quota) v =
      kept_quota-FailsWell _ (charge_heap_value-FailsWell quota v)

  pub put_quota-Post :
      (r : Result Fault (Option FlowQuota)) (vm : Vm)
      → IsSound trust vm
      → FailsWell r
      → Post (Keeps trust (λ _. Unit {0})) (put_quota r vm)
  put_quota-Post (ok quota) vm s h = (
    tt,
    record {
      verified = s.verified;
      code_short = s.code_short;
      natives_fail_well = s.natives_fail_well;
      stack_ok = s.stack_ok;
      depth_ok = s.depth_ok;
    },
  )
  put_quota-Post (err e) vm s (fails h) = h

  module _ (host : Host) where
    write_slot-Post :
        (reg : ℕ) (v : Value) (frame : Frame) (rest : List Frame) (vm : Vm)
        → IsSound trust vm
        → StackOk vm.chunk (frame ∷ rest)
        → length (frame ∷ rest) ≤ max_call_depth
        → Post (Keeps trust (λ _. Unit {0})) (write_slot host reg v frame rest vm)
    write_slot-Post reg v frame rest vm s h d =
        elim (ltb reg (length frame.registers))
          as (λ b. Post (Keeps trust (λ _. Unit {0})) (
            if b
            then (
              ok tt,
              record vm {
                frames = (record frame { registers = set frame.registers reg v }) ∷ rest;
              },
            )
            else (
              err (fault (Fault.register_out_of_range reg (length frame.registers % 256))),
              vm,
            ))) [
              | true ↦ (
                tt,
                IsSound-frames vm _ s
                    (StackOk-registers vm.chunk frame rest (set frame.registers reg v) h) d,
              )
              | false ↦ tt
            ]

    charge_register_store-Safely :
        (reg : ℕ) (v : Value) → Safely trust (λ _. Unit {0}) (charge_register_store host reg v)
    unfolding charge_register_store
    charge_register_store-Safely reg v = record {
      apply = λ vm s.
          put_quota-Post
            (charge_for
              (same_buffer (host.same_arc vm.instructions_executed) v (peek vm.frames reg)) vm.quota
              v)
            vm s (charge_for-FailsWell _ vm.quota v);
    }

    store-Safely : (reg : ℕ) (v : Value) → Safely trust (λ _. Unit {0}) (store host reg v)
    unfolding store
    store-Safely reg v = record {
      apply = λ vm s.
          on_top-Post (Keeps trust (λ _. Unit {0})) vm (write_slot host reg v) s
            (λ frame rest h d. write_slot-Post reg v frame rest vm s h d);
    }

    pub set_reg-Safely : (reg : ℕ) (v : Value) → Safely trust (λ _. Unit {0}) (set_reg host reg v)
    unfolding set_reg
    set_reg-Safely reg v =
        Ensures-bind trust (charge_register_store-Safely reg v) λ _ _. store-Safely reg v

    delivered-Post :
        (dest : ℕ) (r : Result Stop (Unit {0}) × Vm)
        → Post (Keeps trust (λ _. Unit {0})) r
        → Post (StepsWell trust) (delivered dest r)
    delivered-Post dest (ok _, vm) (_, s) = s
    delivered-Post dest (err e, vm) h = tt

    deliver-Post :
        (dest : ℕ) (v : Value) (vm : Vm)
        → IsSound trust vm
        → Post (StepsWell trust) (deliver host dest v vm)
    unfolding deliver
    deliver-Post dest v vm s =
        delivered-Post dest (set_reg host dest v vm) ((set_reg-Safely dest v).apply vm s)

    finish_frame-Post :
        (dest : Option ℕ) (v : Value) (vm : Vm)
        → (dest ≡ none) ⊎ IsSound trust vm
        → Post (StepsWell trust) (finish_frame host dest v vm)
    finish_frame-Post none v vm h = tt
    finish_frame-Post (some dest) v vm (inl e) = cc
    finish_frame-Post (some dest) v vm (inr s) = deliver-Post dest v vm s

    -- Popping the outermost frame completes; popping another leaves its caller on top.
    pop_from-Post :
        (vm : Vm) (frames : List Frame) (v : Value)
        → IsSound trust vm
        → StackOk vm.chunk frames
        → length frames ≤ max_call_depth
        → Post (StepsWell trust) (pop_from host frames v vm)
    pop_from-Post vm [] v s h d = elim h [ ]
    pop_from-Post vm (frame ∷ []) v s (h, e) d = finish_frame-Post frame.dest_reg v _ (inl e)
    pop_from-Post vm (frame ∷ caller ∷ rest) v s (h, e, hs) d =
        finish_frame-Post frame.dest_reg v _
          (inr (IsSound-frames vm (caller ∷ rest) s hs (omega arith)))

    pub pop_frame-Ensures : (v : Value) → Ensures trust (StepsWell trust) (pop_frame host v)
    unfolding pop_frame
    pop_frame-Ensures v = record {
      apply = λ vm s. pop_from-Post vm vm.frames v s s.stack_ok s.depth_ok;
    }
