-- ===== src/Vm/Safety/Control.antt =====
-- Fetching, jumping and loading constants keep the machine sound.
use bytecode_vm.Prelude.{
  ℕ, ◌+◌, ◌≤◌, ◌<◌, ◌^◌, ◌&&◌, ◌==◌, ◌≡◌, refl, sym, subst, Bool, true, false, Option, none, some,
  List, [], ◌∷◌, length, get_elem?, get_elem?-lt, get_elem?-some, arith,
}
use bytecode_vm.Prelude.Int.{ℤ, pos, negsuc, ◌+ℤ◌, i32_val, i64_val, to_u64}
use bytecode_vm.Prelude.Result.{ok}
use bytecode_vm.Bytecode.Trust.{TrustLevel}
use bytecode_vm.Bytecode.Opcode.{Opcode}
use bytecode_vm.Bytecode.Value.{Value, is_truthy}
use bytecode_vm.Bytecode.Chunk.{Instruction, Chunk, constant}
use bytecode_vm.Bytecode.Verify.Sound.{InCode, IsVerifiedOp}
use bytecode_vm.Vm.Machine.{Frame, Vm, Host, max_call_depth}
use bytecode_vm.Vm.Monad.{◌>>=◌}
use bytecode_vm.Vm.Registers.{
  on_top, get_reg, fetch, fetch_from, fetched_from, set_reg, jump_by, fresh_request_id,
}
use bytecode_vm.Vm.Step.{negate, negate_int, store_const, load_const, branch_on, continue}
use bytecode_vm.Vm.Safety.Post.{
  IsSound, Keeps, Post, Ensures, Safely, StepsWell, StackOk, Ensures-bind,
}
use bytecode_vm.Vm.Safety.Frames.{on_top-Post, IsSound-frames, StackOk-top, set_reg-Safely}
use bytecode_vm.Vm.Safety.Reads.{get_reg-Reads, Post-bind}

-- The jump of the top frame by `imm` stays in the code.
abbrev pub JumpsIn : Chunk → ℕ → List Frame → Type 0
JumpsIn chunk imm [] = ⊥
JumpsIn chunk imm (frame ∷ rest) = InCode (i64_val frame.pc +ℤ i32_val imm) (length chunk.code)

-- What the machine relies on when it executes an instruction that it has fetched.
abbrev pub IsReady : Opcode → ℕ → Vm → Type 0
IsReady Opcode.load_const imm vm = imm < length (vm.chunk).constants
IsReady Opcode.call imm vm = imm < length (vm.chunk).functions
IsReady Opcode.jump imm vm = JumpsIn vm.chunk imm vm.frames
IsReady Opcode.branch imm vm = JumpsIn vm.chunk imm vm.frames
IsReady _ imm vm = Unit

abbrev pub IsReadyFor : Option Instruction → Vm → Type 0
IsReadyFor none vm = Unit
IsReadyFor (some instr) vm = IsReady instr.op instr.imm vm

i64_val-pos : (n : ℕ) → n < 2 ^ 63 → i64_val n ≡ pos n
i64_val-pos n h = ground arith

to_u64-le : (z : ℤ) (len : ℕ) → InCode z len → len < 2 ^ 63 → to_u64 z ≤ len
to_u64-le (pos n) len h hl = ground arith
to_u64-le (negsuc n) len h hl = elim h [ ]

ready :
    (op : Opcode) (imm pc : ℕ) (vm : Vm) (frame : Frame) (rest : List Frame)
    → pc + 1 < 2 ^ 63
    → IsVerifiedOp op vm.chunk pc imm
    → IsReady op imm (record vm { frames = record frame { pc = pc + 1 } ∷ rest })
ready Opcode.load_const imm pc vm frame rest h v = v
ready Opcode.call imm pc vm frame rest h v = v
ready Opcode.jump imm pc vm frame rest h v =
    subst (λ z. InCode (z +ℤ i32_val imm) (length (vm.chunk).code)) (sym (i64_val-pos (pc + 1) h)) v
ready Opcode.branch imm pc vm frame rest h v =
    subst (λ z. InCode (z +ℤ i32_val imm) (length (vm.chunk).code)) (sym (i64_val-pos (pc + 1) h)) v
ready _ imm pc vm frame rest h v = tt

module _ (trust : TrustLevel) where
  -- An instruction that is fetched is one of the verified code.
  fetched-Post :
      (vm : Vm) (frame : Frame) (rest : List Frame) (o : Option Instruction)
      → get_elem? (vm.chunk).code frame.pc ≡ o
      → IsSound trust vm
      → StackOk vm.chunk (frame ∷ rest)
      → length (frame ∷ rest) ≤ max_call_depth
      → Post (λ r vm'. IsSound trust vm' × IsReadyFor r vm') (fetched_from frame rest o vm)
  fetched-Post vm frame rest none e s h d = (s, tt)
  fetched-Post vm frame rest (some instr) e s h d =
      let inside = get_elem?-lt (vm.chunk).code frame.pc instr e in
      (
        IsSound-frames trust vm _ s
            (StackOk-top vm.chunk frame (record frame { pc = frame.pc + 1 }) rest (omega arith) refl
              h)
            d,
        ready instr.op instr.imm frame.pc vm frame rest (omega (arith, s.code_short))
            ((s.verified).code_fits frame.pc instr e),
      )

  pub fetch-Ensures : Ensures trust (λ r vm'. IsSound trust vm' × IsReadyFor r vm') fetch
  unfolding fetch
  fetch-Ensures = record {
    apply = λ vm s. on_top-Post trust _ vm fetch_from s (λ frame rest h d.
        fetched-Post vm frame rest (get_elem? (vm.chunk).code frame.pc) refl s h d);
  }

  jump_frames-Post :
      (vm : Vm) (imm : ℕ) (frames : List Frame)
      → vm.frames ≡ frames
      → IsSound trust vm
      → StackOk vm.chunk frames
      → length frames ≤ max_call_depth
      → JumpsIn vm.chunk imm frames
      → Post (Keeps trust (λ _. Unit {0})) (
          on_top frames
            (λ frame rest vm. (
              ok tt,
              record vm {
                frames = record frame { pc = to_u64 (i64_val frame.pc +ℤ i32_val imm) } ∷ rest;
              },
            ))
            vm)
  jump_frames-Post vm imm [] e s h d j = elim h [ ]
  jump_frames-Post vm imm (frame ∷ rest) e s h d j = (
    tt,
    IsSound-frames trust vm _ s
        (StackOk-top vm.chunk frame (record frame { pc = to_u64 (i64_val frame.pc +ℤ i32_val imm) })
          rest (to_u64-le (i64_val frame.pc +ℤ i32_val imm) (length (vm.chunk).code) j s.code_short)
          refl h)
        d,
  )

  pub jump_by-Post :
      (imm : ℕ) (vm : Vm)
      → IsSound trust vm
      → JumpsIn vm.chunk imm vm.frames
      → Post (Keeps trust (λ _. Unit {0})) (jump_by imm vm)
  unfolding jump_by
  jump_by-Post imm vm s j = jump_frames-Post vm imm vm.frames refl s s.stack_ok s.depth_ok j

  pub continue-Ensures : Ensures trust (StepsWell trust) continue
  continue-Ensures = record { apply = λ vm s. s }

  pub jump-Post :
      (imm : ℕ) (vm : Vm)
      → IsSound trust vm
      → JumpsIn vm.chunk imm vm.frames
      → Post (StepsWell trust) ((jump_by imm >>= λ _. continue) vm)
  jump-Post imm vm s j =
      Post-bind (Keeps trust (λ _. Unit {0})) (StepsWell trust) (jump_by imm vm) (λ _. continue)
        (jump_by-Post imm vm s j) (λ _ vm' k. k.1)

  branch_on-Post :
      (b : Bool) (imm : ℕ) (vm : Vm)
      → IsSound trust vm
      → JumpsIn vm.chunk imm vm.frames
      → Post (StepsWell trust) (branch_on b imm vm)
  branch_on-Post true imm vm s j = s
  branch_on-Post false imm vm s j = jump-Post imm vm s j

  pub branch-Post :
      (a imm : ℕ) (vm : Vm)
      → IsSound trust vm
      → JumpsIn vm.chunk imm vm.frames
      → Post (StepsWell trust) ((get_reg a >>= λ cond. branch_on (is_truthy cond) imm) vm)
  branch-Post a imm vm s j =
      Post-bind (λ _ vm'. IsSound trust vm' × JumpsIn vm'.chunk imm vm'.frames) (StepsWell trust)
        (get_reg a vm) (λ cond. branch_on (is_truthy cond) imm)
        ((get_reg-Reads trust a).apply (λ vm'. IsSound trust vm' × JumpsIn vm'.chunk imm vm'.frames)
          vm s (s, j))
        (λ cond vm' k. branch_on-Post (is_truthy cond) imm vm' k.0 k.1)

  pub fresh_request_id-Safely : Safely trust (λ _. Unit {0}) fresh_request_id
  unfolding fresh_request_id
  fresh_request_id-Safely = record {
    apply = λ vm s. (
      tt,
      record {
        verified = s.verified;
        code_short = s.code_short;
        natives_fail_well = s.natives_fail_well;
        stack_ok = s.stack_ok;
        depth_ok = s.depth_ok;
      },
    );
  }

  module _ (host : Host) where
    negate_int-Post :
        (b : Bool) (x : ℕ) (vm : Vm)
        → IsSound trust vm
        → Post (Keeps trust (λ _. Unit {0})) (negate_int b x vm)
    negate_int-Post true x vm s = tt
    negate_int-Post false x vm s = (tt, s)

    pub negate-Safely : (v : Value) → Safely trust (λ _. Unit {0}) (negate host v)
    unfolding negate
    negate-Safely (Value.int x) = record {
      apply = λ vm s. negate_int-Post (host.overflow_checks && x == 2 ^ 63) x vm s;
    }
    negate-Safely (Value.float x) = record { apply = λ vm s. (tt, s) }
    negate-Safely _ = record { apply = λ vm s. tt }

    pub store-Ensures :
        (reg : ℕ) (v : Value)
        → Ensures trust (StepsWell trust) (set_reg host reg v >>= λ _. continue)
    store-Ensures reg v =
        Ensures-bind trust (set_reg-Safely trust host reg v) λ _ _. continue-Ensures

    store_const-Post :
        (o : Option Value) (a index : ℕ) (vm : Vm)
        → (v : Value) × (o ≡ some v)
        → IsSound trust vm
        → Post (StepsWell trust) (store_const host o a index vm)
    store_const-Post none a index vm (v, e) s = cc
    store_const-Post (some v) a index vm h s = (store-Ensures a v).apply vm s

    pub load_const-Post :
        (a index : ℕ) (vm : Vm)
        → IsSound trust vm
        → index < length (vm.chunk).constants
        → Post (StepsWell trust) (load_const host a index vm)
    unfolding load_const
    load_const-Post a index vm s h =
        store_const-Post (constant vm.chunk index) a index vm
          (get_elem?-some (vm.chunk).constants index h) s
