-- ===== src/Bytecode/Builder/Jumps.antt =====
-- Every jump of a finished chunk lands on its label.
use bytecode_vm.Prelude.{
  ℕ, ◌≤◌, ◌<◌, ◌^◌, ◌≡◌, refl, sym, ◌∙◌, ap, Bool, true, false, ◌==◌, ==_iff, Option, none, some,
  inl, inr, List, [], ◌∷◌, ◌++◌, length, get_elem?, get_elem?-lt, get_elem?-some, snoc-cases,
  length-append, if◌then◌else◌, arith,
}
use bytecode_vm.Prelude.Int.{pos}
use bytecode_vm.Prelude.Maps.{
  nat_key, get, HasDistinctKeys, insert-cases, get-append, append-HasDistinctKeys,
}
use bytecode_vm.Bytecode.Opcode.{Opcode}
use bytecode_vm.Bytecode.Value.{Value}
use bytecode_vm.Bytecode.Chunk.{Instruction, FunctionDef, a_imm, only_imm}
use bytecode_vm.Bytecode.Verify.{jump_target}
use bytecode_vm.Bytecode.Builder.{
  ChunkBuilder, new, pooled, const_, position_from, new_label, bind_label, emit, begin_function,
  with_registers, set_num_registers, jump_imm, finish,
}
use bytecode_vm.Bytecode.Builder.Emit.{awaiting, emit_jump, emit_branch}
use bytecode_vm.Bytecode.Builder.Patch.{
  landing, jump_target-jump_imm, length-patch_all, patch_all-none, patch_all-some,
}

-- The instructions whose immediate is a distance.
abbrev pub is_jump : Opcode → Bool
is_jump Opcode.jump = true
is_jump Opcode.branch = true
is_jump _ = false

-- The pending jumps are the jumps of the code, each once, and a label is bound within the code.
pub record IsSound (b : ChunkBuilder) : Type 0 where
  pub jumps_distinct : HasDistinctKeys b.pending_jumps
  pub jumps_there : (idx label : ℕ) → get idx b.pending_jumps ≡ some label → idx < length b.code
  pub labels_there :
      (label target : ℕ) → get label b.label_targets ≡ some target → target ≤ length b.code
  pub all_pending :
      (at : ℕ) (instr : Instruction)
      → get_elem? b.code at ≡ some instr
      → is_jump instr.op ≡ true
      → (label : ℕ) × (get at b.pending_jumps ≡ some label)

-- What a program makes of a new builder. Every `emit_` but those of the jumps emits one instruction
-- that is no jump, or two.
pub data Builds : ChunkBuilder → Type 0 where
  started : (name : List ℕ) → Builds (new name)
  pooled_one :
      {b : ChunkBuilder}
      → Builds b
      → (same : Value → Value → Bool) (v : Value) → Builds (const_ same v b).1
  labelled : {b : ChunkBuilder} → Builds b → Builds (new_label b).1
  bound : {b : ChunkBuilder} → Builds b → (label : ℕ) → Builds (bind_label label b)
  emitted :
      {b : ChunkBuilder}
      → Builds b
      → (instr : Instruction) → is_jump instr.op ≡ false
      → Builds (emit instr b).1
  jumped : {b : ChunkBuilder} → Builds b → (label : ℕ) → Builds (emit_jump label b)
  branched : {b : ChunkBuilder} → Builds b → (cond label : ℕ) → Builds (emit_branch cond label b)
  begun :
      {b : ChunkBuilder}
      → Builds b
      → (name : List ℕ) (arity num_registers : ℕ)
      → Builds (begin_function name arity num_registers b).1
  resized :
      {b : ChunkBuilder}
      → Builds b
      → (index num_registers : ℕ) → Builds (set_num_registers index num_registers b)

-- A change of anything but the code, the labels and the jumps.
same_code :
    (b c : ChunkBuilder)
    → c.code ≡ b.code
    → c.label_targets ≡ b.label_targets
    → c.pending_jumps ≡ b.pending_jumps
    → IsSound b
    → IsSound c
same_code b c code labels jumps s = record {
  jumps_distinct = rw jumps s.jumps_distinct;
  jumps_there = λ idx label h. rw code (s.jumps_there idx label (rw jumps at h));
  labels_there = λ label target h. rw code (s.labels_there label target (rw labels at h));
  all_pending = λ at instr h j. rw jumps (s.all_pending at instr (rw code at h) j);
}

bind_label-IsSound : (label : ℕ) (b : ChunkBuilder) → IsSound b → IsSound (bind_label label b)
unfolding bind_label
bind_label-IsSound label b s = record {
  jumps_distinct = s.jumps_distinct;
  jumps_there = s.jumps_there;
  labels_there = λ l target h.
      elim (insert-cases label l (length b.code) target b.label_targets h) [
        | inl (_, same) ↦ omega (arith, same)
        | inr (_, old) ↦ s.labels_there l target old
      ];
  all_pending = s.all_pending;
}

emit-IsSound :
    (instr : Instruction) (b : ChunkBuilder)
    → is_jump instr.op ≡ false
    → IsSound b
    → IsSound (emit instr b).1
unfolding emit
emit-IsSound instr b plain s = record {
  jumps_distinct = s.jumps_distinct;
  jumps_there =
      λ idx label h. omega (arith, s.jumps_there idx label h, length-append b.code (instr ∷ []));
  labels_there = λ label target h.
      omega (arith, s.labels_there label target h, length-append b.code (instr ∷ []));
  all_pending = λ at found h j. elim (snoc-cases b.code instr found at h) [
    | inl (_, same) ↦ cc (plain, j, ap (λ (i : Instruction). is_jump i.op) same)
    | inr old ↦ s.all_pending at found old j
  ];
}

-- A jump that is emitted is pending for its label.
awaiting-IsSound :
    (instr : Instruction) (label : ℕ) (b : ChunkBuilder)
    → IsSound b
    → IsSound (awaiting label (emit instr b))
unfolding awaiting emit
awaiting-IsSound instr label b s = record {
  jumps_distinct =
      append-HasDistinctKeys (length b.code) label b.pending_jumps s.jumps_distinct unused;
  jumps_there = λ idx l h.
      at_old idx l (get idx b.pending_jumps) refl
        (sym (get-append (length b.code) idx label b.pending_jumps) ∙ h);
  labels_there =
      λ l target h. omega (arith, s.labels_there l target h, length-append b.code (instr ∷ []));
  all_pending = λ at found h j. elim (snoc-cases b.code instr found at h) [
    | inl (e, _) ↦
        (label, rw (get-append (length b.code) at label b.pending_jumps, e, unused) (ground arith))
    | inr old ↦
        let (l, p) = s.all_pending at found old j in
        (l, rw (get-append (length b.code) at label b.pending_jumps, p) refl)
  ];
}
  where
    beyond : (o : Option ℕ) → get (length b.code) b.pending_jumps ≡ o → o ≡ none
    beyond none e = refl
    beyond (some l) e = absurd (omega (arith, s.jumps_there (length b.code) l e))

    unused : get (length b.code) b.pending_jumps ≡ none
    unused = beyond (get (length b.code) b.pending_jumps) refl

    at_old :
        (idx l : ℕ) (old : Option ℕ)
        → get idx b.pending_jumps ≡ old
        → elim old [ some w ↦ some w | none ↦ if length b.code == idx then some label else none ]
          ≡ some l
        → idx < length (b.code ++ instr ∷ [])
    at_old idx l (some w) e h =
        omega (arith, s.jumps_there idx w e, length-append b.code (instr ∷ []))
    at_old idx l none e h =
        ground (arith, length-append b.code (instr ∷ []), ==_iff (length b.code) idx)

pooled-IsSound :
    (v : Value) (b : ChunkBuilder) (at : Option ℕ) → IsSound b → IsSound (pooled v b at).1
pooled-IsSound v b (some i) s = s
pooled-IsSound v b none s = same_code b (pooled v b none).1 refl refl refl s

with_registers-IsSound :
    (index num_registers : ℕ) (def : Option FunctionDef) (b : ChunkBuilder)
    → IsSound b
    → IsSound (with_registers index num_registers def b)
with_registers-IsSound index num_registers none b s = s
with_registers-IsSound index num_registers (some def) b s =
    same_code b (with_registers index num_registers (some def) b) refl refl refl s

Builds-IsSound : (b : ChunkBuilder) → Builds b → IsSound b
unfolding new const_ new_label begin_function set_num_registers emit_jump emit_branch get
    HasDistinctKeys
Builds-IsSound _ (started name) = record {
  jumps_distinct = tt;
  jumps_there = λ idx label h. cc;
  labels_there = λ label target h. cc;
  all_pending = λ at instr h j. cc;
}
Builds-IsSound _ (pooled_one {b} r same v) =
    pooled-IsSound v b (position_from same v 0 b.constants) (Builds-IsSound b r)
Builds-IsSound _ (labelled {b} r) = same_code b (new_label b).1 refl refl refl (Builds-IsSound b r)
Builds-IsSound _ (bound {b} r label) = bind_label-IsSound label b (Builds-IsSound b r)
Builds-IsSound _ (emitted {b} r instr plain) = emit-IsSound instr b plain (Builds-IsSound b r)
Builds-IsSound _ (jumped {b} r label) =
    awaiting-IsSound (only_imm Opcode.jump 0) label b (Builds-IsSound b r)
Builds-IsSound _ (branched {b} r cond label) =
    awaiting-IsSound (a_imm Opcode.branch cond 0) label b (Builds-IsSound b r)
Builds-IsSound _ (begun {b} r name arity num_registers) =
    same_code b (begin_function name arity num_registers b).1 refl refl refl (Builds-IsSound b r)
Builds-IsSound _ (resized {b} r index num_registers) =
    with_registers-IsSound index num_registers (get_elem? b.functions index) b (Builds-IsSound b r)

landing-le :
    (b : ChunkBuilder) (at : ℕ) (target : Option ℕ) (label : ℕ)
    → IsSound b
    → at < length b.code
    → get label b.label_targets ≡ target
    → landing at target ≤ length b.code
landing-le b at none label s h e = omega (arith, h)
landing-le b at (some target) label s h e = s.labels_there label target e

-- What a jump of the code was before it was patched.
jump_label :
    (b : ChunkBuilder) (at : ℕ) (before instr : Instruction)
    → IsSound b
    → get_elem? b.code at ≡ some before
    → get_elem? (finish b).code at ≡ some instr
    → is_jump instr.op ≡ true
    → (label : ℕ) × (get at b.pending_jumps ≡ some label)
      × (instr.imm ≡ jump_imm at (get label b.label_targets))
unfolding finish
jump_label b at before instr s found h j = at_pending (get at b.pending_jumps) refl
  where
    at_pending :
        (o : Option ℕ)
        → get at b.pending_jumps ≡ o
        → (label : ℕ) × (get at b.pending_jumps ≡ some label)
          × (instr.imm ≡ jump_imm at (get label b.label_targets))
    at_pending none e =
        let kept = patch_all-none b.label_targets b.pending_jumps at b.code e in
        let (label, p) = s.all_pending at instr (sym kept ∙ h) j in cc (e, p)
    at_pending (some label) e =
        let patched =
          patch_all-some b.label_targets b.pending_jumps at label b.code before s.jumps_distinct e
            found in
        (label, e, cc (patched, h))

-- In the chunk that a builder with fewer than 2 ^ 31 instructions finishes to, whatever was
-- emitted, bound and begun before, every jump and branch waited for a label, leads from its place
-- to where that label is bound, or to the next instruction if the label is not bound, and stays
-- within the code.
pub finish-lands :
    (b : ChunkBuilder) (at : ℕ) (instr : Instruction)
    → Builds b
    → length b.code < 2 ^ 31
    → get_elem? (finish b).code at ≡ some instr
    → is_jump instr.op ≡ true
    → (label : ℕ) × (get at b.pending_jumps ≡ some label)
      × (jump_target at instr.imm ≡ pos (landing at (get label b.label_targets)))
      × (landing at (get label b.label_targets) ≤ length (finish b).code)
unfolding finish
finish-lands b at instr built small h j =
    let s = Builds-IsSound b built in
    let same = length-patch_all b.label_targets b.pending_jumps b.code in
    let inside : at < length b.code =
      omega (arith, get_elem?-lt (finish b).code at instr h, same) in
    let (before, found) = get_elem?-some b.code at inside in
    let (label, waits, imm) = jump_label b at before instr s found h j in
    let near = landing-le b at (get label b.label_targets) label s inside refl in
    (
      label,
      waits,
      ap (jump_target at) imm
          ∙ jump_target-jump_imm at (get label b.label_targets) (omega (arith, small, inside))
              (omega (arith, small, near)),
      rw same near,
    )
