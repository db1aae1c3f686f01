-- ===== src/Bytecode/Program.antt =====
-- bytecode/program.rs: the public builder of programs, on top of the assembler.
--
-- A register is its index. `Fn` borrows the assembler, which is a field here; the body of a function or
-- a loop is a function from one state to the next. `same` is the derived equality of values.
pub mod Ops
pub mod Hops
pub mod Locals
use bytecode_vm.Prelude.{
  ℕ, zero, suc, ◌+◌, Bool, Option, none, some, List, ltb, leb, min, if◌then◌else◌,
}
use bytecode_vm.Bytecode.Opcode.{Opcode}
use bytecode_vm.Bytecode.Value.{Value}
use bytecode_vm.Bytecode.Chunk.{Chunk}
use bytecode_vm.Bytecode.Builder.{
  ChunkBuilder, new as new_builder, const_, new_label, bind_label, begin_function,
  function_index as index_in, set_num_registers, finish,
}
use bytecode_vm.Bytecode.Builder.Emit.{
  emit_load_const, emit_load_imm, emit_move, emit_binop, emit_branch, emit_jump,
}

-- `u8::saturating_add`
abbrev pub saturating_u8 : ℕ → ℕ → ℕ
saturating_u8 a b = min (a + b) 255

pub record RegWindow : Type 0 where
  pub base : ℕ
  pub len : ℕ

unfoldable pub window_at : RegWindow → ℕ → ℕ
window_at w i = saturating_u8 w.base i

pub record Fn : Type 0 where
  pub b : ChunkBuilder
  pub function : ℕ
  pub next_reg : ℕ
  pub scratch : Option ℕ

unfoldable pub open_with : List ℕ → ℕ → ℕ → ChunkBuilder → Fn
open_with name arity num_registers b =
    let (function, begun) = begin_function name arity num_registers b in
    record { b = begun; function = function; next_reg = num_registers; scratch = none }

-- At least four registers.
unfoldable pub open_fn : List ℕ → ℕ → ChunkBuilder → Fn
unfolding open_with
open_fn name arity b = open_with name arity (if leb arity 4 then 4 else arity) b

unfoldable pub new_program : List ℕ → ChunkBuilder
new_program name = new_builder name

unfoldable pub define_function : List ℕ → ℕ → (Fn → Fn) → ChunkBuilder → ℕ × ChunkBuilder
unfolding open_fn
define_function name arity body b = let f = open_fn name arity b in (f.function, (body f).b)

unfoldable pub function_raw : List ℕ → ℕ → ℕ → (Fn → Fn) → ChunkBuilder → ℕ × ChunkBuilder
unfolding open_with
function_raw name arity num_registers body b =
    let f = open_with name arity num_registers b in (f.function, (body f).b)

unfoldable pub function_index : List ℕ → ChunkBuilder → Option ℕ
function_index name b = index_in name b

unfoldable pub build : ChunkBuilder → Chunk
build b = finish b

-- A register file of a new size, declared at once.
abbrev pub resized : ℕ → Fn → Fn
resized count f = record f { next_reg = count; b = set_num_registers f.function count f.b }

unfoldable pub local : Fn → ℕ × Fn
local f = (f.next_reg, resized (saturating_u8 f.next_reg 1) f)

unfoldable pub reserve : ℕ → Fn → Fn
reserve count f = if ltb f.next_reg count then resized count f else f

-- `for _ in 0..count { self.local() }`
unfoldable pub locals : ℕ → Fn → Fn
unfolding local
locals zero f = f
locals (suc n) f = locals n (local f).1

unfoldable pub window : ℕ → Fn → RegWindow × Fn
unfolding locals
window count f = (record { base = f.next_reg; len = count }, locals count f)

-- An emission, and one into a new local.
abbrev pub on_builder : (ChunkBuilder → ChunkBuilder) → Fn → Fn
on_builder emission f = record f { b = emission f.b }

unfoldable pub into_local : (ℕ → ChunkBuilder → ChunkBuilder) → Fn → ℕ × Fn
unfolding local
into_local emission f = let (reg, with_reg) = local f in (reg, on_builder (emission reg) with_reg)

unfoldable pub load_i32 : ℕ → Fn → ℕ × Fn
unfolding into_local
load_i32 n f = into_local (λ reg. emit_load_imm reg n) f

-- A constant is pooled before the local is taken.
unfoldable pub load_value : (Value → Value → Bool) → Value → Fn → ℕ × Fn
unfolding into_local
load_value same v f =
    let (konst, pooled) = const_ same v f.b in
    into_local (λ reg. emit_load_const reg konst) (record f { b = pooled })

unfoldable pub load_int : (Value → Value → Bool) → ℕ → Fn → ℕ × Fn
unfolding load_value
load_int same n f = load_value same (Value.int n) f

unfoldable pub load_str : (Value → Value → Bool) → List ℕ → Fn → ℕ × Fn
unfolding load_value
load_str same s f = load_value same (Value.str s) f

unfoldable pub set : ℕ → ℕ → Fn → Fn
set reg imm f = on_builder (emit_load_imm reg imm) f

unfoldable pub mov : ℕ → ℕ → Fn → Fn
mov dst src f = on_builder (emit_move dst src) f

-- The scratch register, taken once.
abbrev pub scratch_or : Option ℕ → Fn → ℕ × Fn
scratch_or (some scratch) f = (scratch, f)
scratch_or none f =
    let (scratch, with_reg) = local f in (scratch, record with_reg { scratch = some scratch })

unfoldable pub temp : Fn → ℕ × Fn
unfolding local
temp f = scratch_or f.scratch f

unfoldable pub binop : Opcode → ℕ → ℕ → Fn → ℕ × Fn
unfolding into_local
binop op lhs rhs f = into_local (λ dst. emit_binop op dst lhs rhs) f

unfoldable pub binop_imm : Opcode → ℕ → ℕ → Fn → ℕ × Fn
unfolding temp binop
binop_imm op lhs imm f =
    let (rhs, with_temp) = temp f in binop op lhs rhs (on_builder (emit_load_imm rhs imm) with_temp)

unfoldable pub add_imm : ℕ → ℕ → Fn → Fn
unfolding temp
add_imm dst imm f =
    let (tmp, with_temp) = temp f in
    on_builder (λ b. emit_binop Opcode.add dst dst tmp (emit_load_imm tmp imm b)) with_temp

unfoldable pub label : Fn → ℕ × Fn
label f = let (l, labelled) = new_label f.b in (l, record f { b = labelled })

unfoldable pub while_lt : ℕ → ℕ → (Fn → Fn) → Fn → Fn
unfolding local label
while_lt counter limit body f =
    let (head, f1) = label f in
    let (done, f2) = label f1 in
    let (cond, f3) = local f2 in
    let test = λ (b : ChunkBuilder).
      emit_branch cond done (emit_binop Opcode.lt cond counter limit (bind_label head b)) in
    on_builder (λ b. bind_label done (emit_jump head b)) (body (on_builder test f3))
