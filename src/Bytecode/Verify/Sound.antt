-- ===== src/Bytecode/Verify/Sound.antt =====
-- What a verified chunk guarantees, and that the verifier refuses nothing else.
use bytecode_vm.Prelude.{
  ℕ, ◌≤◌, ◌<◌, ◌≡◌, ◌↔◌, refl, List, [], ◌∷◌, length, get_elem?, some, arith, true, is_empty, subst,
  not, Bool, false,
}
use native.Mathlib.Nat.{zero-add}
use bytecode_vm.Prelude.Int.{ℤ, pos, negsuc}
use bytecode_vm.Prelude.Result.{Result, ok, ensure, >>-eq-ok}
use bytecode_vm.Bytecode.Trust.{TrustLevel, trusted, untrusted}
use bytecode_vm.Bytecode.Opcode.{Opcode}
use bytecode_vm.Bytecode.Value.{Value}
use bytecode_vm.Bytecode.Chunk.{Instruction, FunctionDef, Chunk}
use bytecode_vm.Bytecode.Verify.{
  VerifyError, validate_constant, validate_function, jump_target, target_ok, validate_op,
  validate_instruction, verify_with,
}
use bytecode_vm.Bytecode.Verify.Loop.{for_each, for_each-eq-ok, for_each_ok}

-- No capability, process id or message at the top of a constant, unless the chunk is trusted.
abbrev pub IsAllowed : TrustLevel → Value → Type 0
IsAllowed trusted v = Unit
IsAllowed untrusted (Value.cap _) = ⊥
IsAllowed untrusted (Value.pid _) = ⊥
IsAllowed untrusted (Value.message _ _) = ⊥
IsAllowed untrusted _ = Unit

-- The target is an index of the code, or one past its end.
abbrev pub InCode : ℤ → ℕ → Type 0
InCode (pos n) len = n ≤ len
InCode (negsuc _) len = ⊥

-- What each instruction refers to is there.
abbrev pub IsVerifiedOp : Opcode → Chunk → ℕ → ℕ → Type 0
IsVerifiedOp Opcode.load_const chunk at imm = imm < length chunk.constants
IsVerifiedOp Opcode.spawn chunk at imm = imm < length chunk.functions
IsVerifiedOp Opcode.call chunk at imm = imm < length chunk.functions
IsVerifiedOp Opcode.jump chunk at imm = InCode (jump_target at imm) (length chunk.code)
IsVerifiedOp Opcode.branch chunk at imm = InCode (jump_target at imm) (length chunk.code)
IsVerifiedOp _ chunk at imm = Unit

pub record IsVerified (chunk : Chunk) (trust : TrustLevel) : Type 0 where
  pub has_function : 0 < length chunk.functions
  pub constants_allowed :
      (k : ℕ) (v : Value) → get_elem? chunk.constants k ≡ some v → IsAllowed trust v
  pub functions_fit :
      (k : ℕ) (def : FunctionDef)
      → get_elem? chunk.functions k ≡ some def
      → (def.entry < length chunk.code) × (def.arity ≤ def.num_registers)
  pub code_fits :
      (at : ℕ) (instr : Instruction)
      → get_elem? chunk.code at ≡ some instr
      → IsVerifiedOp instr.op chunk at instr.imm

constant_iff :
    (trust : TrustLevel) (k : ℕ) (v : Value)
    → (validate_constant trust k v ≡ ok tt) ↔ IsAllowed trust v
unfolding validate_constant
constant_iff trusted k v = (λ _. tt, λ _. refl)
constant_iff untrusted k (Value.cap _) = (λ h. cc, λ h. elim h [ ])
constant_iff untrusted k (Value.pid _) = (λ h. cc, λ h. elim h [ ])
constant_iff untrusted k (Value.message _ _) = (λ h. cc, λ h. elim h [ ])
constant_iff untrusted k Value.unit = (λ _. tt, λ _. refl)
constant_iff untrusted k _ = (λ _. tt, λ _. refl)

function_iff :
    (len k : ℕ) (def : FunctionDef)
    → (validate_function len k def ≡ ok tt) ↔ ((def.entry < len) × (def.arity ≤ def.num_registers))
unfolding validate_function
function_iff len k def = (λ h. ground arith, λ h. ground arith)

target_iff : (z : ℤ) (len : ℕ) → (target_ok z len ≡ true) ↔ InCode z len
unfolding target_ok
target_iff (pos n) len = (λ h. ground arith, λ h. ground arith)
target_iff (negsuc n) len = (λ h. cc, λ h. elim h [ ])

ensure_iff {ℓ} : {E : Type ℓ} (b : Bool) (e : E) → (ensure b e ≡ ok tt) ↔ (b ≡ true)
ensure_iff true e = (λ _. refl, λ _. refl)
ensure_iff false e = (λ h. cc, λ h. cc)

op_iff :
    (op : Opcode) (chunk : Chunk) (at imm : ℕ)
    → (validate_op op chunk at imm ≡ ok tt) ↔ IsVerifiedOp op chunk at imm
unfolding validate_op
op_iff Opcode.load_const chunk at imm = (λ h. ground arith, λ h. ground arith)
op_iff Opcode.spawn chunk at imm = (λ h. ground arith, λ h. ground arith)
op_iff Opcode.call chunk at imm = (λ h. ground arith, λ h. ground arith)
op_iff Opcode.jump chunk at imm = (
  λ h. (target_iff (jump_target at imm) _).0 ((ensure_iff _ _).0 h),
  λ h. (ensure_iff _ _).1 ((target_iff (jump_target at imm) _).1 h),
)
op_iff Opcode.branch chunk at imm = (
  λ h. (target_iff (jump_target at imm) _).0 ((ensure_iff _ _).0 h),
  λ h. (ensure_iff _ _).1 ((target_iff (jump_target at imm) _).1 h),
)
op_iff _ chunk at imm = (λ _. tt, λ _. refl)

instruction_iff :
    (chunk : Chunk) (at : ℕ) (instr : Instruction)
    → (validate_instruction chunk at instr ≡ ok tt) ↔ IsVerifiedOp instr.op chunk at instr.imm
unfolding validate_instruction
instruction_iff chunk at instr = op_iff instr.op chunk at instr.imm

nonempty_iff {ℓ} : {A : Type ℓ} (xs : List A) → (not (is_empty xs) ≡ true) ↔ (0 < length xs)
nonempty_iff [] = (λ h. cc, λ h. elim h [ ])
nonempty_iff (x ∷ xs) = (λ h. omega arith, λ h. refl)

-- the loop from index 0
loop_iff {ℓ} :
    {A : Type ℓ} (check : ℕ → A → Result VerifyError (Unit {0})) (xs : List A)
    → (for_each check 0 xs ≡ ok tt)
      ↔ ((k : ℕ) (x : A) → get_elem? xs k ≡ some x → check k x ≡ ok tt)
loop_iff check xs = (
  λ h k x e. subst (λ n. check n x ≡ ok tt) (zero-add k) (for_each-eq-ok check 0 xs h k x e),
  λ h. for_each_ok check 0 xs (λ k x e. rw (zero-add k) (h k x e)),
)

-- The verifier accepts a chunk exactly when it has a function, its constants are allowed at the
-- given trust, every function starts inside the code and has a register for each parameter, and
-- every instruction refers to a constant, a function or a jump target that is there.
pub verify_with-eq-ok :
    (chunk : Chunk) (trust : TrustLevel)
    → (verify_with chunk trust ≡ ok tt) ↔ IsVerified chunk trust
unfolding verify_with
verify_with-eq-ok chunk trust = (sound, complete)
  where
    sound : verify_with chunk trust ≡ ok tt → IsVerified chunk trust
    sound h =
        let (h₀, h') = >>-eq-ok (ensure (not (is_empty chunk.functions)) _) _ h in
        let (h₁, h'') = >>-eq-ok (for_each (validate_constant trust) 0 chunk.constants) _ h' in
        let (h₂, h₃) =
          >>-eq-ok (for_each (validate_function (length chunk.code)) 0 chunk.functions) _ h'' in
        record {
          has_function = (nonempty_iff chunk.functions).0 ((ensure_iff _ _).0 h₀);
          constants_allowed = λ k v e. (constant_iff trust k v).0 ((loop_iff _ _).0 h₁ k v e);
          functions_fit = λ k d e. (function_iff _ k d).0 ((loop_iff _ _).0 h₂ k d e);
          code_fits = λ at i e. (instruction_iff chunk at i).0 ((loop_iff _ _).0 h₃ at i e);
        }

    complete : IsVerified chunk trust → verify_with chunk trust ≡ ok tt
    complete v =
        rw
          (
            (ensure_iff _ _).1 ((nonempty_iff chunk.functions).1 v.has_function),
            (loop_iff _ _).1 (λ k c e. (constant_iff trust k c).1 (v.constants_allowed k c e)),
            (loop_iff _ _).1 (λ k d e. (function_iff _ k d).1 (v.functions_fit k d e)),
          )
          ((loop_iff _ _).1 (λ at i e. (instruction_iff chunk at i).1 (v.code_fits at i e)))
