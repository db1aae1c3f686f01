-- ===== src/Bytecode/Builder/Patch.antt =====
-- What patching the pending jumps does to the code.
use bytecode_vm.Prelude.{
  ℕ, ◌+◌, ◌<◌, ◌^◌, ◌≡◌, ◌≢◌, refl, subst, ◌∙◌, ap, Bool, true, false, ◌==◌, ==_iff, Option, none,
  some, List, [], ◌∷◌, length, get_elem?, get_elem?-lt, get_elem?-set, length-set, if◌then◌else◌,
  arith,
}
use bytecode_vm.Prelude.Int.{pos}
use bytecode_vm.Prelude.Maps.{nat_key, get, HasDistinctKeys}
use bytecode_vm.Bytecode.Chunk.{Instruction}
use bytecode_vm.Bytecode.Verify.{jump_target}
use bytecode_vm.Bytecode.Builder.{jump_imm, with_imm, patch, patch_all}

-- Where a jump goes: to its label, or to the next instruction if the label is not bound.
abbrev pub landing : ℕ → Option ℕ → ℕ
landing idx (some target) = target
landing idx none = idx + 1

-- The immediate leads to the landing place.
pub jump_target-jump_imm :
    (idx : ℕ) (target : Option ℕ)
    → idx < 2 ^ 31
    → landing idx target < 2 ^ 31
    → jump_target idx (jump_imm idx target) ≡ pos (landing idx target)
unfolding jump_imm
jump_target-jump_imm idx none hi ht = ground arith
jump_target-jump_imm idx (some target) hi ht = ground arith

with_imm-length :
    (found : Option Instruction) (idx imm : ℕ) (code : List Instruction)
    → length (with_imm found idx imm code) ≡ length code
with_imm-length none idx imm code = refl
with_imm-length (some instr) idx imm code = length-set code idx (record instr { imm = imm })

pub length-patch_all :
    (targets jumps : List (ℕ × ℕ)) (code : List Instruction)
    → length (patch_all targets jumps code) ≡ length code
unfolding patch_all patch
length-patch_all targets [] code = refl
length-patch_all targets ((idx, label) ∷ jumps) code =
    length-patch_all targets jumps (patch targets (idx, label) code)
    ∙ with_imm-length (get_elem? code idx) idx (jump_imm idx (get label targets)) code

-- An instruction after one patch.
with_imm-get :
    (found : Option Instruction) (idx imm at : ℕ) (code : List Instruction)
    → get_elem? code idx ≡ found
    → idx ≢ at
    → get_elem? (with_imm found idx imm code) at ≡ get_elem? code at
with_imm-get none idx imm at code h other = refl
with_imm-get (some instr) idx imm at code h other = ground (
  arith,
  get_elem?-set code idx at (record instr { imm = imm }) (get_elem?-lt code idx instr h),
  other,
  ==_iff idx at,
)

patch_other :
    (targets : List (ℕ × ℕ)) (idx label at : ℕ) (code : List Instruction)
    → idx ≢ at
    → get_elem? (patch targets (idx, label) code) at ≡ get_elem? code at
unfolding patch
patch_other targets idx label at code other =
    with_imm-get (get_elem? code idx) idx _ at code refl other

patch_same :
    (targets : List (ℕ × ℕ)) (idx label : ℕ) (code : List Instruction) (instr : Instruction)
    → get_elem? code idx ≡ some instr
    → get_elem? (patch targets (idx, label) code) idx
      ≡ some (record instr { imm = jump_imm idx (get label targets) })
unfolding patch
patch_same targets idx label code instr h = rw h (
    ground (
      arith,
      get_elem?-set code idx idx (record instr { imm = jump_imm idx (get label targets) })
          (get_elem?-lt code idx instr h),
    ))

-- An instruction that no jump of the list names stays as it is.
pub patch_all-none :
    (targets jumps : List (ℕ × ℕ)) (at : ℕ) (code : List Instruction)
    → get at jumps ≡ none
    → get_elem? (patch_all targets jumps code) at ≡ get_elem? code at
unfolding patch_all get
patch_all-none targets [] at code h = refl
patch_all-none targets ((idx, label) ∷ jumps) at code h =
    patch_all-none targets jumps at (patch targets (idx, label) code) (ground arith)
    ∙ patch_other targets idx label at code (λ e. ground (arith, h, e))

-- An instruction that the list names once gets the immediate for its label.
pub patch_all-some :
    (targets jumps : List (ℕ × ℕ)) (at label : ℕ) (code : List Instruction) (instr : Instruction)
    → HasDistinctKeys jumps
    → get at jumps ≡ some label
    → get_elem? code at ≡ some instr
    → get_elem? (patch_all targets jumps code) at
      ≡ some (record instr { imm = jump_imm at (get label targets) })
unfolding patch_all get HasDistinctKeys
patch_all-some targets [] at label code instr d h found = cc
patch_all-some targets ((idx, l) ∷ jumps) at label code instr (new, d) h found =
    at_key (idx == at) refl h
      (patch_all-some targets jumps at label (patch targets (idx, l) code) instr d)
  where
    after : ℕ → ℕ → Type 0
    after x k =
        get_elem? (patch_all targets jumps (patch targets (idx, l) code)) x
        ≡ some (record instr { imm = jump_imm x (get k targets) })

    at_key :
        (b : Bool)
        → idx == at ≡ b
        → (if b then some l else get at jumps) ≡ some label
        → (get at jumps ≡ some label
            → get_elem? (patch targets (idx, l) code) at ≡ some instr
            → after at label)
        → after at label
    at_key true e k rest =
        let same : idx ≡ at = (==_iff idx at).0 e in
        let label_same : l ≡ label = cc in
        let found_here = ap (λ x. get_elem? code x) same ∙ found in
        subst (λ x. after x label) same
          (subst (λ x. after idx x) label_same
            (patch_all-none targets jumps idx (patch targets (idx, l) code) new
              ∙ patch_same targets idx l code instr found_here))
    at_key false e k rest =
        rest k (patch_other targets idx l at code (λ p. cc (e, (==_iff idx at).1 p)) ∙ found)
