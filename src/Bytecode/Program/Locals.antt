-- ===== src/Bytecode/Program/Locals.antt =====
-- The registers that a function takes are in its frame.
use bytecode_vm.Prelude.{
  ℕ, zero, suc, ◌+◌, ◌≤◌, ◌<◌, ◌≡◌, refl, some, get_elem?, get_elem?-lt, get_elem?-set, arith,
}
use bytecode_vm.Bytecode.Chunk.{FunctionDef}
use bytecode_vm.Bytecode.Builder.{set_num_registers}
use bytecode_vm.Bytecode.Program.{saturating_u8, Fn, resized, local, locals, window}

-- The function that is being written declares as many registers as were taken.
pub record IsOpen (f : Fn) : Type 0 where
  pub def : FunctionDef
  pub is_declared : get_elem? f.b.functions f.function ≡ some def
  pub has_registers : def.num_registers ≡ f.next_reg

resized-IsOpen : (count : ℕ) (f : Fn) → IsOpen f → IsOpen (resized count f)
unfolding set_num_registers
resized-IsOpen count f o = record {
  def = record o.def { num_registers = count };
  is_declared = rw o.is_declared (
      ground (
        arith,
        get_elem?-set f.b.functions f.function f.function (record o.def { num_registers = count })
            (get_elem?-lt f.b.functions f.function o.def o.is_declared),
      ));
  has_registers = refl;
}

local-IsOpen : (f : Fn) → IsOpen f → IsOpen (local f).1
unfolding local
local-IsOpen f o = resized-IsOpen (saturating_u8 f.next_reg 1) f o

locals_lem :
    (count : ℕ) (f : Fn)
    → IsOpen f
    → f.next_reg + count ≤ 255
    → IsOpen (locals count f) × ((locals count f).next_reg ≡ f.next_reg + count)
unfolding locals local
locals_lem zero f o h = (o, omega arith)
locals_lem (suc n) f o h =
    let step : saturating_u8 f.next_reg 1 ≡ f.next_reg + 1 = omega (arith, h) in
    let (open_, sum) = locals_lem n (local f).1 (local-IsOpen f o) (omega (arith, h)) in
    (open_, omega (arith, sum, step))

-- When a function has declared the registers that it took, and there are at most 255 with a
-- window's, each register of the window is one that was not taken before, and is in the frame that
-- the function declares afterwards.
pub window-in_frame :
    (count i : ℕ) (f : Fn)
    → IsOpen f
    → f.next_reg + count ≤ 255
    → i < count
    → (f.next_reg ≤ (window count f).0.base + i)
      × (o : IsOpen (window count f).1) × ((window count f).0.base + i < o.def.num_registers)
unfolding window
window-in_frame count i f o h below =
    let (open_, sum) = locals_lem count f o h in
    (omega arith, open_, omega (arith, open_.has_registers, sum, below))

-- After 255 registers, a local is register 255, which is outside the frame of 255 registers that the
-- function declares, and so is every further local.
local-full :
    (f : Fn)
    → IsOpen f
    → f.next_reg ≡ 255
    → ((local f).0 ≡ 255)
      × ((local f).1.next_reg ≡ 255)
      × (o : IsOpen (local f).1) × (o.def.num_registers ≤ (local f).0)
unfolding local
local-full f o full =
    let o' = local-IsOpen f o in
    (full, omega (arith, full), o', omega (arith, full, o'.has_registers))
