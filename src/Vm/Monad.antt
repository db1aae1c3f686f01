-- ===== src/Vm/Monad.antt =====
-- Computations on the machine. One that stops with a fault keeps what it changed before.
use bytecode_vm.Prelude.Result.{Result, ok, err}
use bytecode_vm.Vm.Fault.{Fault}
use bytecode_vm.Vm.Machine.{Vm}

-- Why a computation stops: a fault of the flow, or a panic of the host program.
pub data Stop : Type 0 where
  fault : Fault → Stop
  panic : Stop

abbrev pub M : Type 0 → Type 0
M A = Vm → Result Stop A × Vm

-- What follows a computation.
abbrev pub after : {A B : Type 0} → Result Stop A × Vm → (A → M B) → Result Stop B × Vm
after (ok a, vm) f = f a vm
after (err e, vm) f = (err e, vm)

infixl 5 ◌>>=◌
abbrev pub ◌>>=◌ : {A B : Type 0} → M A → (A → M B) → M B
◌>>=◌ m f vm = after (m vm) f

abbrev pub return : {A : Type 0} → A → M A
return a vm = (ok a, vm)

abbrev pub raise : {A : Type 0} → Fault → M A
raise e vm = (err (fault e), vm)

-- `r?`
abbrev pub lift : {A : Type 0} → Result Fault A → M A
lift (ok a) vm = (ok a, vm)
lift (err e) vm = (err (fault e), vm)
