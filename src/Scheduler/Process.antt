-- ===== src/Scheduler/Process.antt =====
-- scheduler/process.rs: a flow, as far as its inbox touches it.
use bytecode_vm.Prelude.{ℕ, Option, some}
use bytecode_vm.Bytecode.Value.{Value}
use bytecode_vm.Vm.Machine.{Vm}

pub record Flow : Type 0 where
  pub id : ℕ
  pub vm : Vm
  pub pending_message : Option Value

-- mailbox/mod.rs, `with_pending`
abbrev pub with_pending : Flow → Value → Flow
with_pending flow value = record flow { pending_message = some value }
