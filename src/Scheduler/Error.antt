-- ===== src/Scheduler/Error.antt =====
-- scheduler/error.rs: the failures of the runtime's own tables, and those that a caller causes.
-- A text that names the place of a failure is the list of its bytes.
use bytecode_vm.Prelude.{ℕ, List}

pub data RuntimeError : Type 0 where
  poisoned_lock : List ℕ → RuntimeError
  abandoned : List ℕ → RuntimeError
  already_collected : List ℕ → RuntimeError
  entropy_failed : RuntimeError
  cap_id_collision : RuntimeError
  cannot_finalize_host_flow : RuntimeError

pub data LifecycleError : Type 0 where
  no_such_flow : ℕ → LifecycleError
  invalid_capability : LifecycleError
  invalid_monitor : LifecycleError
  invalid_link : LifecycleError
  not_owner : LifecycleError
  already_registered : LifecycleError
  already_linked : LifecycleError
  empty_name : LifecycleError
  self_relation : LifecycleError
  unavailable : LifecycleError
