-- ===== src/Vm/Registers/RequestIds.antt =====
-- The ids that a machine mints for its requests.
use bytecode_vm.Prelude.{ℕ, zero, suc, ◌+◌, ◌<◌, ◌≤◌, ◌≢◌, arith}
use bytecode_vm.Prelude.Int.{u64_mod}
use bytecode_vm.Vm.Registers.{fresh_id}

-- From any 64-bit counter, the request id handed out is not 0 and not below the counter, the new
-- counter is a 64-bit number, and it is above the id unless the id is the greatest.
pub fresh_id-fresh :
    (next : ℕ)
    → next < u64_mod
    → ((fresh_id next).0 ≢ 0)
      × (next ≤ (fresh_id next).0)
      × ((fresh_id next).1 < u64_mod)
      × ((fresh_id next).0 + 1 < u64_mod → (fresh_id next).0 < (fresh_id next).1)
unfolding fresh_id
fresh_id-fresh zero h = (λ e. absurd (omega (arith, e)), omega arith, omega arith, λ _. omega arith)
fresh_id-fresh (suc n) h =
    (λ e. absurd (omega (arith, e)), omega arith, ground arith, λ k. ground arith)
