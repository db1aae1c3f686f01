-- ===== src/Tests/Budget.antt =====
-- Budgets, register windows and births, on small quotas and one function.
use bytecode_vm.Prelude.{ℕ, ◌+◌, ◌-◌, ◌≤◌, ◌<◌, ◌≡◌, refl, true, none, [], ◌∷◌, arith}
use bytecode_vm.Prelude.Int.{ℤ, pos}
use bytecode_vm.Prelude.Result.{ok}
use bytecode_vm.Bytecode.Cap.{
  Cap, flow, flow_rights, admin_right, send_right, spawn_right, is_valid, contains, intersect,
  attenuate, attenuate_mask, root,
}
use bytecode_vm.Bytecode.Builder.{new, begin_function}
use bytecode_vm.Bytecode.Program.{Fn, open_with, window}
use bytecode_vm.Bytecode.Program.Locals.{IsOpen, window-in_frame}
use bytecode_vm.Scheduler.Quota.{
  TokenBucket, FlowQuota, charge_cpu, remaining_cpu, check_spawn, try_consume, refill,
}
use bytecode_vm.Scheduler.Quota.Rates.{charges, charges-spent}
use bytecode_vm.Scheduler.Spawn.{child_cap, exec_spawn_authority}
use bytecode_vm.Scheduler.Spawn.Confined.{IsBornConfined, exec_spawn_authority-eq-ok}

abbrev bucket : ℤ → TokenBucket
bucket n = record { capacity = pos 2; tokens = n; refill_per_sec = pos 1; last_refill = 1000 }

abbrev quota : ℤ → FlowQuota
quota n = record {
  cpu_budget = pos 10;
  mem_limit = 1024;
  mem_used = 0;
  spawn_bucket = bucket n;
  send_bucket = bucket (pos 1);
}

charges-spent_example :
    ((charges (7 ∷ 4 ∷ 3 ∷ []) (quota (pos 1))).0 ≤ 10)
    × (remaining_cpu (charges (7 ∷ 4 ∷ 3 ∷ []) (quota (pos 1))).1
        ≡ pos (10 - (charges (7 ∷ 4 ∷ 3 ∷ []) (quota (pos 1))).0))
charges-spent_example = charges-spent (7 ∷ 4 ∷ 3 ∷ []) 10 (quota (pos 1)) refl

-- The second of the charges is refused.
refused_once : (charges (7 ∷ 4 ∷ 3 ∷ []) (quota (pos 1))).0 ≡ 10
unfolding charges charge_cpu
refused_once = refl

abbrev opened : Fn
unfolding open_with new begin_function
opened = open_with [] 0 4 (new [])

opened-IsOpen : IsOpen opened
unfolding open_with new begin_function
opened-IsOpen = record {
  def = record { name = []; entry = 0; arity = 0; num_registers = 4 };
  is_declared = refl;
  has_registers = refl;
}

window-in_frame_example :
    (opened.next_reg ≤ (window 3 opened).0.base + 2)
    × (o : IsOpen (window 3 opened).1) × ((window 3 opened).0.base + 2 < o.def.num_registers)
unfolding open_with new begin_function
window-in_frame_example = window-in_frame 3 2 opened opened-IsOpen (omega arith) (omega arith)

abbrev parent : Cap
parent = record { target = flow 1; rights = flow_rights; native_mask = none; epoch = 5 }

-- A request for administration and sending, by a parent that may send.
abbrev child : Cap
child = record { target = flow 2; rights = send_right; native_mask = none; epoch = 0 }

no_growth : ℕ → ℤ → ℤ
no_growth elapsed rate = pos 0

exec_spawn_authority-eq-ok_example :
    (is_valid parent 5 ≡ true)
    × (contains flow_rights spawn_right ≡ true)
    × (check_spawn no_growth 1000 (quota (pos 2)) ≡ (ok tt, quota (pos 1)))
    × IsBornConfined parent child 2 (admin_right + send_right) 0
unfolding exec_spawn_authority check_spawn try_consume refill is_valid contains child_cap attenuate
    intersect attenuate_mask root
exec_spawn_authority-eq-ok_example =
    exec_spawn_authority-eq-ok no_growth 1000 parent 5 (quota (pos 2)) (quota (pos 1)) 2
      (admin_right + send_right) none 0 child refl
