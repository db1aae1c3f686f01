-- ===== src/Scheduler/Quota/Heap.antt =====
-- The heap budget: charges add up, stay within the limit, and are given back whole.
use bytecode_vm.Prelude.{
  ℕ, ◌+◌, ◌-◌, ◌≤◌, ◌<◌, ◌≡◌, refl, ap, subst, sym, ◌∙◌, Bool, true, false, ltb, if◌then◌else◌,
  arith,
}
use bytecode_vm.Prelude.Int.{u64_mod}
use bytecode_vm.Prelude.Result.{ok, err}
use bytecode_vm.Scheduler.Quota.{memory_exhausted, FlowQuota, saturating_add, alloc, free}

alloc_at :
    (over : Bool) (q q' : FlowQuota) (n : ℕ)
    → ltb q.mem_limit (saturating_add q.mem_used n) ≡ over
    → (if over
        then err (memory_exhausted n q.mem_limit)
        else ok (record q { mem_used = saturating_add q.mem_used n }))
      ≡ ok q'
    → (saturating_add q.mem_used n ≤ q.mem_limit)
      × (record q { mem_used = saturating_add q.mem_used n } ≡ q')
alloc_at true q q' n e h = cc
alloc_at false q q' n e h = (ground arith, cc)

-- With a limit below 2 ^ 64 - 1, an allocation that succeeds charges exactly its bytes, stays
-- within the limit, and freeing the same bytes gives back the quota before it.
pub alloc-eq-ok :
    (q q' : FlowQuota) (n : ℕ)
    → q.mem_limit + 1 < u64_mod
    → alloc q n ≡ ok q'
    → (q'.mem_used ≡ q.mem_used + n) × (q'.mem_used ≤ q'.mem_limit) × (free q' n ≡ q)
unfolding alloc free
alloc-eq-ok q q' n small h =
    let (room, e) = alloc_at (ltb q.mem_limit (saturating_add q.mem_used n)) q q' n refl h in
    let sum : saturating_add q.mem_used n ≡ q.mem_used + n = ground arith in
    (
      sym (ap (λ (x : FlowQuota). x.mem_used) e) ∙ sum,
      subst (λ (x : FlowQuota). x.mem_used ≤ x.mem_limit) e room,
      ap (λ (x : FlowQuota). record x { mem_used = x.mem_used - n }) (sym e)
          ∙ ap (λ k. record q { mem_used = k }) (omega (arith, sum)),
    )
