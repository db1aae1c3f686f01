-- ===== src/Tests/Inbox.antt =====
-- The inbox on small queues, and a small quota.
use bytecode_vm.Prelude.Int.{pos}
use bytecode_vm.Scheduler.Quota.{TokenBucket, FlowQuota, alloc, free}
use bytecode_vm.Scheduler.Quota.Heap.{alloc-eq-ok}
use bytecode_vm.Prelude.{
  ◌+◌, ◌≤◌, ◌≤◌, ℕ, ◌≡◌, ◌≢◌, ◌<◌, refl, none, some, List, [], ◌∷◌, ◌++◌, length, replicate, arith,
}
use bytecode_vm.Prelude.Result.{ok, err}
use bytecode_vm.Bytecode.Value.{Value, Header, memory_size, heap_size}
use bytecode_vm.Scheduler.Process.{Flow}
use bytecode_vm.Scheduler.Mailbox.{
  Mailbox, with_config, push, take_parked_at, park_filter, try_pop_filter,
}
use bytecode_vm.Scheduler.Mailbox.Queue.{
  any, tagged, matches, drop_oldest, reject, byte_limit, EnqueueEffect, MailboxQueue, new, take,
  enqueue, remove_first,
}
use bytecode_vm.Scheduler.Mailbox.Queue.Fifo.{Takes, take-Takes}
use bytecode_vm.Scheduler.Mailbox.Queue.Bounds.{
  IsCharged, IsBounded, enqueue-IsCharged, take-IsCharged,
}
use bytecode_vm.Scheduler.Mailbox.Queue.Overflow.{
  pushed, HasNoRoom, enqueue-drop_oldest-accepted, enqueue-drop_oldest-refused,
}
use bytecode_vm.Scheduler.Mailbox.Wakeup.{IsSound}
use bytecode_vm.Scheduler.Mailbox.Reach.{started, pushed as pushed_hop, waited, Reaches-IsSound}
use bytecode_vm.Scheduler.Mailbox.Epoch.{park_filter-take_parked_at}
use bytecode_vm.Tests.Program.{machine}

header : ℕ → Header
header tag = record { sender = 1; reply_cap = 0; request_id = 0; tag = tag }

hop : ℕ → Value
unfolding header
hop tag = Value.message (header tag) (Value.int tag)

-- Three hops of 64 bytes, in a queue for four hops and 256 bytes, with values of 32 bytes.
three : MailboxQueue
unfolding hop header
three = record { inner = hop 1 ∷ hop 2 ∷ hop 3 ∷ []; limit = 4; bytes = 192; byte_limit = 256 }

three-IsCharged : IsCharged 32 three
unfolding three hop header memory_size heap_size
three-IsCharged = record {
  charge = refl;
  in_range = omega arith;
  budget_small = omega arith;
  has_limit = omega arith;
}

blob : ℕ → Value
blob n = Value.bytes (replicate n 0)

take-Takes_example : Takes 32 (tagged 2) three (take 32 (tagged 2) three)
take-Takes_example = take-Takes 32 (tagged 2) three

-- The second hop is the first of tag 2.
selective : (take 32 (tagged 2) three).0 ≡ some (hop 2)
unfolding take remove_first matches three hop header
selective = refl

take-IsCharged_example :
    IsCharged 32 (take 32 (tagged 2) three).1
    × (IsBounded three → IsBounded (take 32 (tagged 2) three).1)
take-IsCharged_example = take-IsCharged 32 (tagged 2) three three-IsCharged

enqueue-IsCharged_example :
    IsCharged 32 (enqueue 32 drop_oldest (blob 100) three).1
    × (IsBounded three → IsBounded (enqueue 32 drop_oldest (blob 100) three).1)
enqueue-IsCharged_example = enqueue-IsCharged 32 drop_oldest (blob 100) three three-IsCharged

enqueue-drop_oldest-refused_example :
    enqueue 32 drop_oldest (blob 300) three
    ≡ (err byte_limit, record three { inner = []; bytes = 0 })
unfolding three blob memory_size heap_size
enqueue-drop_oldest-refused_example =
    enqueue-drop_oldest-refused 32 (blob 300) three three-IsCharged (omega arith)

enqueue-drop_oldest-accepted_example :
    (dropped : List Value) × (kept : List Value) × (e : EnqueueEffect) × (three.inner
      ≡ dropped ++ kept)
    × (enqueue 32 drop_oldest (blob 100) three ≡ (ok e, pushed 32 (blob 100) three kept))
    × ((xs ys : List Value)
        → three.inner ≡ xs ++ ys
        → length kept < length ys
        → HasNoRoom 32 three (memory_size 32 (blob 100)) ys)
unfolding three blob memory_size heap_size
enqueue-drop_oldest-accepted_example =
    enqueue-drop_oldest-accepted 32 (blob 100) three three-IsCharged (omega arith)

receiver : Flow
receiver = record { id = 9; vm = machine; pending_message = none }

empty_inbox : Mailbox
empty_inbox = with_config 4 256 reject

Reaches-IsSound_example :
    IsSound 32 (push 32 (hop 1) (park_filter 32 receiver (tagged 2) empty_inbox).1).1
unfolding empty_inbox
Reaches-IsSound_example =
    Reaches-IsSound 32 4 256 reject _ (omega arith) (omega arith)
      (pushed_hop (waited started receiver (tagged 2)) (hop 1))

parked_inbox : Mailbox
parked_inbox = (park_filter 32 receiver (tagged 2) empty_inbox).1

park_filter-take_parked_at_example :
    (take_parked_at 1 parked_inbox
      ≡ (some receiver, record parked_inbox { parked = none; parked_filter = any }))
    × ((other : ℕ) → 1 ≢ other → take_parked_at other parked_inbox ≡ (none, parked_inbox))
    × (1 ≢ empty_inbox.wait_epoch)
unfolding parked_inbox park_filter try_pop_filter take remove_first empty_inbox with_config new
park_filter-take_parked_at_example =
    park_filter-take_parked_at 32 receiver (tagged 2) empty_inbox parked_inbox 1 (omega arith) refl

two_tokens : TokenBucket
two_tokens = record { capacity = pos 2; tokens = pos 2; refill_per_sec = pos 1; last_refill = 1000 }

small_quota : FlowQuota
small_quota = record {
  cpu_budget = pos 0;
  mem_limit = 100;
  mem_used = 30;
  spawn_bucket = two_tokens;
  send_bucket = two_tokens;
}

charged_quota : FlowQuota
charged_quota = record {
  cpu_budget = pos 0;
  mem_limit = 100;
  mem_used = 70;
  spawn_bucket = two_tokens;
  send_bucket = two_tokens;
}

alloc-eq-ok_example :
    (charged_quota.mem_used ≡ small_quota.mem_used + 40)
    × (charged_quota.mem_used ≤ charged_quota.mem_limit)
    × (free charged_quota 40 ≡ small_quota)
unfolding small_quota charged_quota alloc
alloc-eq-ok_example = alloc-eq-ok small_quota charged_quota 40 (omega arith) refl
