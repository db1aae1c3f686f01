-- ===== src/Scheduler/Mailbox.antt =====
-- scheduler/mailbox/mod.rs: the inbox of a flow.
--
-- Every operation holds the inbox's mutex from its start to its end, so that it is one step of the
-- model. A poisoned mutex is not modelled. A flow that waits stands in its own inbox.
pub mod Queue
pub mod Wakeup
pub mod Reach
pub mod Epoch
use bytecode_vm.Prelude.{
  ℕ, ◌+◌, ◌%◌, Bool, true, false, Option, none, some, List, [], ◌∷◌, ◌++◌, ◌==◌, if◌then◌else◌,
}
use bytecode_vm.Prelude.Int.{u64_mod}
use bytecode_vm.Prelude.Result.{Result, ok, err}
use bytecode_vm.Bytecode.Value.{Value}
use bytecode_vm.Scheduler.Quota.{saturating_add}
use bytecode_vm.Scheduler.Process.{Flow, with_pending}
use bytecode_vm.Scheduler.Mailbox.Queue.{
  WaitFilter, any, tagged, matches, OverflowPolicy, reject, MailboxFullReason, message_limit,
  byte_limit, EnqueueEffect, enqueued, dropped_newest, dropped_oldest, MailboxQueue, new, take,
  enqueue, force_push,
}

pub record MailboxStats : Type 0 where
  pub enqueued_count : ℕ
  pub dequeued : ℕ
  pub rejected : ℕ
  pub rejected_byte_limit : ℕ
  pub dropped_newest_count : ℕ
  pub dropped_oldest_count : ℕ

abbrev pub no_stats : MailboxStats
no_stats = record {
  enqueued_count = 0;
  dequeued = 0;
  rejected = 0;
  rejected_byte_limit = 0;
  dropped_newest_count = 0;
  dropped_oldest_count = 0;
}

pub record Mailbox : Type 0 where
  pub queue : MailboxQueue
  pub parked : Option Flow
  pub parked_filter : WaitFilter
  pub wait_epoch : ℕ
  pub stats : MailboxStats
  pub waiting_senders : List (Flow × Value)
  pub closed : Bool
  pub overflow_policy : OverflowPolicy

-- The limits come from a configuration, which has checked them.
unfoldable pub with_config : ℕ → ℕ → OverflowPolicy → Mailbox
with_config capacity bytes policy = record {
  queue = new capacity bytes;
  parked = none;
  parked_filter = any;
  wait_epoch = 0;
  stats = no_stats;
  waiting_senders = [];
  closed = false;
  overflow_policy = policy;
}

pub data Delivery : Type 0 where
  queued : Delivery
  queued_drop_oldest : Delivery
  newest_dropped : Delivery
  handoff : Flow → Delivery

abbrev pub count : ℕ → ℕ
count n = saturating_add n 1

-- What `enqueue_locked` makes of the queue's answer.
abbrev pub count_enqueue :
    Mailbox
    → Result MailboxFullReason EnqueueEffect × MailboxQueue
    → Result MailboxFullReason Delivery × Mailbox
count_enqueue mb (ok enqueued, q) = (
  ok queued,
  record mb {
    queue = q;
    stats = record (mb.stats) { enqueued_count = count (mb.stats).enqueued_count };
  },
)
count_enqueue mb (ok dropped_oldest, q) = (
  ok queued_drop_oldest,
  record mb {
    queue = q;
    stats = record (mb.stats) {
      dropped_oldest_count = count (mb.stats).dropped_oldest_count;
      enqueued_count = count (mb.stats).enqueued_count;
    };
  },
)
count_enqueue mb (ok dropped_newest, q) = (
  ok newest_dropped,
  record mb {
    queue = q;
    stats = record (mb.stats) { dropped_newest_count = count (mb.stats).dropped_newest_count };
  },
)
count_enqueue mb (err message_limit, q) = (
  err message_limit,
  record mb { queue = q; stats = record (mb.stats) { rejected = count (mb.stats).rejected } },
)
count_enqueue mb (err byte_limit, q) = (
  err byte_limit,
  record mb {
    queue = q;
    stats = record (mb.stats) {
      rejected = count (mb.stats).rejected;
      rejected_byte_limit = count (mb.stats).rejected_byte_limit;
    };
  },
)

-- A hop that goes to the parked flow counts on both sides.
abbrev pub count_handoff : MailboxStats → MailboxStats
count_handoff stats = record stats {
  dequeued = count stats.dequeued;
  enqueued_count = count stats.enqueued_count;
}

abbrev pub count_dequeue : MailboxStats → MailboxStats
count_dequeue stats = record stats { dequeued = count stats.dequeued }

abbrev pub unpark : Mailbox → Mailbox
unpark mb = record mb { parked = none; parked_filter = any; stats = count_handoff mb.stats }

abbrev pub take_at : Option Flow → Mailbox → Option Flow × Mailbox
take_at none mb = (none, mb)
take_at (some flow) mb = (some flow, record mb { parked = none; parked_filter = any })

-- The deadline of a wait takes the flow only while that wait is the current one.
unfoldable pub take_parked_at : ℕ → Mailbox → Option Flow × Mailbox
take_parked_at epoch mb = if mb.wait_epoch == epoch then take_at mb.parked mb else (none, mb)

unfoldable pub take_parked : Mailbox → Option Flow × Mailbox
take_parked mb = (mb.parked, record mb { parked = none; parked_filter = any })

abbrev pub flows_of : List (Flow × Value) → List Flow
flows_of [] = []
flows_of ((flow, _) ∷ ws) = flow ∷ flows_of ws

-- The senders that waited come out, and no other can wait.
unfoldable pub close : Mailbox → List Flow × Mailbox
close mb = (flows_of mb.waiting_senders, record mb { closed = true; waiting_senders = [] })

pub data ParkSender : Type 0 where
  sender_parked : ParkSender
  sender_refused : Flow → ParkSender

unfoldable pub park_sender : Flow → Value → Mailbox → ParkSender × Mailbox
park_sender flow hop mb =
    if mb.closed
    then (sender_refused flow, mb)
    else (sender_parked, record mb { waiting_senders = mb.waiting_senders ++ ((flow, hop) ∷ []) })

-- The first waiting sender of that id, and the others in their order.
unfoldable pub remove_sender : ℕ → List (Flow × Value) → Option (Flow × List (Flow × Value))
remove_sender sender [] = none
remove_sender sender ((flow, hop) ∷ ws) =
    if flow.id == sender
    then some (flow, ws)
    else elim (remove_sender sender ws) [ some (f, fs) ↦ some (f, (flow, hop) ∷ fs) | none ↦ none ]

abbrev pub without_sender : Mailbox → Option (Flow × List (Flow × Value)) → Option Flow × Mailbox
without_sender mb none = (none, mb)
without_sender mb (some (flow, ws)) = (some flow, record mb { waiting_senders = ws })

unfoldable pub take_waiting_sender : ℕ → Mailbox → Option Flow × Mailbox
take_waiting_sender sender mb = without_sender mb (remove_sender sender mb.waiting_senders)

-- The new park's epoch, or the flow that a queued hop resumes at once.
pub data Parking : Type 0 where
  parked_at : ℕ → Parking
  resumed : Flow → Parking

abbrev pub install : Flow → WaitFilter → Mailbox → Parking × Mailbox
install flow filter mb =
    let epoch = (mb.wait_epoch + 1) % u64_mod in
    (parked_at epoch, record mb { wait_epoch = epoch; parked_filter = filter; parked = some flow })

-- `size` is `size_of::<Value>()`.
module _ (size : ℕ) where
  abbrev pub enqueue_locked :
      OverflowPolicy → Value → Mailbox → Result MailboxFullReason Delivery × Mailbox
  enqueue_locked policy value mb = count_enqueue mb (enqueue size policy value mb.queue)

  -- A matching parked flow takes the hop, which never enters the queue.
  abbrev pub push_to : Option Flow → Value → Mailbox → Result MailboxFullReason Delivery × Mailbox
  push_to none value mb = enqueue_locked mb.overflow_policy value mb
  push_to (some flow) value mb =
      if matches mb.parked_filter value
      then (ok (handoff flow), unpark mb)
      else enqueue_locked mb.overflow_policy value mb

  unfoldable pub push : Value → Mailbox → Result MailboxFullReason Delivery × Mailbox
  push value mb = push_to mb.parked value mb

  abbrev pub forced : Value → Mailbox → Delivery × Mailbox
  forced value mb = (
    queued,
    record mb {
      queue = force_push size value mb.queue;
      stats = record (mb.stats) { enqueued_count = count (mb.stats).enqueued_count };
    },
  )

  abbrev pub push_system_to : Option Flow → Value → Mailbox → Delivery × Mailbox
  push_system_to none value mb = forced value mb
  push_system_to (some flow) value mb =
      if matches mb.parked_filter value then (handoff flow, unpark mb) else forced value mb

  unfoldable pub push_system : Value → Mailbox → Delivery × Mailbox
  push_system value mb = push_system_to mb.parked value mb

  abbrev pub popped : Mailbox → Option Value × MailboxQueue → Option Value × Mailbox
  popped mb (none, q) = (none, record mb { queue = q })
  popped mb (some v, q) = (some v, record mb { queue = q; stats = count_dequeue mb.stats })

  unfoldable pub try_pop_filter : WaitFilter → Mailbox → Option Value × Mailbox
  try_pop_filter filter mb = popped mb (take size filter mb.queue)

  unfoldable pub try_pop : Mailbox → Option Value × Mailbox
  try_pop mb = try_pop_filter any mb

  unfoldable pub try_pop_match : ℕ → Mailbox → Option Value × Mailbox
  try_pop_match tag mb = try_pop_filter (tagged tag) mb

  abbrev pub park_after : Flow → WaitFilter → Option Value × Mailbox → Parking × Mailbox
  park_after flow filter (some v, mb) = (resumed (with_pending flow v), mb)
  park_after flow filter (none, mb) = install flow filter mb

  -- The queue is searched once more before the flow is parked.
  unfoldable pub park_filter : Flow → WaitFilter → Mailbox → Parking × Mailbox
  park_filter flow filter mb = park_after flow filter (try_pop_filter filter mb)

  abbrev pub admitted :
      Flow
      → Mailbox
      → Result MailboxFullReason Delivery × Mailbox
      → List (Flow × Value)
      → List (Flow × Value)
      → Option Flow × Mailbox
  admitted flow mb (ok _, mb') all rest = (some flow, record mb' { waiting_senders = rest })
  admitted flow mb (err _, mb') all rest = (none, record mb' { waiting_senders = all })

  abbrev pub admit : List (Flow × Value) → Mailbox → Option Flow × Mailbox
  admit [] mb = (none, mb)
  admit ((flow, hop) ∷ rest) mb =
      admitted flow mb (enqueue_locked reject hop mb) ((flow, hop) ∷ rest) rest

  -- One waiting sender at most gets its hop into the queue.
  unfoldable pub admit_waiting_sender : Mailbox → Option Flow × Mailbox
  admit_waiting_sender mb = if mb.closed then (none, mb) else admit mb.waiting_senders mb
