-- ===== src/Scheduler/Mailbox/Reach.antt =====
-- Every inbox that a sequence of operations reaches is sound, and each park has its own epoch.
use bytecode_vm.Prelude.{
  ℕ, ◌+◌, ◌≤◌, ◌<◌, ◌≡◌, refl, Bool, true, false, ◌==◌, Option, none, some, List, [], ◌∷◌, ◌++◌,
  if◌then◌else◌, arith,
}
use bytecode_vm.Prelude.Int.{u64_mod}
use bytecode_vm.Prelude.Result.{Result, ok, err}
use bytecode_vm.Bytecode.Value.{Value}
use bytecode_vm.Scheduler.Process.{Flow}
use bytecode_vm.Scheduler.Mailbox.{
  Mailbox, Delivery, with_config, take_at, take_parked_at, take_parked, close, park_sender,
  ParkSender, sender_refused, sender_parked, take_waiting_sender, without_sender, remove_sender,
  push, push_system, popped, try_pop_filter, park_after, park_filter, admit, admitted,
  admit_waiting_sender, enqueue_locked,
}
use bytecode_vm.Scheduler.Mailbox.Queue.{
  WaitFilter, OverflowPolicy, reject, MailboxFullReason, MailboxQueue, take, new,
}
use bytecode_vm.Scheduler.Mailbox.Queue.Fifo.{Takes, takes, leaves, take-Takes}
use bytecode_vm.Scheduler.Mailbox.Queue.Bounds.{take-IsCharged}
use bytecode_vm.Scheduler.Mailbox.Wakeup.{
  IsSound, take-QuietFor, quiet_none, enqueue_locked-IsSound, popped-IsSound, push-IsSound,
  HasSpace, push_system-IsSound, try_pop_filter-IsSound,
}

module _ (size : ℕ) where
  park_after-IsSound :
      (flow : Flow) (filter : WaitFilter) (mb : Mailbox) (r : Option Value × MailboxQueue)
      → Takes size filter mb.queue r
      → IsSound size ((popped size mb r).1)
      → IsSound size ((park_after size flow filter (popped size mb r)).1)
  park_after-IsSound flow filter mb _ (takes before v behind e skipped m) s = s
  park_after-IsSound flow filter mb _ (leaves all) s = record { quiet = all; charged = s.charged }

  -- A flow is parked only when no queued hop is one that it waits for.
  park_filter-IsSound :
      (flow : Flow) (filter : WaitFilter) (mb : Mailbox)
      → IsSound size mb
      → IsSound size ((park_filter size flow filter mb).1)
  unfolding park_filter try_pop_filter
  park_filter-IsSound flow filter mb s =
      park_after-IsSound flow filter mb (take size filter mb.queue)
        (take-Takes size filter mb.queue)
        (popped-IsSound size mb (take size filter mb.queue)
          (take-QuietFor size filter mb.queue mb.parked_filter mb.parked s.quiet)
          (take-IsCharged size filter mb.queue s.charged).0)

  take_at-IsSound :
      (o : Option Flow) (mb : Mailbox) → IsSound size mb → IsSound size ((take_at o mb).1)
  take_at-IsSound none mb s = s
  take_at-IsSound (some flow) mb s = record { quiet = tt; charged = s.charged }

  take_parked_at-IsSound :
      (epoch : ℕ) (mb : Mailbox) → IsSound size mb → IsSound size ((take_parked_at epoch mb).1)
  unfolding take_parked_at
  take_parked_at-IsSound epoch mb s = current (mb.wait_epoch == epoch)
    where
      current : (b : Bool) → IsSound size ((if b then take_at mb.parked mb else (none, mb)).1)
      current true = take_at-IsSound mb.parked mb s
      current false = s

  without_sender-IsSound :
      (mb : Mailbox) (o : Option (Flow × List (Flow × Value)))
      → IsSound size mb
      → IsSound size ((without_sender mb o).1)
  without_sender-IsSound mb none s = s
  without_sender-IsSound mb (some (flow, ws)) s = record { quiet = s.quiet; charged = s.charged }

  park_sender-IsSound :
      (flow : Flow) (hop : Value) (mb : Mailbox)
      → IsSound size mb
      → IsSound size ((park_sender flow hop mb).1)
  unfolding park_sender
  park_sender-IsSound flow hop mb s = at_inbox mb.closed
    where
      at_inbox :
          (b : Bool)
          → IsSound size (
              (if◌then◌else◌ {A = ParkSender × Mailbox} b
                (sender_refused flow, mb)
                (
                  sender_parked,
                  record mb { waiting_senders = mb.waiting_senders ++ ((flow, hop) ∷ []) },
                )).1)
      at_inbox true = s
      at_inbox false = record { quiet = s.quiet; charged = s.charged }

  admitted-IsSound :
      (flow : Flow) (mb : Mailbox) (r : Result MailboxFullReason Delivery × Mailbox)
      (every rest : List (Flow × Value))
      → IsSound size (r.1)
      → IsSound size ((admitted size flow mb r every rest).1)
  admitted-IsSound flow mb (ok _, mb') every rest s = record {
    quiet = s.quiet;
    charged = s.charged;
  }
  admitted-IsSound flow mb (err _, mb') every rest s = record {
    quiet = s.quiet;
    charged = s.charged;
  }

  admit-IsSound :
      (ws : List (Flow × Value)) (mb : Mailbox)
      → mb.parked ≡ none
      → IsSound size mb
      → IsSound size ((admit size ws mb).1)
  admit-IsSound [] mb e s = s
  admit-IsSound ((flow, hop) ∷ rest) mb e s =
      admitted-IsSound flow mb (enqueue_locked size reject hop mb) _ rest (
        enqueue_locked-IsSound size reject hop mb s
          (quiet_none size mb.parked_filter mb.parked (hop ∷ []) e))

  admit_waiting_sender-IsSound :
      (mb : Mailbox)
      → mb.parked ≡ none
      → IsSound size mb
      → IsSound size ((admit_waiting_sender size mb).1)
  unfolding admit_waiting_sender
  admit_waiting_sender-IsSound mb e s = open_inbox mb.closed
    where
      open_inbox :
          (b : Bool) → IsSound size ((if b then (none, mb) else admit size mb.waiting_senders mb).1)
      open_inbox true = s
      open_inbox false = admit-IsSound mb.waiting_senders mb e s

  -- The inboxes that the operations reach, in any order. A worker admits a waiting sender for the
  -- flow that it runs, which is not parked then.
  pub data Reaches (start : Mailbox) : Mailbox → Type 0 where
    started : Reaches start start
    pushed : {mb : Mailbox} → Reaches start mb → (v : Value) → Reaches start ((push size v mb).1)
    system_pushed :
        {mb : Mailbox}
        → Reaches start mb
        → (v : Value) → HasSpace size v mb
        → Reaches start ((push_system size v mb).1)
    tried :
        {mb : Mailbox}
        → Reaches start mb
        → (filter : WaitFilter) → Reaches start ((try_pop_filter size filter mb).1)
    waited :
        {mb : Mailbox}
        → Reaches start mb
        → (flow : Flow) (filter : WaitFilter) → Reaches start ((park_filter size flow filter mb).1)
    timed_out :
        {mb : Mailbox}
        → Reaches start mb
        → (epoch : ℕ) → Reaches start ((take_parked_at epoch mb).1)
    killed : {mb : Mailbox} → Reaches start mb → Reaches start ((take_parked mb).1)
    sender_waited :
        {mb : Mailbox}
        → Reaches start mb
        → (flow : Flow) (hop : Value) → Reaches start ((park_sender flow hop mb).1)
    sender_killed :
        {mb : Mailbox}
        → Reaches start mb
        → (sender : ℕ) → Reaches start ((take_waiting_sender sender mb).1)
    sender_admitted :
        {mb : Mailbox}
        → Reaches start mb
        → mb.parked ≡ none
        → Reaches start ((admit_waiting_sender size mb).1)
    shut : {mb : Mailbox} → Reaches start mb → Reaches start ((close mb).1)

  reached-IsSound : {start mb : Mailbox} → IsSound size start → Reaches start mb → IsSound size mb
  unfolding take_parked take_waiting_sender close
  reached-IsSound s started = s
  reached-IsSound s (pushed {mb} r v) = push-IsSound size v mb (reached-IsSound s r)
  reached-IsSound s (system_pushed {mb} r v h) =
      push_system-IsSound size v mb (reached-IsSound s r) h
  reached-IsSound s (tried {mb} r filter) =
      try_pop_filter-IsSound size filter mb (reached-IsSound s r)
  reached-IsSound s (waited {mb} r flow filter) =
      park_filter-IsSound flow filter mb (reached-IsSound s r)
  reached-IsSound s (timed_out {mb} r epoch) = take_parked_at-IsSound epoch mb (reached-IsSound s r)
  reached-IsSound s (killed r) = record { quiet = tt; charged = (reached-IsSound s r).charged }
  reached-IsSound s (sender_waited {mb} r flow hop) =
      park_sender-IsSound flow hop mb (reached-IsSound s r)
  reached-IsSound s (sender_killed {mb} r sender) =
      without_sender-IsSound mb (remove_sender sender mb.waiting_senders) (reached-IsSound s r)
  reached-IsSound s (sender_admitted {mb} r e) =
      admit_waiting_sender-IsSound mb e (reached-IsSound s r)
  reached-IsSound s (shut r) =
      let h = reached-IsSound s r in record { quiet = h.quiet; charged = h.charged }

  -- In every inbox that any sequence of operations reaches from a new one, whose capacity is
  -- positive and whose byte budget is below 2 ^ 64 - 1, no queued hop is one that the parked flow
  -- waits for, and the charge is the bytes of the queued hops. A system hop must not overflow the
  -- charge, and a waiting sender is admitted only while the owner is not parked.
  pub Reaches-IsSound :
      (capacity bytes : ℕ) (policy : OverflowPolicy) (mb : Mailbox)
      → 1 ≤ capacity
      → bytes + 1 < u64_mod
      → Reaches (with_config capacity bytes policy) mb
      → IsSound size mb
  unfolding with_config new
  Reaches-IsSound capacity bytes policy mb hc hb r =
      reached-IsSound
        (record {
          quiet = tt;
          charged = record {
            charge = refl;
            in_range = omega arith;
            budget_small = hb;
            has_limit = hc;
          };
        })
        r
