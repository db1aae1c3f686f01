-- ===== src/Scheduler/Mailbox/Epoch.antt =====
-- A deadline ends the wait that it was armed for, and no other.
use bytecode_vm.Prelude.{
  ℕ, ◌+◌, ◌%◌, ◌<◌, ◌≡◌, ◌≢◌, refl, sym, ◌∙◌, Bool, true, false, ==_iff, ◌==◌, Option, none, some,
  if◌then◌else◌, arith,
}
use bytecode_vm.Prelude.Int.{u64_mod}
use bytecode_vm.Bytecode.Value.{Value}
use bytecode_vm.Scheduler.Process.{Flow}
use bytecode_vm.Scheduler.Mailbox.{
  Mailbox, take_at, take_parked_at, popped, try_pop_filter, parked_at, park_after, park_filter,
}
use bytecode_vm.Scheduler.Mailbox.Queue.{WaitFilter, any, MailboxQueue, take}

-- What a park leaves: the flow, under a new epoch.
park_after-parked :
    (size : ℕ) (flow : Flow) (filter : WaitFilter) (mb mb' : Mailbox) (e : ℕ)
    (r : Option Value × MailboxQueue)
    → park_after size flow filter (popped size mb r) ≡ (parked_at e, mb')
    → (mb'.wait_epoch ≡ e) × (mb'.parked ≡ some flow) × (e ≡ (mb.wait_epoch + 1) % u64_mod)
park_after-parked size flow filter mb mb' e (none, q) h = (cc, cc, cc)
park_after-parked size flow filter mb mb' e (some v, q) h = cc

at_epoch :
    (epoch : ℕ) (flow : Flow) (mb : Mailbox)
    → mb.wait_epoch ≡ epoch
    → mb.parked ≡ some flow
    → take_parked_at epoch mb ≡ (some flow, record mb { parked = none; parked_filter = any })
unfolding take_parked_at
at_epoch epoch flow mb he hp = rw ((==_iff mb.wait_epoch epoch).1 he, hp) refl

other_epoch :
    (epoch : ℕ) (mb : Mailbox) → mb.wait_epoch ≢ epoch → take_parked_at epoch mb ≡ (none, mb)
unfolding take_parked_at
other_epoch epoch mb h = stale (mb.wait_epoch == epoch) refl
  where
    stale :
        (b : Bool)
        → (mb.wait_epoch == epoch) ≡ b
        → (if b then take_at mb.parked mb else (none, mb)) ≡ (none, mb)
    stale true e = absurd (h ((==_iff mb.wait_epoch epoch).0 e))
    stale false e = refl

-- When a flow is parked under epoch `e`, the counter before being a 64-bit number, a deadline of
-- epoch `e` takes it out, a deadline of any other epoch changes nothing, and `e` is not the epoch
-- of the wait before.
pub park_filter-take_parked_at :
    (size : ℕ) (flow : Flow) (filter : WaitFilter) (mb mb' : Mailbox) (e : ℕ)
    → mb.wait_epoch < u64_mod
    → park_filter size flow filter mb ≡ (parked_at e, mb')
    → (take_parked_at e mb' ≡ (some flow, record mb' { parked = none; parked_filter = any }))
      × ((other : ℕ) → e ≢ other → take_parked_at other mb' ≡ (none, mb'))
      × (e ≢ mb.wait_epoch)
unfolding park_filter try_pop_filter
park_filter-take_parked_at size flow filter mb mb' e hw h =
    let (he, hp, hn) = park_after-parked size flow filter mb mb' e (take size filter mb.queue) h in
    (
      at_epoch e flow mb' he hp,
      λ other no. other_epoch other mb' (λ same. no (sym he ∙ same)),
      λ same. absurd (omega (arith, hn, same)),
    )
