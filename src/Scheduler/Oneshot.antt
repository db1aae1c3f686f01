-- ===== src/Scheduler/Oneshot.antt =====
-- scheduler/oneshot.rs: the hand-over of a flow's outcome, and the thread that waits for it.
--
-- The channel has one sender and one joiner, each a thread. A step is what one of them does while
-- it holds the lock; a poisoned lock is not modelled. A condition variable wakes a thread that waits
-- on it, may wake it for no reason, and forgets a notification that finds nobody waiting. Times are
-- numbers.
pub mod Delivery
pub mod Once
use bytecode_vm.Prelude.{
  ℕ, ◌+◌, Bool, true, false, ◌||◌, leb, Option, none, some, List, [], ◌∷◌, if◌then◌else◌,
}
use bytecode_vm.Prelude.Result.{Result, ok, err}
use bytecode_vm.Scheduler.Error.{RuntimeError, abandoned as abandoned_at, already_collected}

pub data Slot (A : Type 0) : Type 0 where
  pending : Slot A
  ready : A → Slot A
  abandoned : Slot A
  taken : Slot A

-- "oneshot"
abbrev pub oneshot_name : List ℕ
oneshot_name = 111 ∷ 110 ∷ 101 ∷ 115 ∷ 104 ∷ 111 ∷ 116 ∷ []

pub data JoinState (A : Type 0) : Type 0 where
  ready : A → JoinState A
  pending : JoinState A

pub record Sender : Type 0 where
  pub sent : Bool

-- The thread that joins: not in a call, asleep on the condition variable with its deadline, if it
-- has one, or returned.
pub data Joiner (A : Type 0) : Type 0 where
  idle : Joiner A
  waiting : Option ℕ → Joiner A
  returned : Result RuntimeError (JoinState A) → Joiner A

-- `sender` is `none` once the sender is dropped; `woken` is a notification that a waiting joiner has
-- got and not yet acted on.
pub record Channel (A : Type 0) : Type 0 where
  pub slot : Slot A
  pub sender : Option Sender
  pub joiner : Joiner A
  pub woken : Bool

-- Whether the wait is over at a time.
abbrev pub is_past : Option ℕ → ℕ → Bool
is_past (some deadline) now = leb deadline now
is_past none now = false

module _ {A : Type 0} where
  unfoldable pub channel : Channel A
  channel = record {
    slot = Slot.pending;
    sender = some (record { sent = false });
    joiner = idle;
    woken = false;
  }

  unfoldable pub collect : Slot A → Option (Result RuntimeError A) × Slot A
  collect (Slot.ready value) = (some (ok value), taken)
  collect Slot.pending = (none, Slot.pending)
  collect abandoned = (some (err (abandoned_at oneshot_name)), abandoned)
  collect taken = (some (err (already_collected oneshot_name)), taken)

  abbrev pub is_waiting : Joiner A → Bool
  is_waiting (waiting deadline) = true
  is_waiting idle = false
  is_waiting (returned r) = false

  -- `cvar.notify_one()`
  abbrev pub notify_one : Channel A → Channel A
  notify_one c = record c { woken = c.woken || is_waiting c.joiner }

  -- The guarded transition: only a slot that still waits for a value is abandoned.
  abbrev pub disconnect : Slot A → Channel A → Channel A
  disconnect Slot.pending c = notify_one (record c { slot = abandoned })
  disconnect (Slot.ready value) c = c
  disconnect abandoned c = c
  disconnect taken c = c

  -- `Drop for Sender`
  unfoldable pub drop_sender : Sender → Channel A → Channel A
  drop_sender sender c =
      let gone = record c { sender = none } in if sender.sent then gone else disconnect c.slot gone

  -- `send` consumes the sender, which is dropped on return.
  unfoldable pub send : A → Sender → Channel A → Channel A
  unfolding drop_sender
  send value sender c =
      drop_sender (record sender { sent = true })
        (notify_one (record c { slot = Slot.ready value }))

  -- `result.map(JoinState::Ready)`
  abbrev pub joined : Result RuntimeError A → Result RuntimeError (JoinState A)
  joined (ok value) = ok (JoinState.ready value)
  joined (err e) = err e

  abbrev pub tried :
      Channel A
      → Option (Result RuntimeError A) × Slot A
      → Result RuntimeError (JoinState A) × Channel A
  tried c (some r, slot) = (joined r, record c { slot = slot })
  tried c (none, slot) = (ok JoinState.pending, record c { slot = slot })

  unfoldable pub try_join : Channel A → Result RuntimeError (JoinState A) × Channel A
  unfolding collect
  try_join c = tried c (collect c.slot)

  -- What the joiner does with what it found in the slot.
  abbrev pub turn_with :
      Option ℕ → ℕ → Channel A → Option (Result RuntimeError A) × Slot A → Channel A
  turn_with deadline now c (some r, slot) = record c {
    slot = slot;
    joiner = returned (joined r);
    woken = false;
  }
  turn_with deadline now c (none, slot) = record c {
    slot = slot;
    joiner = if is_past deadline now then returned (ok JoinState.pending) else waiting deadline;
    woken = false;
  }

  -- One turn of a loop that waits, with a deadline or without one.
  unfoldable pub turn : Option ℕ → ℕ → Channel A → Channel A
  unfolding collect
  turn deadline now c = turn_with deadline now c (collect c.slot)

  unfoldable pub join_deadline : ℕ → ℕ → Channel A → Channel A
  unfolding turn
  join_deadline deadline now c = turn (some deadline) now c

  unfoldable pub wait_forever : ℕ → Channel A → Channel A
  unfolding turn
  wait_forever now c = turn none now c

  -- A deadline past the range of the clock is none. The clock is read at `start` for the deadline,
  -- and at `now` in the loop.
  unfoldable pub join_timeout : ℕ → ℕ → ℕ → ℕ → Channel A → Channel A
  unfolding join_deadline wait_forever
  join_timeout clock_range start now timeout c =
      if leb (start + timeout) clock_range
      then join_deadline (start + timeout) now c
      else wait_forever now c
