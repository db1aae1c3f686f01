-- ===== src/Scheduler/Mailbox/Queue.antt =====
-- scheduler/mailbox/queue.rs: the bounded queue of hops, and scheduler/mailbox/mod.rs, `WaitFilter`.
--
-- The front of the queue is the head of the list. `reserve_for_push` decides how much the
-- allocator holds, which is no part of the model: below the limit it always succeeds.
pub mod Fifo
pub mod Bounds
pub mod Overflow
use bytecode_vm.Prelude.{
  ℕ, ◌-◌, Bool, true, false, Option, none, some, List, [], ◌∷◌, ◌++◌, length, ltb, leb, ◌==◌, ◌&&◌,
  ◌||◌, if◌then◌else◌,
}
use bytecode_vm.Prelude.Result.{Result, ok, err}
use bytecode_vm.Bytecode.Value.{Value, memory_size}
use bytecode_vm.Scheduler.Quota.{saturating_add}

pub data WaitFilter : Type 0 where
  any : WaitFilter
  tagged : ℕ → WaitFilter
  correlation : ℕ → Option ℕ → WaitFilter
  tagged_correlation : ℕ → ℕ → WaitFilter

abbrev pub sender_ok : Option ℕ → ℕ → Bool
sender_ok (some expected) sender = sender == expected
sender_ok none sender = true

-- `WaitFilter::matches`
unfoldable pub matches : WaitFilter → Value → Bool
matches any value = true
matches (tagged expected) (Value.message m p) = m.tag == expected
matches (correlation expected expect_sender) (Value.message m p) =
    m.request_id == expected && sender_ok expect_sender m.sender
matches (tagged_correlation tag expected) (Value.message m p) =
    m.tag == tag && m.request_id == expected
matches _ _ = false

pub data OverflowPolicy : Type 0 where
  reject : OverflowPolicy
  drop_newest : OverflowPolicy
  drop_oldest : OverflowPolicy

pub data MailboxFullReason : Type 0 where
  message_limit : MailboxFullReason
  byte_limit : MailboxFullReason

pub data EnqueueEffect : Type 0 where
  enqueued : EnqueueEffect
  dropped_newest : EnqueueEffect
  dropped_oldest : EnqueueEffect

pub record MailboxQueue : Type 0 where
  pub inner : List Value
  pub limit : ℕ
  pub bytes : ℕ
  pub byte_limit : ℕ

unfoldable pub new : ℕ → ℕ → MailboxQueue
new limit budget = record { inner = []; limit = limit; bytes = 0; byte_limit = budget }

abbrev pub is_full : MailboxQueue → Bool
is_full q = leb q.limit (length q.inner)

abbrev pub would_exceed_bytes : MailboxQueue → ℕ → Bool
would_exceed_bytes q cost = ltb q.byte_limit (saturating_add q.bytes cost)

-- The first hop that the filter matches, and the queue without it.
unfoldable pub remove_first : WaitFilter → List Value → Option (Value × List Value)
remove_first filter [] = none
remove_first filter (v ∷ vs) =
    if matches filter v
    then some (v, vs)
    else elim (remove_first filter vs) [ some (w, ws) ↦ some (w, v ∷ ws) | none ↦ none ]

abbrev pub after_evict : MailboxQueue → ℕ → List Value × ℕ → MailboxQueue
after_evict q cost (vs, bytes) = record q { inner = vs; bytes = bytes }

abbrev pub full_reason : MailboxQueue → MailboxFullReason
full_reason q = if is_full q then message_limit else byte_limit

abbrev pub fits : MailboxQueue → ℕ → Bool
fits q cost = if is_full q then false else if would_exceed_bytes q cost then false else true

-- `size` is `size_of::<Value>()`.
module _ (size : ℕ) where
  abbrev pub taken : MailboxQueue → Option (Value × List Value) → Option Value × MailboxQueue
  taken q none = (none, q)
  taken q (some (v, vs)) = (some v, record q { inner = vs; bytes = q.bytes - memory_size size v })

  -- `take`: refund the hop that leaves. The filter `any` matches the front hop.
  unfoldable pub take : WaitFilter → MailboxQueue → Option Value × MailboxQueue
  take filter q = taken q (remove_first filter q.inner)

  -- The charge of a hop at the back, saturating as the source does.
  abbrev pub push_back : Value → MailboxQueue → MailboxQueue
  push_back v q = record q {
    inner = q.inner ++ (v ∷ []);
    bytes = saturating_add q.bytes (memory_size size v);
  }

  -- The loop of `DropOldest`, on the hops that are left and their bytes, until one of `cost` fits.
  unfoldable pub evict : ℕ → ℕ → ℕ → List Value → ℕ → List Value × ℕ
  evict limit budget cost [] bytes = ([], bytes)
  evict limit budget cost (v ∷ vs) bytes =
      let rest = evict limit budget cost vs (bytes - memory_size size v) in
      if leb limit (length (v ∷ vs)) || ltb budget (saturating_add bytes cost)
      then rest
      else (v ∷ vs, bytes)

  -- The `DropOldest` branch. A hop over the whole budget is refused, the queue being empty then.
  abbrev pub drop_and_push :
      Value → MailboxQueue → MailboxQueue → Result MailboxFullReason EnqueueEffect × MailboxQueue
  drop_and_push v before q =
      if would_exceed_bytes q (memory_size size v) then (err byte_limit, q) else (
        ok (if ltb (length q.inner) (length before.inner) then dropped_oldest else enqueued),
        push_back v q,
      )

  abbrev pub overflow :
      OverflowPolicy → Value → MailboxQueue → Result MailboxFullReason EnqueueEffect × MailboxQueue
  overflow reject v q = (err (full_reason q), q)
  overflow drop_newest v q = (ok dropped_newest, q)
  overflow drop_oldest v q = drop_and_push v q (
      after_evict q (memory_size size v)
        (evict q.limit q.byte_limit (memory_size size v) q.inner q.bytes))

  unfoldable pub enqueue :
      OverflowPolicy → Value → MailboxQueue → Result MailboxFullReason EnqueueEffect × MailboxQueue
  enqueue policy v q =
      if fits q (memory_size size v) then (ok enqueued, push_back v q) else overflow policy v q

  -- System hops ignore both bounds, and are charged.
  unfoldable pub force_push : Value → MailboxQueue → MailboxQueue
  force_push v q = push_back v q
