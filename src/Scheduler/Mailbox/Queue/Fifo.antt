-- ===== src/Scheduler/Mailbox/Queue/Fifo.antt =====
-- What leaves the queue, and in which order.
use bytecode_vm.Prelude.{
  ℕ, ◌-◌, ◌≡◌, refl, ap, Bool, true, false, Option, none, some, List, [], ◌∷◌, ◌++◌, All,
  if◌then◌else◌,
}
use bytecode_vm.Bytecode.Value.{Value, memory_size}
use bytecode_vm.Scheduler.Mailbox.Queue.{
  WaitFilter, matches, MailboxQueue, remove_first, take, taken,
}

-- `v` is the first hop that the filter matches, and `ws` are the others in their order.
pub data Removes (filter : WaitFilter) (vs : List Value)
    : Option (Value × List Value) → Type 0 where
  removes :
      (before : List Value) (v : Value) (behind : List Value)
      → vs ≡ before ++ (v ∷ behind)
      → All (λ x. matches filter x ≡ false) before
      → matches filter v ≡ true
      → Removes filter vs (some (v, before ++ behind))
  no_match : All (λ x. matches filter x ≡ false) vs → Removes filter vs none

skip :
    (filter : WaitFilter) (x : Value) (vs : List Value) (o : Option (Value × List Value))
    → matches filter x ≡ false
    → Removes filter vs o
    → Removes filter (x ∷ vs) (elim o as (λ _. Option (Value × List Value)) [
      | some (w, ws) ↦ some (w, x ∷ ws)
      | none ↦ none
    ])
skip filter x vs _ h (removes before v behind e skipped m) =
    removes (x ∷ before) v behind (ap (λ l. x ∷ l) e) (h, skipped) m
skip filter x vs _ h (no_match all) = no_match (h, all)

step :
    (filter : WaitFilter) (x : Value) (vs : List Value) (b : Bool) (o : Option (Value × List Value))
    → matches filter x ≡ b
    → Removes filter vs o
    → Removes filter (x ∷ vs) (
        if b then some (x, vs) else elim o as (λ _. Option (Value × List Value)) [
          | some (w, ws) ↦ some (w, x ∷ ws)
          | none ↦ none
        ])
step filter x vs true o h r = removes [] x vs refl tt h
step filter x vs false o h r = skip filter x vs o h r

pub remove_first-Removes :
    (filter : WaitFilter) (vs : List Value) → Removes filter vs (remove_first filter vs)
unfolding remove_first
remove_first-Removes filter [] = no_match tt
remove_first-Removes filter (x ∷ vs) =
    step filter x vs (matches filter x) (remove_first filter vs) refl
      (remove_first-Removes filter vs)

-- The effect of a take: one matching hop leaves and is refunded, and everything else stays in
-- order, or nothing matches and nothing changes.
pub data Takes (size : ℕ) (filter : WaitFilter) (q : MailboxQueue)
    : Option Value × MailboxQueue → Type 0 where
  takes :
      (before : List Value) (v : Value) (behind : List Value)
      → q.inner ≡ before ++ (v ∷ behind)
      → All (λ x. matches filter x ≡ false) before
      → matches filter v ≡ true
      → Takes size filter q
          (some v, record q { inner = before ++ behind; bytes = q.bytes - memory_size size v })
  leaves : All (λ x. matches filter x ≡ false) q.inner → Takes size filter q (none, q)

taken-Takes :
    (size : ℕ) (filter : WaitFilter) (q : MailboxQueue) (o : Option (Value × List Value))
    → Removes filter q.inner o
    → Takes size filter q (taken size q o)
taken-Takes size filter q _ (removes before v behind e skipped m) =
    takes before v behind e skipped m
taken-Takes size filter q _ (no_match all) = leaves all

-- A take removes the oldest hop that the filter matches, refunds its bytes, and keeps the hops
-- before and behind it in their order; it leaves the queue as it is when no hop matches.
pub take-Takes :
    (size : ℕ) (filter : WaitFilter) (q : MailboxQueue) → Takes size filter q (take size filter q)
unfolding take
take-Takes size filter q =
    taken-Takes size filter q (remove_first filter q.inner) (remove_first-Removes filter q.inner)
