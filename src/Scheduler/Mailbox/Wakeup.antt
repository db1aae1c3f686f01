-- ===== src/Scheduler/Mailbox/Wakeup.antt =====
-- No wakeup is lost, and no deadline ends a wait that is not its own.
use bytecode_vm.Prelude.{
  ℕ, ◌+◌, ◌-◌, ◌<◌, ◌≡◌, refl, sym, subst, Bool, true, false, Option, none, some, List, [], ◌∷◌,
  ◌++◌, All, All-append, ◌||◌, leb, ltb, length, if◌then◌else◌,
}
use bytecode_vm.Prelude.Int.{u64_mod}
use bytecode_vm.Prelude.Result.{Result, ok, err}
use bytecode_vm.Bytecode.Value.{Value, memory_size}
use bytecode_vm.Scheduler.Quota.{saturating_add}
use bytecode_vm.Scheduler.Process.{Flow}
use bytecode_vm.Scheduler.Mailbox.{
  Mailbox, count_enqueue, push_to, push, push_system_to, push_system, popped, try_pop_filter,
  enqueue_locked, forced,
}
use bytecode_vm.Scheduler.Mailbox.Queue.{
  WaitFilter, matches, OverflowPolicy, reject, drop_newest, drop_oldest, MailboxFullReason,
  message_limit, byte_limit, EnqueueEffect, enqueued, dropped_newest, dropped_oldest, MailboxQueue,
  take, evict, enqueue, overflow, fits, would_exceed_bytes, after_evict, force_push,
}
use bytecode_vm.Scheduler.Mailbox.Queue.Fifo.{Takes, takes, leaves, take-Takes}
use bytecode_vm.Scheduler.Mailbox.Queue.Bounds.{
  IsCharged, enqueue-IsCharged, take-IsCharged, push_back-IsCharged,
}

All-drop {ℓ κ} :
    {A : Type ℓ} (P : A → Type κ) (xs : List A) (y : A) (ys : List A)
    → All P (xs ++ (y ∷ ys))
    → All P (xs ++ ys)
All-drop P [] y ys (_, h) = h
All-drop P (x ∷ xs) y ys (hx, h) = (hx, All-drop P xs y ys h)

module _ (size : ℕ) (P : Value → Type 0) where
  if-All :
      (b : Bool) (x y : List Value × ℕ) → All P (x.0) → All P (y.0) → All P ((if b then x else y).0)
  if-All true x y h k = h
  if-All false x y h k = k

  evict-All :
      (limit budget cost : ℕ) (vs : List Value) (bytes : ℕ)
      → All P vs
      → All P ((evict size limit budget cost vs bytes).0)
  unfolding evict
  evict-All limit budget cost [] bytes h = h
  evict-All limit budget cost (v ∷ vs) bytes (hv, h) =
      if-All (leb limit (length (v ∷ vs)) || ltb budget (saturating_add bytes cost)) _ _
        (evict-All limit budget cost vs (bytes - memory_size size v) h) (hv, h)

  either-All :
      (b : Bool) (x y : Result MailboxFullReason EnqueueEffect × MailboxQueue)
      → All P (x.1).inner
      → All P (y.1).inner
      → All P ((if b then x else y).1).inner
  either-All true x y h k = h
  either-All false x y h k = k

  overflow-All :
      (policy : OverflowPolicy) (v : Value) (q : MailboxQueue)
      → All P q.inner
      → P v
      → All P ((overflow size policy v q).1).inner
  overflow-All reject v q h hv = h
  overflow-All drop_newest v q h hv = h
  overflow-All drop_oldest v q h hv =
      let cost = memory_size size v in
      let r = evict size q.limit q.byte_limit cost q.inner q.bytes in
      let hr = evict-All q.limit q.byte_limit cost q.inner q.bytes h in
      either-All (would_exceed_bytes (after_evict q cost r) cost) _ _ hr
        (All-append P (r.0) (v ∷ []) hr (hv, tt))

  -- A property of the queued hops and of the new hop holds of the hops that an enqueue leaves.
  enqueue-All :
      (policy : OverflowPolicy) (v : Value) (q : MailboxQueue)
      → All P q.inner
      → P v
      → All P ((enqueue size policy v q).1).inner
  unfolding enqueue
  enqueue-All policy v q h hv =
      either-All (fits q (memory_size size v)) _ _ (All-append P q.inner (v ∷ []) h (hv, tt))
        (overflow-All policy v q h hv)

  take-All :
      (filter : WaitFilter) (q : MailboxQueue) (r : Option Value × MailboxQueue)
      → Takes size filter q r
      → All P q.inner
      → All P (r.1).inner
  take-All filter q _ (takes before v behind e skipped m) h =
      All-drop P before v behind (subst (All P) e h)
  take-All filter q _ (leaves all) h = h

-- No queued hop is one that the parked flow waits for.
abbrev pub QuietFor : WaitFilter → Option Flow → List Value → Type 0
QuietFor filter none vs = Unit
QuietFor filter (some flow) vs = All (λ v. matches filter v ≡ false) vs

abbrev pub IsQuiet : Mailbox → Type 0
IsQuiet mb = QuietFor mb.parked_filter mb.parked (mb.queue).inner

module _ (size : ℕ) where
  -- The invariant of an inbox.
  pub record IsSound (mb : Mailbox) : Type 0 where
    pub quiet : IsQuiet mb
    pub charged : IsCharged size mb.queue

  enqueue-QuietFor :
      (policy : OverflowPolicy) (v : Value) (q : MailboxQueue) (filter : WaitFilter)
      (o : Option Flow)
      → QuietFor filter o q.inner
      → QuietFor filter o (v ∷ [])
      → QuietFor filter o ((enqueue size policy v q).1).inner
  enqueue-QuietFor policy v q filter none h hv = tt
  enqueue-QuietFor policy v q filter (some flow) h (hv, _) =
      enqueue-All size (λ x. matches filter x ≡ false) policy v q h hv

  pub take-QuietFor :
      (filter : WaitFilter) (q : MailboxQueue) (f : WaitFilter) (o : Option Flow)
      → QuietFor f o q.inner
      → QuietFor f o ((take size filter q).1).inner
  take-QuietFor filter q f none h = tt
  take-QuietFor filter q f (some flow) h =
      take-All size (λ x. matches f x ≡ false) filter q (take size filter q)
        (take-Takes size filter q) h

  count_enqueue-IsSound :
      (mb : Mailbox) (r : Result MailboxFullReason EnqueueEffect × MailboxQueue)
      → QuietFor mb.parked_filter mb.parked (r.1).inner
      → IsCharged size (r.1)
      → IsSound ((count_enqueue mb r).1)
  count_enqueue-IsSound mb (ok enqueued, q) h c = record { quiet = h; charged = c }
  count_enqueue-IsSound mb (ok dropped_newest, q) h c = record { quiet = h; charged = c }
  count_enqueue-IsSound mb (ok dropped_oldest, q) h c = record { quiet = h; charged = c }
  count_enqueue-IsSound mb (err message_limit, q) h c = record { quiet = h; charged = c }
  count_enqueue-IsSound mb (err byte_limit, q) h c = record { quiet = h; charged = c }

  pub enqueue_locked-IsSound :
      (policy : OverflowPolicy) (v : Value) (mb : Mailbox)
      → IsSound mb
      → QuietFor mb.parked_filter mb.parked (v ∷ [])
      → IsSound ((enqueue_locked size policy v mb).1)
  enqueue_locked-IsSound policy v mb s hv =
      count_enqueue-IsSound mb (enqueue size policy v mb.queue)
        (enqueue-QuietFor policy v mb.queue mb.parked_filter mb.parked s.quiet hv)
        (enqueue-IsCharged size policy v mb.queue s.charged).0

  quiet_alone :
      (mb : Mailbox) (v : Value) (o : Option Flow)
      → mb.parked ≡ o
      → ((flow : Flow) → o ≡ some flow → matches mb.parked_filter v ≡ false)
      → QuietFor mb.parked_filter mb.parked (v ∷ [])
  quiet_alone mb v none e h = subst (λ p. QuietFor mb.parked_filter p (v ∷ [])) (sym e) tt
  quiet_alone mb v (some flow) e h =
      subst (λ p. QuietFor mb.parked_filter p (v ∷ [])) (sym e) (h flow refl, tt)

  -- With nobody parked, every queue is quiet.
  pub quiet_none : (f : WaitFilter) (o : Option Flow) (vs : List Value) → o ≡ none → QuietFor f o vs
  quiet_none f none vs e = tt
  quiet_none f (some flow) vs e = cc

  on_match-IsSound :
      {A : Type 0} (b : Bool) (x y : A × Mailbox)
      → (b ≡ true → IsSound (x.1))
      → (b ≡ false → IsSound (y.1))
      → IsSound ((if b then x else y).1)
  on_match-IsSound true x y h k = h refl
  on_match-IsSound false x y h k = k refl

  push_to-IsSound :
      (o : Option Flow) (v : Value) (mb : Mailbox)
      → mb.parked ≡ o
      → IsSound mb
      → IsSound ((push_to size o v mb).1)
  push_to-IsSound none v mb e s =
      enqueue_locked-IsSound mb.overflow_policy v mb s
        (quiet_none mb.parked_filter mb.parked (v ∷ []) e)
  push_to-IsSound (some flow) v mb e s =
      on_match-IsSound (matches mb.parked_filter v) _ _
        (λ _. record { quiet = tt; charged = s.charged })
        (λ no.
          enqueue_locked-IsSound mb.overflow_policy v mb s
            (quiet_alone mb v (some flow) e (λ _ _. no)))

  pub push-IsSound : (v : Value) (mb : Mailbox) → IsSound mb → IsSound ((push size v mb).1)
  unfolding push
  push-IsSound v mb s = push_to-IsSound mb.parked v mb refl s

  -- The charge of the hop does not overflow.
  abbrev pub HasSpace : Value → Mailbox → Type 0
  HasSpace v mb = (mb.queue).bytes + memory_size size v < u64_mod

  force-QuietFor :
      (v : Value) (vs : List Value) (f : WaitFilter) (o : Option Flow)
      → QuietFor f o vs
      → QuietFor f o (v ∷ [])
      → QuietFor f o (vs ++ (v ∷ []))
  force-QuietFor v vs f none h hv = tt
  force-QuietFor v vs f (some flow) h hv = All-append (λ x. matches f x ≡ false) vs (v ∷ []) h hv

  forced-IsSound :
      (v : Value) (mb : Mailbox)
      → IsSound mb
      → HasSpace v mb
      → QuietFor mb.parked_filter mb.parked (v ∷ [])
      → IsSound ((forced size v mb).1)
  unfolding force_push
  forced-IsSound v mb s h hv = record {
    quiet = force-QuietFor v (mb.queue).inner mb.parked_filter mb.parked s.quiet hv;
    charged = push_back-IsCharged size v mb.queue s.charged h;
  }

  push_system_to-IsSound :
      (o : Option Flow) (v : Value) (mb : Mailbox)
      → mb.parked ≡ o
      → IsSound mb
      → HasSpace v mb
      → IsSound ((push_system_to size o v mb).1)
  push_system_to-IsSound none v mb e s h =
      forced-IsSound v mb s h (quiet_none mb.parked_filter mb.parked (v ∷ []) e)
  push_system_to-IsSound (some flow) v mb e s h =
      on_match-IsSound (matches mb.parked_filter v) _ _
        (λ _. record { quiet = tt; charged = s.charged })
        (λ no. forced-IsSound v mb s h (quiet_alone mb v (some flow) e (λ _ _. no)))

  pub push_system-IsSound :
      (v : Value) (mb : Mailbox) → IsSound mb → HasSpace v mb → IsSound ((push_system size v mb).1)
  unfolding push_system
  push_system-IsSound v mb s h = push_system_to-IsSound mb.parked v mb refl s h

  pub popped-IsSound :
      (mb : Mailbox) (r : Option Value × MailboxQueue)
      → QuietFor mb.parked_filter mb.parked (r.1).inner
      → IsCharged size (r.1)
      → IsSound ((popped size mb r).1)
  popped-IsSound mb (none, q) h c = record { quiet = h; charged = c }
  popped-IsSound mb (some v, q) h c = record { quiet = h; charged = c }

  pub try_pop_filter-IsSound :
      (filter : WaitFilter) (mb : Mailbox)
      → IsSound mb
      → IsSound ((try_pop_filter size filter mb).1)
  unfolding try_pop_filter
  try_pop_filter-IsSound filter mb s =
      popped-IsSound mb (take size filter mb.queue)
        (take-QuietFor filter mb.queue mb.parked_filter mb.parked s.quiet)
        (take-IsCharged size filter mb.queue s.charged).0
