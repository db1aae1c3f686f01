-- ===== src/Scheduler/Mailbox/Queue/Overflow.antt =====
-- What the policy `DropOldest` does with the queue.
use bytecode_vm.Prelude.{
  ℕ, ◌+◌, ◌≤◌, ◌<◌, ◌≡◌, refl, ap, ◌∙◌, length-append, Bool, true, false, ltb, ◌⊎◌, inl, inr, List,
  [], ◌∷◌, ◌++◌, length, if◌then◌else◌, arith,
}
use bytecode_vm.Prelude.Result.{ok, err}
use bytecode_vm.Bytecode.Value.{Value, memory_size}
use bytecode_vm.Scheduler.Quota.{saturating_add}
use bytecode_vm.Scheduler.Mailbox.Queue.{
  drop_oldest, byte_limit, EnqueueEffect, enqueued, dropped_oldest, MailboxQueue, evict, enqueue,
  push_back, overflow, fits, after_evict, would_exceed_bytes,
}
use bytecode_vm.Scheduler.Mailbox.Queue.Bounds.{
  total, IsCharged, Evicted, evict-Evicted, after_evict-IsCharged, no_overflow, fits-room,
}

module _ (size : ℕ) where
  if-then {ℓ} : {A : Type ℓ} (b : Bool) (x y : A) → b ≡ true → (if b then x else y) ≡ x
  if-then true x y h = refl
  if-then false x y h = cc

  if-else {ℓ} : {A : Type ℓ} (b : Bool) (x y : A) → b ≡ false → (if b then x else y) ≡ y
  if-else true x y h = cc
  if-else false x y h = refl

  too_big :
      (v : Value) (q : MailboxQueue)
      → IsCharged size q
      → q.byte_limit < memory_size size v
      → would_exceed_bytes q (memory_size size v) ≡ true
  too_big v q c big = ground (arith, c.budget_small)

  no_fit : (q : MailboxQueue) (cost : ℕ) → would_exceed_bytes q cost ≡ true → fits q cost ≡ false
  no_fit q cost h = ground arith

  -- The queue that the loop leaves for `v`.
  kept : Value → MailboxQueue → List Value × ℕ
  kept v q = evict size q.limit q.byte_limit (memory_size size v) q.inner q.bytes

  kept-Evicted :
      (v : Value) (q : MailboxQueue)
      → IsCharged size q
      → Evicted size q.limit q.byte_limit (memory_size size v) q.inner q.bytes (kept v q)
  unfolding kept
  kept-Evicted v q c =
      evict-Evicted size q.limit q.byte_limit (memory_size size v) q.inner q.bytes c.charge

  all_gone :
      (v : Value) (q : MailboxQueue) (r : List Value × ℕ)
      → IsCharged size q
      → q.byte_limit < memory_size size v
      → Evicted size q.limit q.byte_limit (memory_size size v) q.inner q.bytes r
      → r ≡ ([], 0)
  all_gone v q r c big h = elim h.stopped [
    | inl e ↦ pair_eq r e (h.charged ∙ ap (total size) e)
    | inr both ↦ absurd (ground (arith, c.budget_small, both.1))
  ]
    where
      pair_eq : (r : List Value × ℕ) → r.0 ≡ [] → r.1 ≡ 0 → r ≡ ([], 0)
      pair_eq (a, b) e f = cc

  -- Under `DropOldest`, in a queue whose charge is right, a hop larger than the whole byte budget
  -- is refused, and every queued hop is lost all the same.
  pub enqueue-drop_oldest-refused :
      (v : Value) (q : MailboxQueue)
      → IsCharged size q
      → q.byte_limit < memory_size size v
      → enqueue size drop_oldest v q ≡ (err byte_limit, record q { inner = []; bytes = 0 })
  unfolding enqueue kept
  enqueue-drop_oldest-refused v q c big =
      let cost = memory_size size v in
      let r = kept v q in
      if-else (fits q cost) _ _ (no_fit q cost (too_big v q c big))
      ∙ if-then (would_exceed_bytes (after_evict q cost r) cost) _ _ (
          too_big v (after_evict q cost r)
            (after_evict-IsCharged size q cost r c (kept-Evicted v q c)) big)
      ∙ ap (λ x. (err byte_limit, after_evict q cost x)) (all_gone v q r c big (kept-Evicted v q c))

  -- The queue after `v` is pushed behind the hops that were kept.
  abbrev pub pushed : Value → MailboxQueue → List Value → MailboxQueue
  pushed v q kept = record q {
    inner = kept ++ (v ∷ []);
    bytes = total size kept + memory_size size v;
  }

  push_back-pushed :
      (v : Value) (q : MailboxQueue)
      → IsCharged size q
      → saturating_add q.bytes (memory_size size v) ≤ q.byte_limit
      → push_back size v q ≡ pushed v q q.inner
  push_back-pushed v q c h =
      ap (λ n. record q { inner = q.inner ++ (v ∷ []); bytes = n })
        (omega (arith, no_overflow size q (memory_size size v) c h, c.charge, c.budget_small))

  leaves_room :
      (v : Value) (q : MailboxQueue) (r : List Value × ℕ)
      → memory_size size v ≤ q.byte_limit
      → Evicted size q.limit q.byte_limit (memory_size size v) q.inner q.bytes r
      → saturating_add r.1 (memory_size size v) ≤ q.byte_limit
  leaves_room v q r h ev = elim ev.stopped [
    | inl e ↦ ground (arith, ev.charged ∙ ap (total size) e)
    | inr both ↦ both.1
  ]

  -- A suffix of the queue for which, together with `cost` more bytes, there is no room.
  abbrev pub HasNoRoom : MailboxQueue → ℕ → List Value → Type 0
  HasNoRoom q cost vs = (q.limit ≤ length vs) ⊎ (q.byte_limit < total size vs + cost)

  weaken :
      (q : MailboxQueue) (cost : ℕ) (vs : List Value)
      → (q.limit ≤ length vs) ⊎ (q.byte_limit < saturating_add (total size vs) cost)
      → HasNoRoom q cost vs
  weaken q cost vs (inl h) = inl h
  weaken q cost vs (inr h) = inr (ground arith)

  accepted_at :
      (v : Value) (q : MailboxQueue) (b : Bool)
      → fits q (memory_size size v) ≡ b
      → IsCharged size q
      → memory_size size v ≤ q.byte_limit
      → (dropped : List Value) × (kept : List Value) × (e : EnqueueEffect) × (q.inner
          ≡ dropped ++ kept)
        × ((if b then (ok enqueued, push_back size v q) else overflow size drop_oldest v q)
            ≡ (ok e, pushed v q kept))
        × ((xs ys : List Value)
            → q.inner ≡ xs ++ ys
            → length kept < length ys
            → HasNoRoom q (memory_size size v) ys)
  unfolding kept
  accepted_at v q true eb c h = (
    [],
    q.inner,
    enqueued,
    refl,
    ap (λ x. (ok enqueued, x))
        (push_back-pushed v q c (fits-room size q (memory_size size v) eb).1),
    λ xs ys split lt. absurd (omega (arith, ap length split, length-append xs ys)),
  )
  accepted_at v q false eb c h =
      let cost = memory_size size v in
      let r = kept v q in
      let ev = kept-Evicted v q c in
      let room = leaves_room v q r h ev in
      let e = if ltb (length (r.0)) (length q.inner) then dropped_oldest else enqueued in
      (
        ev.dropped,
        r.0,
        e,
        ev.split,
        if-else (would_exceed_bytes (after_evict q cost r) cost) _ _ (ground arith)
            ∙ ap (λ x. (ok e, x))
                (push_back-pushed v (after_evict q cost r)
                  (after_evict-IsCharged size q cost r c ev) room),
        λ xs ys split lt. weaken q cost ys (ev.needed xs ys split lt),
      )

  -- Under `DropOldest`, in a queue whose charge is right, a hop within the byte budget is accepted
  -- behind the newest hops: the hops dropped are a prefix of the queue, the others stay in their
  -- order, and no longer suffix of the queue has room for the hop.
  pub enqueue-drop_oldest-accepted :
      (v : Value) (q : MailboxQueue)
      → IsCharged size q
      → memory_size size v ≤ q.byte_limit
      → (dropped : List Value) × (kept : List Value) × (e : EnqueueEffect) × (q.inner
          ≡ dropped ++ kept)
        × (enqueue size drop_oldest v q ≡ (ok e, pushed v q kept))
        × ((xs ys : List Value)
            → q.inner ≡ xs ++ ys
            → length kept < length ys
            → HasNoRoom q (memory_size size v) ys)
  unfolding enqueue
  enqueue-drop_oldest-accepted v q c h = accepted_at v q (fits q (memory_size size v)) refl c h
