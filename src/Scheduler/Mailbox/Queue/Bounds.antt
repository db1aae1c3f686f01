-- ===== src/Scheduler/Mailbox/Queue/Bounds.antt =====
-- The accounts of the queue and its two bounds.
use bytecode_vm.Prelude.{
  ℕ, ◌+◌, ◌-◌, ◌≤◌, ◌<◌, ◌≡◌, refl, ap, subst, ◌∙◌, Bool, true, false, leb, ltb, ◌||◌, ◌⊎◌, inl,
  inr, Option, List, [], ◌∷◌, ◌++◌, length, length-append, if◌then◌else◌, arith,
}
use bytecode_vm.Prelude.Int.{u64_mod}
use bytecode_vm.Prelude.Result.{Result, ok, err}
use bytecode_vm.Bytecode.Value.{Value, memory_size}
use bytecode_vm.Scheduler.Quota.{saturating_add}
use bytecode_vm.Scheduler.Mailbox.Queue.{
  WaitFilter, OverflowPolicy, reject, drop_newest, drop_oldest, MailboxFullReason, byte_limit,
  EnqueueEffect, enqueued, dropped_oldest, MailboxQueue, take, evict, enqueue, push_back, overflow,
  fits, after_evict, would_exceed_bytes,
}
use bytecode_vm.Scheduler.Mailbox.Queue.Fifo.{Takes, takes, leaves, take-Takes}

pub record IsBounded (q : MailboxQueue) : Type 0 where
  pub hops : length q.inner ≤ q.limit
  pub within : q.bytes ≤ q.byte_limit

module _ (size : ℕ) where
  -- The bytes of all hops.
  abbrev pub total : List Value → ℕ
  total [] = 0
  total (v ∷ vs) = memory_size size v + total vs

  total-append : (xs ys : List Value) → total (xs ++ ys) ≡ total xs + total ys
  total-append [] ys = omega arith
  total-append (x ∷ xs) ys = omega (arith, total-append xs ys)

  -- The charge is the bytes of the queued hops, and the limits are ones that a configuration allows.
  pub record IsCharged (q : MailboxQueue) : Type 0 where
    pub charge : q.bytes ≡ total q.inner
    pub in_range : q.bytes < u64_mod
    pub budget_small : q.byte_limit + 1 < u64_mod
    pub has_limit : 1 ≤ q.limit

  -- Where the eviction loop stops: it drops hops from the front, and it stops when the queue is empty
  -- or the new hop fits.
  pub record Evicted (limit budget cost : ℕ) (vs : List Value) (bytes : ℕ) (r : List Value × ℕ)
      : Type 0 where
    pub dropped : List Value
    pub split : vs ≡ dropped ++ r.0
    pub charged : r.1 ≡ total r.0
    pub shrunk : r.1 ≤ bytes
    pub stopped : (r.0 ≡ []) ⊎ ((length (r.0) < limit) × (saturating_add r.1 cost ≤ budget))
    pub needed :
        (xs ys : List Value)
        → vs ≡ xs ++ ys
        → length (r.0) < length ys
        → (limit ≤ length ys) ⊎ (budget < saturating_add (total ys) cost)

  -- No longer suffix has room, if the whole has none and no longer suffix of the tail has.
  tail_needed :
      (limit budget cost len : ℕ) (v : Value) (vs : List Value)
      → (limit ≤ length (v ∷ vs)) ⊎ (budget < saturating_add (total (v ∷ vs)) cost)
      → ((xs ys : List Value)
          → vs ≡ xs ++ ys
          → len < length ys
          → (limit ≤ length ys) ⊎ (budget < saturating_add (total ys) cost))
      → (xs ys : List Value) → v ∷ vs ≡ xs ++ ys
      → len < length ys
      → (limit ≤ length ys) ⊎ (budget < saturating_add (total ys) cost)
  tail_needed limit budget cost len v vs whole h [] ys e lt =
      subst (λ l. (limit ≤ length l) ⊎ (budget < saturating_add (total l) cost)) e whole
  tail_needed limit budget cost len v vs whole h (x ∷ xs) ys e lt = h xs ys (cc) lt

  evict_step :
      (limit budget cost : ℕ) (v : Value) (vs : List Value) (bytes : ℕ) (full over : Bool)
      (rest : List Value × ℕ)
      → leb limit (length (v ∷ vs)) ≡ full
      → ltb budget (saturating_add bytes cost) ≡ over
      → bytes ≡ total (v ∷ vs)
      → Evicted limit budget cost vs (bytes - memory_size size v) rest
      → Evicted limit budget cost (v ∷ vs) bytes (if full || over then rest else (v ∷ vs, bytes))
  evict_step limit budget cost v vs bytes true over rest ef eo e h = record {
    dropped = v ∷ h.dropped;
    split = ap (λ l. v ∷ l) h.split;
    charged = h.charged;
    shrunk = omega (arith, h.shrunk);
    stopped = h.stopped;
    needed = tail_needed limit budget cost (length (rest.0)) v vs (inl (ground arith)) h.needed;
  }
  evict_step limit budget cost v vs bytes false true rest ef eo e h = record {
    dropped = v ∷ h.dropped;
    split = ap (λ l. v ∷ l) h.split;
    charged = h.charged;
    shrunk = omega (arith, h.shrunk);
    stopped = h.stopped;
    needed =
        tail_needed limit budget cost (length (rest.0)) v vs
          (inr (subst (λ n. budget < saturating_add n cost) e (ground arith))) h.needed;
  }
  evict_step limit budget cost v vs bytes false false rest ef eo e h = record {
    dropped = [];
    split = refl;
    charged = e;
    shrunk = omega arith;
    stopped = inr (ground arith, ground arith);
    needed = λ xs ys split lt. absurd (omega (arith, ap length split, length-append xs ys));
  }

  pub evict-Evicted :
      (limit budget cost : ℕ) (vs : List Value) (bytes : ℕ)
      → bytes ≡ total vs
      → Evicted limit budget cost vs bytes (evict size limit budget cost vs bytes)
  unfolding evict
  evict-Evicted limit budget cost [] bytes e = record {
    dropped = [];
    split = refl;
    charged = e;
    shrunk = omega arith;
    stopped = inl refl;
    needed = λ xs ys split lt. absurd (omega (arith, ap length split, length-append xs ys));
  }
  evict-Evicted limit budget cost (v ∷ vs) bytes e =
      evict_step limit budget cost v vs bytes (leb limit (length (v ∷ vs)))
        (ltb budget (saturating_add bytes cost)) _ refl refl e
        (evict-Evicted limit budget cost vs (bytes - memory_size size v) (omega (arith, e)))

  pub push_back-IsCharged :
      (v : Value) (q : MailboxQueue)
      → IsCharged q
      → q.bytes + memory_size size v < u64_mod
      → IsCharged (push_back size v q)
  push_back-IsCharged v q c h = record {
    charge = omega (arith, total-append q.inner (v ∷ []), c.charge);
    in_range = omega arith;
    budget_small = c.budget_small;
    has_limit = c.has_limit;
  }

  pub fits-room :
      (q : MailboxQueue) (cost : ℕ)
      → fits q cost ≡ true
      → (length q.inner < q.limit) × (saturating_add q.bytes cost ≤ q.byte_limit)
  fits-room q cost h = (ground arith, ground arith)

  -- A sum that saturates is over every budget that a configuration allows.
  pub no_overflow :
      (q : MailboxQueue) (cost : ℕ)
      → IsCharged q
      → saturating_add q.bytes cost ≤ q.byte_limit
      → q.bytes + cost ≤ q.byte_limit
  no_overflow q cost c h = ground (arith, c.budget_small)

  -- What every outcome of an enqueue leaves behind.
  record Leaves (before : MailboxQueue) (r : Result MailboxFullReason EnqueueEffect × MailboxQueue)
      : Type 0 where
    charged : IsCharged (r.1)
    bounded : IsBounded before → IsBounded (r.1)

  push-Leaves :
      (v : Value) (before q : MailboxQueue) (e : EnqueueEffect)
      → IsCharged q
      → length q.inner < q.limit
      → saturating_add q.bytes (memory_size size v) ≤ q.byte_limit
      → Leaves before (ok e, push_back size v q)
  push-Leaves v before q e c hl hb =
      let sum = no_overflow q (memory_size size v) c hb in
      record {
        charged = push_back-IsCharged v q c (omega (arith, sum, c.budget_small));
        bounded = λ _. record {
          hops = omega (arith, length-append q.inner (v ∷ []), hl);
          within = ground (arith, sum);
        };
      }

  same-Leaves :
      (q : MailboxQueue) (r : Result MailboxFullReason EnqueueEffect)
      → IsCharged q
      → Leaves q (r, q)
  same-Leaves q r c = record { charged = c; bounded = λ b. b }

  pub after_evict-IsCharged :
      (q : MailboxQueue) (cost : ℕ) (r : List Value × ℕ)
      → IsCharged q
      → Evicted q.limit q.byte_limit cost q.inner q.bytes r
      → IsCharged (after_evict q cost r)
  after_evict-IsCharged q cost r c h = record {
    charge = h.charged;
    in_range = omega (arith, h.shrunk, c.in_range);
    budget_small = c.budget_small;
    has_limit = c.has_limit;
  }

  pub has_room :
      (limit budget cost : ℕ) (vs : List Value) (bytes : ℕ) (r : List Value × ℕ)
      → 1 ≤ limit
      → Evicted limit budget cost vs bytes r
      → length (r.0) < limit
  has_room limit budget cost vs bytes r hl h = elim h.stopped [
    | inl e ↦ omega (arith, ap length e)
    | inr both ↦ both.0
  ]

  drop-Leaves :
      (v : Value) (before : MailboxQueue) (r : List Value × ℕ) (over : Bool)
      → would_exceed_bytes (after_evict before (memory_size size v) r) (memory_size size v) ≡ over
      → IsCharged before
      → Evicted before.limit before.byte_limit (memory_size size v) before.inner before.bytes r
      → Leaves before (
          if over then (err byte_limit, after_evict before (memory_size size v) r) else (
            ok (if ltb (length (r.0)) (length before.inner) then dropped_oldest else enqueued),
            push_back size v (after_evict before (memory_size size v) r),
          ))
  drop-Leaves v before r true e c h =
      let c' = after_evict-IsCharged before (memory_size size v) r c h in
      record {
        charged = c';
        bounded = λ b. record {
          hops = omega (arith, has_room _ _ _ _ _ r c.has_limit h);
          within = omega (arith, h.shrunk, b.within);
        };
      }
  drop-Leaves v before r false e c h =
      push-Leaves v before (after_evict before (memory_size size v) r) _
        (after_evict-IsCharged before (memory_size size v) r c h)
        (has_room _ _ _ _ _ r c.has_limit h) (ground arith)

  overflow-Leaves :
      (policy : OverflowPolicy) (v : Value) (q : MailboxQueue)
      → IsCharged q
      → Leaves q (overflow size policy v q)
  overflow-Leaves reject v q c = same-Leaves q _ c
  overflow-Leaves drop_newest v q c = same-Leaves q _ c
  overflow-Leaves drop_oldest v q c =
      let r = evict size q.limit q.byte_limit (memory_size size v) q.inner q.bytes in
      drop-Leaves v q r
        (would_exceed_bytes (after_evict q (memory_size size v) r) (memory_size size v)) refl c
        (evict-Evicted q.limit q.byte_limit (memory_size size v) q.inner q.bytes c.charge)

  enqueue-Leaves :
      (policy : OverflowPolicy) (v : Value) (q : MailboxQueue) (b : Bool)
      → fits q (memory_size size v) ≡ b
      → IsCharged q
      → Leaves q (if b then (ok enqueued, push_back size v q) else overflow size policy v q)
  enqueue-Leaves policy v q true e c =
      let (room, budget) = fits-room q (memory_size size v) e in
      push-Leaves v q q enqueued c room budget
  enqueue-Leaves policy v q false e c = overflow-Leaves policy v q c

  -- Under every policy, and whether or not the hop is accepted, an enqueue keeps the charge equal
  -- to the bytes of the queued hops, and keeps a queue within both its bounds.
  pub enqueue-IsCharged :
      (policy : OverflowPolicy) (v : Value) (q : MailboxQueue)
      → IsCharged q
      → IsCharged (enqueue size policy v q).1
        × (IsBounded q → IsBounded (enqueue size policy v q).1)
  unfolding enqueue
  enqueue-IsCharged policy v q c =
      let h = enqueue-Leaves policy v q (fits q (memory_size size v)) refl c in
      (h.charged, h.bounded)

  take-Leaves :
      (filter : WaitFilter) (q : MailboxQueue) (r : Option Value × MailboxQueue)
      → Takes size filter q r
      → IsCharged q
      → IsCharged (r.1) × (IsBounded q → IsBounded (r.1))
  take-Leaves filter q _ (takes before v behind e skipped m) c =
      let sum = ap total e ∙ total-append before (v ∷ behind) in
      (
        record {
          charge = omega (arith, sum, total-append before behind, c.charge);
          in_range = omega (arith, c.in_range);
          budget_small = c.budget_small;
          has_limit = c.has_limit;
        },
        λ b. record {
          hops = omega (
            arith,
            ap length e,
            length-append before (v ∷ behind),
            length-append before behind,
            b.hops,
          );
          within = omega (arith, b.within);
        },
      )
  take-Leaves filter q _ (leaves all) c = (c, λ b. b)

  -- A take under any filter keeps the charge equal to the bytes of the queued hops, and keeps a
  -- queue within both its bounds.
  pub take-IsCharged :
      (filter : WaitFilter) (q : MailboxQueue)
      → IsCharged q
      → IsCharged (take size filter q).1 × (IsBounded q → IsBounded (take size filter q).1)
  take-IsCharged filter q c = take-Leaves filter q (take size filter q) (take-Takes size filter q) c
