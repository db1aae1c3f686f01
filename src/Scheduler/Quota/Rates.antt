-- ===== src/Scheduler/Quota/Rates.antt =====
-- The instruction budget and the token buckets.
use native.Mathlib.Nat.{zero-add}
use bytecode_vm.Prelude.{
  ℕ, zero, suc, ◌+◌, ◌-◌, ◌≤◌, ◌<◌, ◌≡◌, refl, ◌∙◌, ap, Bool, true, false, leb, min, List, [], ◌∷◌,
  length, if◌then◌else◌, arith, All,
}
use bytecode_vm.Prelude.Int.{ℤ, pos, negsuc, pos_part}
use bytecode_vm.Prelude.Result.{Result, ok, err}
use bytecode_vm.Scheduler.Quota.{
  QuotaError, TokenBucket, FlowQuota, cpu_exhausted, refill_after, refill, consumed, try_consume,
  charge_cpu, remaining_cpu,
}

-- Polls of a bucket, one after another: how many get a token, and the bucket after them.
unfoldable takes : (ℕ → ℤ → ℤ) → List ℕ → TokenBucket → ℕ × TokenBucket
unfolding try_consume
takes grow [] bucket = (0, bucket)
takes grow (now ∷ times) bucket =
    let (got, after) = try_consume grow now bucket in
    let (rest, last) = takes grow times after in ((if got then 1 else 0) + rest, last)

-- No time is far enough from the last refill.
abbrev AreSoon : TokenBucket → List ℕ → Type 0
AreSoon bucket times = All (λ (now : ℕ). now - bucket.last_refill < refill_after) times

refill_soon :
    (grow : ℕ → ℤ → ℤ) (now : ℕ) (bucket : TokenBucket)
    → now - bucket.last_refill < refill_after
    → refill grow now bucket ≡ bucket
unfolding refill
refill_soon grow now bucket soon = ground arith

consumed_some :
    (k : ℕ) (bucket : TokenBucket)
    → bucket.tokens ≡ pos (suc k)
    → consumed bucket ≡ (true, record bucket { tokens = pos k })
consumed_some k bucket h = rw h (ground arith)

consumed_none :
    (bucket : TokenBucket) → pos_part bucket.tokens ≡ 0 → consumed bucket ≡ (false, bucket)
consumed_none bucket h = ground arith

-- While no time is 50 milliseconds past the last refill, a bucket gives a token to each poll until its
-- tokens are used up, and to no other: the number of polls that get one is the lesser of their
-- number and the tokens.
takes-soon :
    (grow : ℕ → ℤ → ℤ) (times : List ℕ) (bucket : TokenBucket)
    → AreSoon bucket times
    → (takes grow times bucket).0 ≡ min (length times) (pos_part bucket.tokens)
unfolding takes try_consume
takes-soon grow [] bucket h = omega arith
takes-soon grow (now ∷ times) bucket (soon, h) =
    rw (refill_soon grow now bucket soon)
      (at_tokens bucket.tokens refl (λ (b : TokenBucket). takes-soon grow times b))
  where
    at_tokens :
        (t : ℤ)
        → bucket.tokens ≡ t
        → ((b : TokenBucket)
            → AreSoon b times
            → (takes grow times b).0 ≡ min (length times) (pos_part b.tokens))
        → (if (consumed bucket).0 then 1 else 0) + (takes grow times (consumed bucket).1).0
          ≡ min (suc (length times)) (pos_part bucket.tokens)
    at_tokens (pos zero) e ih =
        rw (consumed_none bucket (ap pos_part e)) (omega (arith, ih bucket h, ap pos_part e))
    at_tokens (pos (suc k)) e ih =
        rw (consumed_some k bucket e)
          (omega (arith, ih (record bucket { tokens = pos k }) h, ap pos_part e))
    at_tokens (negsuc k) e ih =
        rw (consumed_none bucket (ap pos_part e)) (omega (arith, ih bucket h, ap pos_part e))

abbrev spent_on : ℕ → Result QuotaError (Unit {0}) → ℕ
spent_on cost (ok u) = cost
spent_on cost (err e) = 0

-- The cost of the charges that succeed, one after another, and the quota after them.
unfoldable pub charges : List ℕ → FlowQuota → ℕ × FlowQuota
unfolding charge_cpu
charges [] q = (0, q)
charges (cost ∷ costs) q =
    let (r, after) = charge_cpu (pos cost) q in
    let (spent, last) = charges costs after in (spent_on cost r + spent, last)

charge_within :
    (cost n : ℕ) (q : FlowQuota)
    → q.cpu_budget ≡ pos n
    → cost ≤ n
    → charge_cpu (pos cost) q ≡ (ok tt, record q { cpu_budget = pos (n - cost) })
unfolding charge_cpu
charge_within cost n q h le = rw h (ground arith)

charge_beyond :
    (cost n : ℕ) (q : FlowQuota)
    → q.cpu_budget ≡ pos n
    → n < cost
    → charge_cpu (pos cost) q ≡ (err cpu_exhausted, record q { cpu_budget = pos n })
unfolding charge_cpu
charge_beyond cost n q h lt = rw h (ground arith)

-- Of a budget of `n` instructions, the charges that succeed, in any sequence of charges, cost at
-- most `n`, and what they leave of it is the rest, so a charge that is refused costs nothing.
pub charges-spent :
    (costs : List ℕ) (n : ℕ) (q : FlowQuota)
    → q.cpu_budget ≡ pos n
    → ((charges costs q).0 ≤ n)
      × (remaining_cpu (charges costs q).1 ≡ pos (n - (charges costs q).0))
unfolding charges remaining_cpu
charges-spent [] n q h = (omega arith, rw h (ground arith))
charges-spent (cost ∷ costs) n q h = at_test (leb cost n) refl (charges-spent costs)
  where
    at_test :
        (b : Bool)
        → leb cost n ≡ b
        → ((m : ℕ) (u : FlowQuota)
            → u.cpu_budget ≡ pos m
            → ((charges costs u).0 ≤ m)
              × (remaining_cpu (charges costs u).1 ≡ pos (m - (charges costs u).0)))
        → ((charges (cost ∷ costs) q).0 ≤ n)
          × (remaining_cpu (charges (cost ∷ costs) q).1 ≡ pos (n - (charges (cost ∷ costs) q).0))
    at_test true e ih =
        let enough : cost ≤ n = ground (arith, e) in
        let (small, left) = ih (n - cost) (record q { cpu_budget = pos (n - cost) }) refl in
        rw (charge_within cost n q h enough)
          (omega (arith, small, enough), left ∙ ap pos (omega (arith, small, enough)))
    at_test false e ih =
        let beyond : n < cost = ground (arith, e) in
        rw
          (
            charge_beyond cost n q h beyond,
            zero-add (charges costs (record q { cpu_budget = pos n })).0,
          )
          (ih n (record q { cpu_budget = pos n }) refl)
