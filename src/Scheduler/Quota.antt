-- ===== src/Scheduler/Quota.antt =====
-- scheduler/quota.rs: the budgets of a flow: memory, instructions, spawns and sends.
--
-- The counters are atomics that several threads share; each operation of the model is the effect
-- of one call that no other thread's call interrupts. An `i64` is an integer, and is assumed not
-- to leave its range. A time is its nanoseconds; the tokens that an elapsed time is worth, which the
-- source computes with floats, are the parameter `grow`. A poisoned lock is not modelled.
pub mod Heap
pub mod Rates
use bytecode_vm.Prelude.{◌*◌, Bool, true, false, leb, ◌%◌, ℕ, ◌+◌, ◌-◌, min, ltb, if◌then◌else◌}
use bytecode_vm.Prelude.Int.{ℤ, pos, negsuc, pos_part, neg_part, sub_ℕ, ◌+ℤ◌, ltb_ℤ, leb_ℤ, u64_mod}
use bytecode_vm.Prelude.Result.{Result, ok, err}

pub data QuotaError : Type 0 where
  cpu_exhausted : QuotaError
  memory_exhausted : ℕ → ℕ → QuotaError
  spawn_rate_exceeded : QuotaError
  send_rate_exceeded : QuotaError

pub record TokenBucket : Type 0 where
  pub capacity : ℤ
  pub tokens : ℤ
  pub refill_per_sec : ℤ
  pub last_refill : ℕ

pub record FlowQuota : Type 0 where
  pub cpu_budget : ℤ
  pub mem_limit : ℕ
  pub mem_used : ℕ
  pub spawn_bucket : TokenBucket
  pub send_bucket : TokenBucket

pub record QuotaConfig : Type 0 where
  pub cpu_budget : ℤ
  pub mem_limit : ℕ
  pub spawn_burst : ℤ
  pub spawn_per_sec : ℤ
  pub send_burst : ℤ
  pub send_per_sec : ℤ

abbrev pub permissive : QuotaConfig
permissive = record {
  cpu_budget = pos 1000000000;
  mem_limit = 64 * 1024 * 1024;
  spawn_burst = pos 10000;
  spawn_per_sec = pos 10000;
  send_burst = pos 50000;
  send_per_sec = pos 50000;
}

abbrev pub sandbox : QuotaConfig
sandbox = record {
  cpu_budget = pos 50000;
  mem_limit = 16 * 1024 * 1024;
  spawn_burst = pos 32;
  spawn_per_sec = pos 32;
  send_burst = pos 256;
  send_per_sec = pos 64;
}

unfoldable pub new_bucket : ℕ → ℤ → ℤ → TokenBucket
new_bucket now capacity refill_per_sec = record {
  capacity = capacity;
  tokens = capacity;
  refill_per_sec = refill_per_sec;
  last_refill = now;
}

unfoldable pub from_config : ℕ → QuotaConfig → FlowQuota
unfolding new_bucket
from_config now cfg = record {
  cpu_budget = cfg.cpu_budget;
  mem_limit = cfg.mem_limit;
  mem_used = 0;
  spawn_bucket = new_bucket now cfg.spawn_burst cfg.spawn_per_sec;
  send_bucket = new_bucket now cfg.send_burst cfg.send_per_sec;
}

abbrev pub min_ℤ : ℤ → ℤ → ℤ
min_ℤ a b = if leb_ℤ a b then a else b

-- 50 milliseconds
abbrev pub refill_after : ℕ
refill_after = 50000000

abbrev pub refilled : ℤ → ℕ → TokenBucket → TokenBucket
refilled added now bucket =
    if ltb_ℤ (pos 0) added
    then record bucket {
      tokens = min_ℤ (bucket.tokens +ℤ added) bucket.capacity;
      last_refill = now;
    }
    else bucket

unfoldable pub refill : (ℕ → ℤ → ℤ) → ℕ → TokenBucket → TokenBucket
refill grow now bucket =
    let elapsed = now - bucket.last_refill in
    if leb refill_after elapsed
    then refilled (grow elapsed bucket.refill_per_sec) now bucket
    else bucket

-- `cur <= 0`, or one token less.
abbrev pub consumed : TokenBucket → Bool × TokenBucket
consumed bucket =
    if leb_ℤ bucket.tokens (pos 0)
    then (false, bucket)
    else (true, record bucket { tokens = bucket.tokens +ℤ negsuc 0 })

unfoldable pub try_consume : (ℕ → ℤ → ℤ) → ℕ → TokenBucket → Bool × TokenBucket
unfolding refill
try_consume grow now bucket = consumed (refill grow now bucket)

unfoldable pub credit : ℤ → TokenBucket → TokenBucket
credit extra bucket =
    if leb_ℤ extra (pos 0) then bucket else record bucket { tokens = bucket.tokens +ℤ extra }

unfoldable pub remaining_cpu : FlowQuota → ℤ
remaining_cpu q = if leb_ℤ (pos 0) q.cpu_budget then q.cpu_budget else pos 0

abbrev pub neg_ℤ : ℤ → ℤ
neg_ℤ a = sub_ℕ (neg_part a) (pos_part a)

-- `fetch_sub`, and `fetch_add` of the same cost where nothing is left.
unfoldable pub charge_cpu : ℤ → FlowQuota → Result QuotaError (Unit {0}) × FlowQuota
charge_cpu cost q =
    let remaining = q.cpu_budget +ℤ neg_ℤ cost in
    if ltb_ℤ remaining (pos 0)
    then (err cpu_exhausted, record q { cpu_budget = remaining +ℤ cost })
    else (ok tt, record q { cpu_budget = remaining })

abbrev pub spawn_checked : Bool × TokenBucket → FlowQuota → Result QuotaError (Unit {0}) × FlowQuota
spawn_checked (true, bucket) q = (ok tt, record q { spawn_bucket = bucket })
spawn_checked (false, bucket) q = (err spawn_rate_exceeded, record q { spawn_bucket = bucket })

unfoldable pub check_spawn : (ℕ → ℤ → ℤ) → ℕ → FlowQuota → Result QuotaError (Unit {0}) × FlowQuota
unfolding try_consume
check_spawn grow now q = spawn_checked (try_consume grow now q.spawn_bucket) q

abbrev pub send_checked : Bool × TokenBucket → FlowQuota → Result QuotaError (Unit {0}) × FlowQuota
send_checked (true, bucket) q = (ok tt, record q { send_bucket = bucket })
send_checked (false, bucket) q = (err send_rate_exceeded, record q { send_bucket = bucket })

unfoldable pub check_send : (ℕ → ℤ → ℤ) → ℕ → FlowQuota → Result QuotaError (Unit {0}) × FlowQuota
unfolding try_consume
check_send grow now q = send_checked (try_consume grow now q.send_bucket) q

unfoldable pub top_up_cpu : ℤ → FlowQuota → FlowQuota
top_up_cpu extra q = record q { cpu_budget = q.cpu_budget +ℤ extra }

unfoldable pub top_up_send : ℤ → FlowQuota → FlowQuota
unfolding credit
top_up_send extra q = record q { send_bucket = credit extra q.send_bucket }

-- `usize::saturating_add`
abbrev pub saturating_add : ℕ → ℕ → ℕ
saturating_add a b = min (a + b) (u64_mod - 1)

-- An allocation over the limit is refused and charges nothing.
unfoldable pub alloc : FlowQuota → ℕ → Result QuotaError FlowQuota
alloc q bytes =
    let next = saturating_add q.mem_used bytes in
    if ltb q.mem_limit next
    then err (memory_exhausted bytes q.mem_limit)
    else ok (record q { mem_used = next })

unfoldable pub free : FlowQuota → ℕ → FlowQuota
free q bytes = record q { mem_used = q.mem_used - bytes }

-- `fetch_add`, which wraps
unfoldable pub top_up_mem : FlowQuota → ℕ → FlowQuota
top_up_mem q extra = record q { mem_limit = (q.mem_limit + extra) % u64_mod }
