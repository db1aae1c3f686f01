-- ===== src/Scheduler/Supervisor/Intensity.antt =====
-- The supervisor gives up before restarts become too frequent, and for good.
use bytecode_vm.Prelude.{
  ℕ, ◌+◌, ◌-◌, ◌≤◌, ◌≡◌, refl, subst, sym, ◌∙◌, ap, Bool, true, false, leb, List, [], ◌∷◌, ◌++◌,
  length, if◌then◌else◌, arith,
}
use bytecode_vm.Prelude.Maps.{nat_key}
use bytecode_vm.Scheduler.Supervisor.{
  SupervisorConfig, window_start, drop_old, times_at, Supervisor, intensity_hit, check_intensity,
}

-- How many times are not before another.
unfoldable pub count_since : ℕ → List ℕ → ℕ
count_since from [] = 0
count_since from (t ∷ times) = (if leb from t then 1 else 0) + count_since from times

count_since-snoc :
    (from now : ℕ) (times : List ℕ)
    → count_since from (times ++ now ∷ [])
      ≡ count_since from times + (if leb from now then 1 else 0)
unfolding count_since
count_since-snoc from now [] = omega arith
count_since-snoc from now (t ∷ times) = omega (arith, count_since-snoc from now times)

count_since-le : (from : ℕ) (times : List ℕ) → count_since from times ≤ length times
unfolding count_since
count_since-le from [] = omega arith
count_since-le from (t ∷ times) = ground (arith, count_since-le from times)

count_since-drop_old :
    (from w : ℕ) (times : List ℕ)
    → w ≤ from
    → count_since from (drop_old w times) ≡ count_since from times
unfolding count_since drop_old
count_since-drop_old from w [] h = refl
count_since-drop_old from w (t ∷ times) h = ground (arith, count_since-drop_old from w times h)

-- The restarts that were let through, oldest first, with the supervisor after them and the time of
-- the last. The clock does not go back, and is past the first period. What else a supervisor does
-- leaves its configuration and its times.
pub data Restarts : List ℕ → Supervisor → ℕ → Type 0 where
  none_yet : (s : Supervisor) → s.restart_times ≡ [] → Restarts [] s 0
  one_more :
      {restarts : List ℕ} {s : Supervisor} {last : ℕ}
      → Restarts restarts s last
      → (now : ℕ) → last ≤ now
      → s.config.max_period ≤ now
      → (check_intensity now s).0 ≡ false
      → Restarts (restarts ++ now ∷ []) (check_intensity now s).1 now
  else_where :
      {restarts : List ℕ} {s : Supervisor} {last : ℕ}
      → Restarts restarts s last
      → (u : Supervisor) → u.config ≡ s.config
      → u.restart_times ≡ s.restart_times
      → Restarts restarts u last

-- A restart that is let through: what the supervisor keeps, and how long it is.
let_through :
    (now : ℕ) (s : Supervisor)
    → (check_intensity now s).0 ≡ false
    → ((check_intensity now s).1.restart_times ≡ times_at s.config now s.restart_times)
      × ((check_intensity now s).1.config ≡ s.config)
      × (length (times_at s.config now s.restart_times) ≤ s.config.max_restarts)
unfolding check_intensity intensity_hit
let_through now s h = at_flag s.intensity_exceeded h
  where
    at_flag :
        (b : Bool)
        → (if b then (true, s) else intensity_hit now s).0 ≡ false
        → ((if b then (true, s) else intensity_hit now s).1.restart_times
            ≡ times_at s.config now s.restart_times)
          × ((if b then (true, s) else intensity_hit now s).1.config ≡ s.config)
          × (length (times_at s.config now s.restart_times) ≤ s.config.max_restarts)
    at_flag true k = cc
    at_flag false k = (refl, refl, ground arith)

-- The last window reaches back as far as the period.
keeps_count :
    (restarts : List ℕ) (s : Supervisor) (last from : ℕ)
    → Restarts restarts s last
    → last - s.config.max_period ≤ from
    → count_since from s.restart_times ≡ count_since from restarts
unfolding times_at window_start count_since
keeps_count _ s _ from (none_yet _ h) k = rw h refl
keeps_count _ _ _ from (one_more {restarts} {s} {last} r now later past few) k =
    let (times, config, _) = let_through now s few in
    let k' : now - s.config.max_period ≤ from =
      subst (λ (c : SupervisorConfig). now - c.max_period ≤ from) config k in
    let start : window_start now s.config.max_period ≤ from = ground (arith, past, k') in
    ap (count_since from) times
    ∙ count_since-drop_old from (window_start now s.config.max_period) (s.restart_times ++ now ∷ [])
        start
    ∙ count_since-snoc from now s.restart_times
    ∙ ap (λ n. n + (if leb from now then 1 else 0))
        (keeps_count restarts s last from r (omega (arith, k', later)))
    ∙ sym (count_since-snoc from now restarts)
keeps_count _ _ _ from (else_where {restarts} {s} {last} r u config times) k =
    ap (count_since from) times
    ∙ keeps_count restarts s last from r
        (subst (λ (c : SupervisorConfig). last - c.max_period ≤ from) config k)

-- When the clock does not go back and is past the first period, at most `max_restarts` of the
-- restarts that were let through lie in the period that ends with the last of them.
pub Restarts-bounded :
    (restarts : List ℕ) (s : Supervisor) (last : ℕ)
    → Restarts restarts s last
    → count_since (last - s.config.max_period) restarts ≤ s.config.max_restarts
unfolding count_since
Restarts-bounded _ s _ (none_yet _ h) = omega arith
Restarts-bounded _ _ _ (one_more {restarts} {s} {last} r now later past few) =
    let (times, config, short) = let_through now s few in
    let u = (check_intensity now s).1 in
    let kept =
      keeps_count _ u now (now - u.config.max_period) (one_more r now later past few)
        (omega arith) in
    let short' : length u.restart_times ≤ u.config.max_restarts = rw (times, config) short in
    omega (arith, kept, count_since-le (now - u.config.max_period) u.restart_times, short')
Restarts-bounded _ _ _ (else_where {restarts} {s} {last} r u config times) =
    subst (λ (c : SupervisorConfig). count_since (last - c.max_period) restarts ≤ c.max_restarts)
      (sym config) (Restarts-bounded restarts s last r)
