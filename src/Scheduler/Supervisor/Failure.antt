-- ===== src/Scheduler/Supervisor/Failure.antt =====
-- What it means that a child fails, and the restart up to the strategy.
use bytecode_vm.Prelude.{
  ℕ, ◌≡◌, refl, ◌∙◌, ap, Bool, true, false, ◌||◌, ==_iff, none, some, List, [], ◌∷◌, ◌++◌, arith,
}
use bytecode_vm.Prelude.Maps.{nat_key, get}
use bytecode_vm.Scheduler.Supervisor.{
  RestartPolicy, always, on_failure, never, RestartStrategy, one_for_one, one_for_all, rest_for_one,
  FlowOutcome, completed, failed, LiveChild, Supervisor, Spawns, without, remove_child,
  position_from, later_of, should_restart, intensity_hit, check_intensity, restart_unless, respawn,
  exited, exited_if, handle_exit,
}
use bytecode_vm.Scheduler.Supervisor.Order.{IsOther, HaveRows}
use bytecode_vm.Scheduler.Supervisor.Starts.{if_false}
use bytecode_vm.Scheduler.Supervisor.Drain.{is_in, first_in, if_true}
use bytecode_vm.Scheduler.Supervisor.Cascades.{HasRow}

-- An outcome after which a child of a policy is started again.
abbrev pub MayRestart : RestartPolicy → FlowOutcome → Type 0
MayRestart always outcome = Unit {0}
MayRestart on_failure (failed text) = Unit {0}
MayRestart on_failure (completed value) = ⊥
MayRestart never outcome = ⊥

should_restart-true :
    (p : RestartPolicy) (outcome : FlowOutcome)
    → MayRestart p outcome
    → should_restart p outcome ≡ true
unfolding should_restart
should_restart-true always outcome h = refl
should_restart-true on_failure (failed text) h = refl
should_restart-true on_failure (completed value) h = absurd h
should_restart-true never outcome h = absurd h

-- Of the children before and behind the one that exits: those that stay, those that are told to go
-- down, and those that are started.
abbrev pub kept_of : RestartStrategy → List ℕ → List ℕ → List ℕ
kept_of one_for_one xs ys = xs ++ ys
kept_of one_for_all xs ys = []
kept_of rest_for_one xs ys = xs

abbrev pub siblings_of : RestartStrategy → List ℕ → List ℕ → List ℕ
siblings_of one_for_one xs ys = []
siblings_of one_for_all xs ys = xs ++ ys
siblings_of rest_for_one xs ys = ys

abbrev pub group_of : RestartStrategy → List ℕ → ℕ → List ℕ → List ℕ
group_of one_for_one xs id ys = id ∷ []
group_of one_for_all xs id ys = xs ++ id ∷ ys
group_of rest_for_one xs id ys = id ∷ ys

-- A supervised child that exits and may be started again, among siblings that run; no cascade waits,
-- and the restart is within the intensity.
pub record IsFailure (is_live : ℕ → Bool) (s : Supervisor) (xs ys : List ℕ) (id now : ℕ)
    (outcome : FlowOutcome) (live : LiveChild) : Type 0 where
  pub has_order : s.children.order ≡ xs ++ id ∷ ys
  pub has_row : get id s.children.by_id ≡ some live
  pub not_expected : live.expected_shutdown ≡ false
  pub may_restart : MayRestart live.spec.restart outcome
  pub no_cascade : s.cascade ≡ none
  pub not_exceeded : s.intensity_exceeded ≡ false
  pub within : (intensity_hit now s).0 ≡ false
  pub once : is_in id (xs ++ ys) ≡ false
  pub are_apart : (x : ℕ) → is_in x ys ≡ true → is_in x xs ≡ false
  pub have_rows : (x : ℕ) → is_in x (xs ++ ys) ≡ true → HasRow s.children.by_id x
  pub are_live : (x : ℕ) → is_in x (xs ++ ys) ≡ true → is_live x ≡ true

pub is_in-append : (x : ℕ) (xs ys : List ℕ) → is_in x (xs ++ ys) ≡ (is_in x xs || is_in x ys)
unfolding is_in
is_in-append x [] ys = refl
is_in-append x (y ∷ xs) ys = ground (arith, is_in-append x xs ys)

pub not_in-IsOther : (id : ℕ) (xs : List ℕ) → is_in id xs ≡ false → IsOther id xs
unfolding is_in
not_in-IsOther id [] h = tt
not_in-IsOther id (x ∷ xs) h =
    (λ e. ground (arith, h, ==_iff id x, e), not_in-IsOther id xs (ground (arith, h)))

pub in-HaveRows :
    (xs : List ℕ) (by_id : List (ℕ × LiveChild))
    → ((x : ℕ) → is_in x xs ≡ true → HasRow by_id x)
    → HaveRows xs by_id
unfolding is_in
in-HaveRows [] by_id h = tt
in-HaveRows (x ∷ xs) by_id h =
    (h x (first_in x xs), in-HaveRows xs by_id (λ y k. h y (ground (arith, k))))

-- The supervisor after the exit was counted, and before anything is started.
abbrev pub counted : ℕ → ℕ → Supervisor → Supervisor
counted now id s = (intensity_hit now (record s { children = (remove_child id s.children).1 })).1

pub handle_exit-respawn :
    (spawns : Spawns) (is_live : ℕ → Bool) (s : Supervisor) (xs ys : List ℕ) (id now : ℕ)
    (outcome : FlowOutcome) (live : LiveChild) (st : RestartStrategy)
    → IsFailure is_live s xs ys id now outcome live
    → s.config.strategy ≡ st
    → handle_exit spawns is_live now id outcome s
      ≡ respawn st spawns is_live live.spec
          (position_from id 0 s.children.order)
          (later_of st (position_from id 0 s.children.order) (without id s.children.order))
          (counted now id s)
unfolding handle_exit remove_child exited check_intensity intensity_hit
handle_exit-respawn spawns is_live s xs ys id now outcome live st f strategy =
    let t = (remove_child id s.children).1 in
    let gone : Supervisor = record s { children = t } in
    let at = position_from id 0 s.children.order in
    let later = later_of s.config.strategy at (without id s.children.order) in
    ap (λ o. exited_if spawns is_live now id outcome at (o, t) s) f.has_row
    ∙ if_false live.expected_shutdown _ _ f.not_expected
    ∙ if_true (should_restart live.spec.restart outcome) _ _
        (should_restart-true live.spec.restart outcome f.may_restart)
    ∙ ap (λ r. restart_unless r spawns is_live live.spec at later)
        (if_false s.intensity_exceeded (true, gone) (intensity_hit now gone) f.not_exceeded)
    ∙ ap (λ b. restart_unless (b, (intensity_hit now gone).1) spawns is_live live.spec at later)
        f.within
    ∙ ap
        (λ x.
          respawn x spawns is_live live.spec at (later_of x at (without id s.children.order))
            (intensity_hit now gone).1)
        strategy
