-- ===== src/Tests/Groups.antt =====
-- Three children under one-for-all: the second fails, and the others go down, the third first.
use bytecode_vm.Prelude.{ℕ, ◌+◌, ◌≡◌, ◌⊎◌, inl, inr, refl, subst, sym, true, [], ◌∷◌, arith}
use bytecode_vm.Prelude.Maps.{nat_key, get}
use bytecode_vm.Scheduler.Supervisor.{
  Supervisor, Spawns, running, failed, one_for_all, specs_of, new_spec, handle_exit, intensity_hit,
  times_at, drop_old, window_start,
}
use bytecode_vm.Scheduler.Supervisor.Starts.{AreNew}
use bytecode_vm.Scheduler.Supervisor.Drain.{is_in, AreDistinct, all_exit, HasRestarted}
use bytecode_vm.Scheduler.Supervisor.Cascades.{HasRow}
use bytecode_vm.Scheduler.Supervisor.Failure.{IsFailure}
use bytecode_vm.Scheduler.Supervisor.Group.{handle_exit-HasRestarted}
use bytecode_vm.Tests.Relations.{child, three_rows, supervisor_of_three}

one_for_all_of_three : Supervisor
unfolding supervisor_of_three
one_for_all_of_three = record supervisor_of_three {
  config = record { max_restarts = 3; max_period = 5; strategy = one_for_all };
}

spawns : Spawns
spawns i = running (60 + i)

spawns-AreNew : AreNew spawns (λ i. 60 + i)
unfolding spawns
spawns-AreNew = record { succeeds = λ i. refl; distinct = λ i j h e. h (omega (arith, e)) }

one_or_three : (x : ℕ) → is_in x (1 ∷ 3 ∷ []) ≡ true → (x ≡ 1) ⊎ (x ≡ 3)
unfolding is_in
one_or_three x h = ground (arith, h)

siblings-HasRow : (x : ℕ) → is_in x (1 ∷ 3 ∷ []) ≡ true → HasRow three_rows x
unfolding three_rows get
siblings-HasRow x h = elim (one_or_three x h) [
  | inl e ↦ subst (HasRow three_rows) (sym e) (child 10, refl)
  | inr e ↦ subst (HasRow three_rows) (sym e) (child 30, refl)
]

second-IsFailure :
    IsFailure (λ id. true) one_for_all_of_three (1 ∷ []) (3 ∷ []) 2 9 (failed []) (child 20)
unfolding one_for_all_of_three supervisor_of_three three_rows child new_spec get is_in intensity_hit
    times_at drop_old window_start
second-IsFailure = record {
  has_order = refl;
  has_row = refl;
  not_expected = refl;
  may_restart = tt;
  no_cascade = refl;
  not_exceeded = refl;
  within = refl;
  once = refl;
  are_apart = λ x h. ground (arith, h);
  have_rows = siblings-HasRow;
  are_live = λ x h. refl;
}

handle_exit-HasRestarted_example :
    HasRestarted
      (λ i. 60 + i)
      (specs_of (1 ∷ 2 ∷ 3 ∷ []) three_rows)
      []
      (1 ∷ 3 ∷ [])
      (all_exit spawns
        (λ id. true)
        (λ id. 10)
        (λ id. failed [])
        (3 ∷ 1 ∷ [])
        (handle_exit spawns (λ id. true) 9 2 (failed []) one_for_all_of_three))
unfolding one_for_all_of_three supervisor_of_three is_in AreDistinct
handle_exit-HasRestarted_example =
    handle_exit-HasRestarted spawns (λ i. 60 + i) spawns-AreNew (λ id. true) (λ id. 10)
      (λ id. failed []) one_for_all_of_three (1 ∷ []) (3 ∷ []) (3 ∷ 1 ∷ []) 2 9 (failed [])
      (child 20) second-IsFailure (refl, (refl, tt)) (λ x. ground arith)
