-- ===== src/Scheduler/Supervisor/Group.antt =====
-- A failed child's group comes back, in the order in which it was started.
use bytecode_vm.Prelude.{
  ℕ, ◌≡◌, ◌≢◌, refl, subst, sym, ◌∙◌, ap, Bool, true, false, ◌||◌, ==_iff, some, List, [], ◌∷◌,
  ◌++◌, append-nil, drop, length, drop-append, arith,
}
use native.Mathlib.Nat.{zero-add}
use bytecode_vm.Prelude.Maps.{nat_key, get, remove, get-remove}
use bytecode_vm.Scheduler.Supervisor.{
  RestartStrategy, one_for_one, one_for_all, rest_for_one, FlowOutcome, LiveChild, Supervisor,
  Spawns, without, remove_child, specs_of, push_spec, cascade_specs, spawn_child, spawn_all,
  start_cascade, position_from, later_of, intensity_hit, respawn, handle_exit,
}
use bytecode_vm.Scheduler.Supervisor.Order.{
  HaveRows, position_lem, without-split, cascade_specs-order,
}
use bytecode_vm.Scheduler.Supervisor.Starts.{new_ids, AreNew, spawn_all-HasStarted, if_false}
use bytecode_vm.Scheduler.Supervisor.Drain.{is_in, AreDistinct, all_exit, HasRestarted, nobody}
use bytecode_vm.Scheduler.Supervisor.Cascades.{HasRow, start_cascade-HasRestarted}
use bytecode_vm.Scheduler.Supervisor.Failure.{
  kept_of, siblings_of, group_of, IsFailure, is_in-append, not_in-IsOther, in-HaveRows, counted,
  handle_exit-respawn,
}

-- Where the siblings stand, in the order and by the position of the child.
later_all :
    (order xs ys : List ℕ) (id : ℕ)
    → order ≡ xs ++ id ∷ ys
    → is_in id (xs ++ ys) ≡ false
    → without id order ≡ xs ++ ys
later_all order xs ys id e once =
    let both = is_in-append id xs ys in
    ap (without id) e
    ∙ without-split id xs ys (not_in-IsOther id xs (ground (arith, both, once)))
        (not_in-IsOther id ys (ground (arith, both, once)))

later_rest :
    (order xs ys : List ℕ) (id : ℕ)
    → order ≡ xs ++ id ∷ ys
    → is_in id (xs ++ ys) ≡ false
    → later_of rest_for_one (position_from id 0 order) (without id order) ≡ ys
unfolding later_of
later_rest order xs ys id e once =
    let both = is_in-append id xs ys in
    let place : position_from id 0 order ≡ some (length xs) =
      ap (position_from id 0) e
      ∙ position_lem id 0 xs ys (not_in-IsOther id xs (ground (arith, both, once)))
      ∙ ap (λ n. some n) (zero-add (length xs)) in
    ap (λ o. later_of rest_for_one o (without id order)) place
    ∙ ap (drop (length xs)) (later_all order xs ys id e once)
    ∙ drop-append xs ys

-- The children of the group, by the order before the exit.
group_specs :
    (order xs ys : List ℕ) (id : ℕ) (live : LiveChild) (by_id : List (ℕ × LiveChild))
    → order ≡ xs ++ id ∷ ys
    → is_in id (xs ++ ys) ≡ false
    → HaveRows xs by_id
    → get id by_id ≡ some live
    → (cascade_specs one_for_all live.spec
          (position_from id 0 order)
          (specs_of (without id order) (remove id by_id))
        ≡ specs_of (xs ++ id ∷ ys) by_id)
      × (cascade_specs rest_for_one live.spec (position_from id 0 order) (
            specs_of
              (later_of rest_for_one (position_from id 0 order) (without id order))
              (remove id by_id))
          ≡ specs_of (id ∷ ys) by_id)
unfolding later_of
group_specs order xs ys id live by_id e once rows row =
    let both = is_in-append id xs ys in
    subst
      (λ o.
        (cascade_specs one_for_all live.spec (position_from id 0 o)
            (specs_of (without id o) (remove id by_id))
          ≡ specs_of (xs ++ id ∷ ys) by_id)
        × (cascade_specs rest_for_one live.spec (position_from id 0 o) (
              specs_of (later_of rest_for_one (position_from id 0 o) (without id o))
                (remove id by_id))
            ≡ specs_of (id ∷ ys) by_id))
      (sym e)
      (cascade_specs-order xs ys id live by_id (not_in-IsOther id xs (ground (arith, both, once)))
        (not_in-IsOther id ys (ground (arith, both, once))) rows row)

module _ (spawns : Spawns) (new : ℕ → ℕ) (is_new : AreNew spawns new) (is_live : ℕ → Bool)
    (time_of : ℕ → ℕ) (outcome_of : ℕ → FlowOutcome) where
  -- A child fails that may be started again, within the intensity, with no cascade waiting, among
  -- siblings that have rows and are live; then the siblings that were told to go down exit, once
  -- each, in any order, and no other exit comes between. When every spawn succeeds, no two under
  -- the same number: the start order is that of the siblings that stayed, then the new children;
  -- they are those of the child's group in their old order, each with a row; no cascade waits; and
  -- the kills asked for are those before and those of the siblings told to go down. The group is
  -- the child under one-for-one, all children under one-for-all, and the child and those behind it
  -- under rest-for-one.
  pub handle_exit-HasRestarted :
      (s : Supervisor) (xs ys down : List ℕ) (id now : ℕ) (outcome : FlowOutcome) (live : LiveChild)
      → IsFailure is_live s xs ys id now outcome live
      → AreDistinct down
      → ((x : ℕ) → is_in x (siblings_of s.config.strategy xs ys) ≡ is_in x down)
      → HasRestarted new
          (specs_of (group_of s.config.strategy xs id ys) s.children.by_id)
          (kept_of s.config.strategy xs ys)
          (s.kill_requests ++ siblings_of s.config.strategy xs ys)
          (all_exit spawns is_live time_of outcome_of down
            (handle_exit spawns is_live now id outcome s))
  unfolding all_exit is_in specs_of intensity_hit remove_child spawn_all new_ids
  handle_exit-HasRestarted s xs ys down id now outcome live f distinct same =
      at_strategy s.config.strategy refl same
    where
      back :
          (st : RestartStrategy)
          → s.config.strategy ≡ st
          → respawn st spawns is_live live.spec
              (position_from id 0 s.children.order)
              (later_of st (position_from id 0 s.children.order) (without id s.children.order))
              (counted now id s)
            ≡ handle_exit spawns is_live now id outcome s
      back st e = sym (handle_exit-respawn spawns is_live s xs ys id now outcome live st f e)

      unexceeded : (counted now id s).intensity_exceeded ≡ false
      unexceeded = ap (λ b. b || (intensity_hit now s).0) f.not_exceeded ∙ f.within

      row_kept : (x : ℕ) → is_in x (xs ++ ys) ≡ true → HasRow (counted now id s).children.by_id x
      row_kept x h =
          let (child, row) = f.have_rows x h in
          let other : id ≢ x = λ e. cc (f.once, h, ap (λ y. is_in y (xs ++ ys)) e) in
          (child, ground (arith, get-remove id x s.children.by_id, ==_iff id x, row, other))

      in_both : (x : ℕ) → is_in x ys ≡ true → is_in x (xs ++ ys) ≡ true
      in_both x h = is_in-append x xs ys ∙ ground (arith, h)

      rows_before : HaveRows xs s.children.by_id
      rows_before =
          in-HaveRows xs s.children.by_id
            (λ x h. f.have_rows x (is_in-append x xs ys ∙ ground (arith, h)))

      at_strategy :
          (st : RestartStrategy)
          → s.config.strategy ≡ st
          → ((x : ℕ) → is_in x (siblings_of st xs ys) ≡ is_in x down)
          → HasRestarted new
              (specs_of (group_of st xs id ys) s.children.by_id)
              (kept_of st xs ys)
              (s.kill_requests ++ siblings_of st xs ys)
              (all_exit spawns is_live time_of outcome_of down
                (handle_exit spawns is_live now id outcome s))
      at_strategy one_for_one e members =
          let nobody_down = nobody down (λ x. sym (members x)) in
          let after : Supervisor = counted now id s in
          let r = spawn_all-HasStarted spawns new (live.spec ∷ []) after is_new unexceeded in
          let v = spawn_child (spawns 0) live.spec after in
          subst
            (λ ds.
              HasRestarted new (specs_of (id ∷ []) s.children.by_id) (xs ++ ys)
                (s.kill_requests ++ [])
                (all_exit spawns is_live time_of outcome_of ds
                  (handle_exit spawns is_live now id outcome s)))
            (sym nobody_down)
            (subst
              (HasRestarted new (specs_of (id ∷ []) s.children.by_id) (xs ++ ys)
                (s.kill_requests ++ []))
              (if_false after.intensity_exceeded after v unexceeded ∙ back one_for_one e)
              (subst
                (λ specs.
                  HasRestarted new specs (xs ++ ys) (s.kill_requests ++ [])
                    (spawn_all spawns (live.spec ∷ []) after))
                (sym (ap (λ o. push_spec o []) f.has_row))
                (record {
                  has_order =
                      r.has_order
                      ∙ ap (λ zs. zs ++ new_ids new (live.spec ∷ []))
                          (later_all s.children.order xs ys id f.has_order f.once);
                  are_started = r.are_started;
                  no_cascade = r.keeps_cascade ∙ f.no_cascade;
                  has_kills = r.keeps_kills ∙ sym (append-nil s.kill_requests);
                })))
      at_strategy one_for_all e members =
          let later = later_all s.children.order xs ys id f.has_order f.once in
          let at = position_from id 0 s.children.order in
          subst
            (λ v.
              HasRestarted new (specs_of (xs ++ id ∷ ys) s.children.by_id) []
                (s.kill_requests ++ (xs ++ ys)) (all_exit spawns is_live time_of outcome_of down v))
            (ap (λ l. start_cascade spawns is_live live.spec at l (counted now id s)) (sym later)
              ∙ back one_for_all e)
            (start_cascade-HasRestarted spawns new is_new is_live time_of outcome_of live.spec at
              (xs ++ ys) down [] (specs_of (xs ++ id ∷ ys) s.children.by_id) (counted now id s)
              (ap
                  (λ st.
                    cascade_specs st live.spec at
                      (specs_of (xs ++ ys) (remove id s.children.by_id)))
                  e
                ∙ ap
                    (λ l.
                      cascade_specs one_for_all live.spec at
                        (specs_of l (remove id s.children.by_id)))
                    (sym later)
                ∙ (group_specs s.children.order xs ys id live s.children.by_id f.has_order f.once
                    rows_before f.has_row).0)
              later unexceeded row_kept f.are_live (λ x h. refl) distinct members)
      at_strategy rest_for_one e members =
          let later = later_rest s.children.order xs ys id f.has_order f.once in
          let at = position_from id 0 s.children.order in
          subst
            (λ v.
              HasRestarted new (specs_of (id ∷ ys) s.children.by_id) xs (s.kill_requests ++ ys)
                (all_exit spawns is_live time_of outcome_of down v))
            (ap (λ l. start_cascade spawns is_live live.spec at l (counted now id s)) (sym later)
              ∙ back rest_for_one e)
            (start_cascade-HasRestarted spawns new is_new is_live time_of outcome_of live.spec at ys
              down xs (specs_of (id ∷ ys) s.children.by_id) (counted now id s)
              (ap (λ st. cascade_specs st live.spec at (specs_of ys (remove id s.children.by_id))) e
                ∙ ap
                    (λ l.
                      cascade_specs rest_for_one live.spec at
                        (specs_of l (remove id s.children.by_id)))
                    (sym later)
                ∙ (group_specs s.children.order xs ys id live s.children.by_id f.has_order f.once
                    rows_before f.has_row).1)
              (later_all s.children.order xs ys id f.has_order f.once) unexceeded
              (λ x h. row_kept x (in_both x h)) (λ x h. f.are_live x (in_both x h)) f.are_apart
              distinct members)
