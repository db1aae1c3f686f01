-- ===== src/Scheduler/Supervisor/Cascades.antt =====
-- From the failure of a child to the start of its group.
use bytecode_vm.Prelude.{
  ℕ, ◌≡◌, ◌⊎◌, inl, inr, refl, subst, sym, ◌∙◌, ap, Bool, true, false, ◌||◌, ◌==◌, ==_iff, Option,
  none, some, List, [], ◌∷◌, ◌++◌, arith, is_empty,
}
use bytecode_vm.Prelude.Maps.{nat_key, get, insert, get-insert}
use bytecode_vm.Scheduler.Supervisor.{
  ChildSpec, FlowOutcome, LiveChild, Supervisor, Spawns, specs_of, mark, mark_all, cascade_specs,
  still_live, open_cascade, start_cascade, finish_if,
}
use bytecode_vm.Scheduler.Supervisor.Starts.{AreNew}
use bytecode_vm.Scheduler.Supervisor.Drain.{
  is_in, AreDistinct, IsMarked, all_exit, HasRestarted, nobody, somebody, first_in,
  finish-HasRestarted, drain-HasRestarted,
}

abbrev pub HasRow : List (ℕ × LiveChild) → ℕ → Type 0
HasRow by_id x = (child : LiveChild) × (get x by_id ≡ some child)

still_live-all :
    (is_live : ℕ → Bool) (ids : List ℕ)
    → ((x : ℕ) → is_in x ids ≡ true → is_live x ≡ true)
    → still_live is_live ids ≡ ids
unfolding still_live is_in
still_live-all is_live [] h = refl
still_live-all is_live (x ∷ ids) h =
    ground (arith, h x (ground arith), still_live-all is_live ids (λ y k. h y (ground (arith, k))))

-- Marking one row keeps rows and marks.
mark-HasRow :
    (id x : ℕ) (by_id : List (ℕ × LiveChild)) (o : Option LiveChild)
    → HasRow by_id x
    → HasRow (mark id o by_id) x
mark-HasRow id x by_id none h = h
mark-HasRow id x by_id (some child) (c, row) = at_key (id == x) refl
  where
    marked : LiveChild
    marked = record child { expected_shutdown = true }

    at_key : (b : Bool) → id == x ≡ b → HasRow (insert id marked by_id) x
    at_key true e = (marked, ground (arith, get-insert id x marked by_id, e))
    at_key false e = (c, ground (arith, get-insert id x marked by_id, e, row))

mark-IsMarked :
    (id x : ℕ) (by_id : List (ℕ × LiveChild)) (o : Option LiveChild)
    → IsMarked by_id x
    → IsMarked (mark id o by_id) x
mark-IsMarked id x by_id none h = h
mark-IsMarked id x by_id (some child) (c, row, told) = at_key (id == x) refl
  where
    marked : LiveChild
    marked = record child { expected_shutdown = true }

    at_key : (b : Bool) → id == x ≡ b → IsMarked (insert id marked by_id) x
    at_key true e = (marked, ground (arith, get-insert id x marked by_id, e), refl)
    at_key false e = (c, ground (arith, get-insert id x marked by_id, e, row), told)

mark_all-IsMarked :
    (ids : List ℕ) (x : ℕ) (by_id : List (ℕ × LiveChild))
    → HasRow by_id x
    → (is_in x ids ≡ true) ⊎ IsMarked by_id x
    → IsMarked (mark_all ids by_id) x
unfolding mark_all is_in
mark_all-IsMarked [] x by_id row (inl h) = cc
mark_all-IsMarked [] x by_id row (inr told) = told
mark_all-IsMarked (id ∷ ids) x by_id row (inr told) =
    mark_all-IsMarked ids x (mark id (get id by_id) by_id)
      (mark-HasRow id x by_id (get id by_id) row)
      (inr (mark-IsMarked id x by_id (get id by_id) told))
mark_all-IsMarked (id ∷ ids) x by_id row (inl h) =
    mark_all-IsMarked ids x (mark id (get id by_id) by_id)
      (mark-HasRow id x by_id (get id by_id) row) (at_key (x == id) refl)
  where
    at_key :
        (b : Bool) → x == id ≡ b → (is_in x ids ≡ true) ⊎ IsMarked (mark id (get id by_id) by_id) x
    at_key false e = inl (ground (arith, e, h))
    at_key true e =
        let same : x ≡ id = (==_iff x id).0 e in
        let (c, found) = row in
        let marked : LiveChild = record c { expected_shutdown = true } in
        inr (
          marked,
          ap (λ o. get x (mark id o by_id)) (ap (λ y. get y by_id) (sym same) ∙ found)
              ∙ ground (arith, get-insert id x marked by_id, ==_iff id x, same),
          refl,
        )

module _ (spawns : Spawns) (new : ℕ → ℕ) (is_new : AreNew spawns new) (is_live : ℕ → Bool)
    (time_of : ℕ → ℕ) (outcome_of : ℕ → FlowOutcome) where
  pub start_cascade-HasRestarted :
      (spec : ChildSpec) (at : Option ℕ) (later down kept : List ℕ) (specs : List ChildSpec)
      (s : Supervisor)
      → cascade_specs s.config.strategy spec at (specs_of later s.children.by_id) ≡ specs
      → s.children.order ≡ kept ++ later
      → s.intensity_exceeded ≡ false
      → ((x : ℕ) → is_in x later ≡ true → HasRow s.children.by_id x)
      → ((x : ℕ) → is_in x later ≡ true → is_live x ≡ true)
      → ((x : ℕ) → is_in x later ≡ true → is_in x kept ≡ false)
      → AreDistinct down
      → ((x : ℕ) → is_in x later ≡ is_in x down)
      → HasRestarted new specs kept (s.kill_requests ++ later) (
          all_exit spawns is_live time_of outcome_of down
            (start_cascade spawns is_live spec at later s))
  unfolding start_cascade open_cascade is_in all_exit
  start_cascade-HasRestarted spec at later down kept specs s group order within rows live apart
        distinct same =
      at_down down distinct same
    where
      waits :
          (open_cascade is_live spec at later s).cascade
          ≡ some (record { waiting = later; specs = specs })
      waits =
          ap
            (λ w. some (record {
              waiting = w;
              specs = cascade_specs s.config.strategy spec at (specs_of later s.children.by_id);
            }))
            (still_live-all is_live later live)
          ∙ ap (λ x. some (record { waiting = later; specs = x })) group

      started :
          (b : Bool)
          → is_empty later ≡ b
          → start_cascade spawns is_live spec at later s
            ≡ finish_if b spawns (open_cascade is_live spec at later s)
      started b e =
          ap
            (λ w.
              finish_if (is_empty w || is_empty later) spawns
                (open_cascade is_live spec at later s))
            (still_live-all is_live later live)
          ∙ ap (λ c. finish_if (c || c) spawns (open_cascade is_live spec at later s)) e
          ∙ ap (λ c. finish_if c spawns (open_cascade is_live spec at later s)) (either b)
        where
          either : (c : Bool) → (c || c) ≡ c
          either true = refl
          either false = refl

      at_down :
          (ds : List ℕ)
          → AreDistinct ds
          → ((x : ℕ) → is_in x later ≡ is_in x ds)
          → HasRestarted new specs kept (s.kill_requests ++ later) (
              all_exit spawns is_live time_of outcome_of ds
                (start_cascade spawns is_live spec at later s))
      at_down [] _ none_left =
          let empty : later ≡ [] = nobody later none_left in
          subst (HasRestarted new specs kept (s.kill_requests ++ later))
            (sym (started true (ap (λ x. is_empty x) empty)))
            (finish-HasRestarted spawns new is_new specs kept (s.kill_requests ++ later) later
              (open_cascade is_live spec at later s) waits (order ∙ ap (λ x. kept ++ x) empty)
              within refl)
      at_down (d ∷ ds) once same_flows =
          let some_left : is_empty later ≡ false =
            somebody d later (same_flows d ∙ first_in d ds) in
          subst
            (λ x.
              HasRestarted new specs kept (s.kill_requests ++ later)
                (all_exit spawns is_live time_of outcome_of (d ∷ ds) x))
            (sym (started false some_left))
            (drain-HasRestarted spawns new is_new is_live time_of outcome_of specs kept
              (s.kill_requests ++ later) later d ds (open_cascade is_live spec at later s) once
              (record {
                has_cascade = waits;
                has_order = order;
                same_flows = same_flows;
                are_apart = λ x h. apart x (same_flows x ∙ h);
                are_marked = λ x h.
                    mark_all-IsMarked later x s.children.by_id (rows x (same_flows x ∙ h))
                      (inl (same_flows x ∙ h));
                not_exceeded = within;
                has_kills = refl;
              }))
