-- ===== src/Scheduler/Supervisor/Order.antt =====
-- The order of a cascade's list, and what an exit does once the intensity is exceeded.
use bytecode_vm.Prelude.{
  ℕ, suc, ◌+◌, ◌≡◌, ◌≢◌, refl, ap, Bool, true, false, ==_iff, Option, none, some, List, [], ◌∷◌,
  ◌++◌, length, drop-append, is_empty, if◌then◌else◌, arith, All,
}
use native.Mathlib.Nat.{zero-add}
use bytecode_vm.Prelude.Maps.{nat_key, get, remove, get-remove}
use bytecode_vm.Scheduler.Supervisor.{
  ChildSpec, one_for_all, rest_for_one, FlowOutcome, LiveChild, ChildTable, Cascade, Supervisor,
  Spawns, without, remove_child, specs_of, insert_at, cascade_specs, position_from, later_of,
  spawn_all, finish_with, finish_cascade, finish_if, progress_with, on_cascade_progress,
  should_restart, check_intensity, restart_unless, exited, exited_if, handle_exit,
}

abbrev pub IsOther : ℕ → List ℕ → Type 0
IsOther id ids = All (λ (x : ℕ). x ≢ id) ids

-- Each of the flows has a row.
abbrev pub HaveRows : List ℕ → List (ℕ × LiveChild) → Type 0
HaveRows ids by_id = All (λ (x : ℕ). (child : LiveChild) × (get x by_id ≡ some child)) ids

pub position_lem :
    (id i : ℕ) (xs ys : List ℕ)
    → IsOther id xs
    → position_from id i (xs ++ id ∷ ys) ≡ some (i + length xs)
unfolding position_from
position_lem id i [] ys h = ground arith
position_lem id i (x ∷ xs) ys (hx, h) =
    ground (arith, position_lem id (suc i) xs ys h, hx, ==_iff x id)

without_other : (id : ℕ) (xs : List ℕ) → IsOther id xs → without id xs ≡ xs
unfolding without
without_other id [] h = refl
without_other id (x ∷ xs) (hx, h) = ground (arith, without_other id xs h, hx, ==_iff x id)

pub without-split :
    (id : ℕ) (xs ys : List ℕ)
    → IsOther id xs
    → IsOther id ys
    → without id (xs ++ id ∷ ys) ≡ xs ++ ys
unfolding without
without-split id [] ys hx hy = ground (arith, without_other id ys hy)
without-split id (x ∷ xs) ys (hx, h) hy =
    ground (arith, without-split id xs ys h hy, hx, ==_iff x id)

specs_of-remove :
    (id : ℕ) (ids : List ℕ) (by_id : List (ℕ × LiveChild))
    → IsOther id ids
    → specs_of ids (remove id by_id) ≡ specs_of ids by_id
unfolding specs_of
specs_of-remove id [] by_id h = refl
specs_of-remove id (x ∷ ids) by_id (hx, h) =
    ground (arith, specs_of-remove id ids by_id h, get-remove id x by_id, hx, ==_iff id x)

-- Back at its place among the siblings before it, all of which have rows.
insert_at_lem :
    (id : ℕ) (live : LiveChild) (xs ys : List ℕ) (by_id : List (ℕ × LiveChild))
    → HaveRows xs by_id
    → get id by_id ≡ some live
    → insert_at (length xs) live.spec (specs_of (xs ++ ys) by_id) ≡ specs_of (xs ++ id ∷ ys) by_id
unfolding insert_at specs_of
insert_at_lem id live [] ys by_id rows h = rw h refl
insert_at_lem id live (x ∷ xs) ys by_id ((child, row), rows) h =
    rw row (ap (λ specs. child.spec ∷ specs) (insert_at_lem id live xs ys by_id rows h))

append-IsOther : (id : ℕ) (xs ys : List ℕ) → IsOther id xs → IsOther id ys → IsOther id (xs ++ ys)
append-IsOther id [] ys hx hy = hy
append-IsOther id (x ∷ xs) ys (h, hx) hy = (h, append-IsOther id xs ys hx hy)

-- The list of a cascade, of a child that stands once in the start order, behind siblings that have
-- rows: under one-for-all it is that of the whole order, and under rest-for-one that of the order from
-- the child on.
pub cascade_specs-order :
    (xs ys : List ℕ) (id : ℕ) (live : LiveChild) (by_id : List (ℕ × LiveChild))
    → IsOther id xs
    → IsOther id ys
    → HaveRows xs by_id
    → get id by_id ≡ some live
    → (cascade_specs one_for_all live.spec (position_from id 0 (xs ++ id ∷ ys)) (
          specs_of
            (later_of one_for_all (position_from id 0 (xs ++ id ∷ ys)) (without id (xs ++ id ∷ ys)))
            (remove id by_id))
        ≡ specs_of (xs ++ id ∷ ys) by_id)
      × (cascade_specs rest_for_one live.spec (position_from id 0 (xs ++ id ∷ ys)) (
            specs_of
              (later_of rest_for_one
                (position_from id 0 (xs ++ id ∷ ys))
                (without id (xs ++ id ∷ ys)))
              (remove id by_id))
          ≡ specs_of (id ∷ ys) by_id)
unfolding cascade_specs later_of specs_of
cascade_specs-order xs ys id live by_id hx hy rows h =
    rw
      (
        position_lem id 0 xs ys hx,
        zero-add (length xs),
        without-split id xs ys hx hy,
        drop-append xs ys,
        specs_of-remove id (xs ++ ys) by_id (append-IsOther id xs ys hx hy),
        specs_of-remove id ys by_id hy,
        h,
      )
      (insert_at_lem id live xs ys by_id rows h, refl)

spawn_all-exceeded :
    (spawns : Spawns) (specs : List ChildSpec) (s : Supervisor)
    → s.intensity_exceeded ≡ true
    → spawn_all spawns specs s ≡ s
unfolding spawn_all
spawn_all-exceeded spawns [] s h = refl
spawn_all-exceeded spawns (spec ∷ specs) s h = rw h refl

finish_with-exceeded :
    (spawns : Spawns) (c : Option Cascade) (s : Supervisor)
    → s.intensity_exceeded ≡ true
    → (finish_with spawns c s).children ≡ s.children
finish_with-exceeded spawns none s h = refl
finish_with-exceeded spawns (some c) s h =
    ap (λ (x : Supervisor). x.children)
      (spawn_all-exceeded spawns c.specs (record s { cascade = none }) h)

progress_with-exceeded :
    (spawns : Spawns) (id : ℕ) (c : Option Cascade) (s : Supervisor)
    → s.intensity_exceeded ≡ true
    → (progress_with spawns id c s).children ≡ s.children
unfolding finish_cascade
progress_with-exceeded spawns id none s h = refl
progress_with-exceeded spawns id (some c) s h =
    let waits : Supervisor = record s {
      cascade = some (record c { waiting = without id c.waiting });
    } in
    elim (is_empty (without id c.waiting))
      as (λ b. (finish_if b spawns waits).children ≡ s.children) [
        | true ↦ finish_with-exceeded spawns waits.cascade waits h
        | false ↦ refl
      ]

exited-exceeded :
    (spawns : Spawns) (is_live : ℕ → Bool) (now id : ℕ) (outcome : FlowOutcome) (at : Option ℕ)
    (live : LiveChild) (s : Supervisor)
    → s.intensity_exceeded ≡ true
    → (exited spawns is_live now id outcome at live s).children ≡ s.children
unfolding exited on_cascade_progress check_intensity
exited-exceeded spawns is_live now id outcome at live s h =
    at_tests live.expected_shutdown (should_restart live.spec.restart outcome)
  where
    at_tests :
        (expected restarts : Bool)
        → (if expected
            then on_cascade_progress spawns id s
            else if restarts
            then restart_unless
                (check_intensity now s)
                spawns
                is_live
                live.spec
                at
                (later_of s.config.strategy at s.children.order)
            else s).children
          ≡ s.children
    at_tests true restarts = progress_with-exceeded spawns id s.cascade s h
    at_tests false false = refl
    at_tests false true = rw h refl

-- Once the intensity is exceeded, an exit only takes the child's row away: no child is started, not
-- even for a cascade that was waiting, whatever the exit and the strategy.
pub handle_exit-exceeded :
    (spawns : Spawns) (is_live : ℕ → Bool) (now id : ℕ) (outcome : FlowOutcome) (s : Supervisor)
    → s.intensity_exceeded ≡ true
    → (handle_exit spawns is_live now id outcome s).children ≡ (remove_child id s.children).1
unfolding handle_exit
handle_exit-exceeded spawns is_live now id outcome s h = at_row (remove_child id s.children)
  where
    at_row :
        (r : Option LiveChild × ChildTable)
        → (exited_if spawns is_live now id outcome
            (position_from id 0 s.children.order)
            r
            s).children
          ≡ r.1
    at_row (none, t) = refl
    at_row (some live, t) =
        exited-exceeded spawns is_live now id outcome _ live (record s { children = t }) h
