-- ===== src/Scheduler/Supervisor.antt =====
-- scheduler/supervisor.rs: which children are started again when one exits.
--
-- The drive thread handles one exit after another, and a step of the model is one exit, with no
-- `start_child` of the host in between. What the runtime answers is an argument: the outcome of
-- the first spawn of the step, the second and so on, and whether a flow is still in the directory.
-- The kills that were asked for are kept, oldest first. Times are numbers. Fewer than 2 ^ 32
-- restarts lie in the window; a poisoned lock is not modelled.
pub mod Intensity
pub mod Order
pub mod Starts
pub mod Drain
pub mod Cascades
pub mod Failure
pub mod Group
use bytecode_vm.Prelude.{
  ℕ, zero, suc, ◌+◌, ◌-◌, Bool, true, false, not, ◌||◌, ◌==◌, ltb, leb, Option, none, some, List,
  [], ◌∷◌, ◌++◌, length, drop, is_empty, if◌then◌else◌,
}
use bytecode_vm.Prelude.Maps.{nat_key, get, insert, remove}
use bytecode_vm.Bytecode.Value.{Value}

pub data RestartPolicy : Type 0 where
  always on_failure never : RestartPolicy

-- The text of a failure is its bytes.
pub data FlowOutcome : Type 0 where
  completed : Value → FlowOutcome
  failed : List ℕ → FlowOutcome

pub record ChildSpec : Type 0 where
  pub name : List ℕ
  pub function : ℕ
  pub args : List Value
  pub restart : RestartPolicy

unfoldable pub new_spec : List ℕ → ℕ → ChildSpec
new_spec name function = record {
  name = name;
  function = function;
  args = [];
  restart = on_failure;
}

pub data RestartStrategy : Type 0 where
  one_for_one one_for_all rest_for_one : RestartStrategy

pub record SupervisorConfig : Type 0 where
  pub max_restarts : ℕ
  pub max_period : ℕ
  pub strategy : RestartStrategy

pub record LiveChild : Type 0 where
  pub spec : ChildSpec
  pub expected_shutdown : Bool

pub record ChildTable : Type 0 where
  pub by_id : List (ℕ × LiveChild)
  pub order : List ℕ

unfoldable pub insert_child : ℕ → LiveChild → ChildTable → ChildTable
insert_child id child t = record { by_id = insert id child t.by_id; order = t.order ++ id ∷ [] }

-- `order.retain(|x| *x != id)`
unfoldable pub without : ℕ → List ℕ → List ℕ
without id [] = []
without id (x ∷ xs) = let rest = without id xs in if x == id then rest else x ∷ rest

unfoldable pub remove_child : ℕ → ChildTable → Option LiveChild × ChildTable
unfolding without
remove_child id t =
    (get id t.by_id, record { by_id = remove id t.by_id; order = without id t.order })

pub record Cascade : Type 0 where
  pub waiting : List ℕ
  pub specs : List ChildSpec

pub record Supervisor : Type 0 where
  pub config : SupervisorConfig
  pub children : ChildTable
  pub cascade : Option Cascade
  pub restart_times : List ℕ
  pub intensity_exceeded : Bool
  pub kill_requests : List ℕ

-- How a spawn ends: with a live child, with none, or with one whose name was taken.
pub data Spawned : Type 0 where
  running : ℕ → Spawned
  refused : Spawned
  unnamed : ℕ → Spawned

abbrev pub Spawns : Type 0
Spawns = ℕ → Spawned

unfoldable pub spawn_child : Spawned → ChildSpec → Supervisor → Supervisor
unfolding insert_child
spawn_child refused spec s = s
spawn_child (unnamed id) spec s = record s { kill_requests = s.kill_requests ++ id ∷ [] }
spawn_child (running id) spec s = record s {
  children = insert_child id (record { spec = spec; expected_shutdown = false }) s.children;
}

unfoldable pub should_restart : RestartPolicy → FlowOutcome → Bool
should_restart always outcome = true
should_restart on_failure (failed text) = true
should_restart on_failure (completed value) = false
should_restart never outcome = false

-- `checked_sub`, or now.
unfoldable pub window_start : ℕ → ℕ → ℕ
window_start now max_period = if leb max_period now then now - max_period else now

unfoldable pub drop_old : ℕ → List ℕ → List ℕ
drop_old from [] = []
drop_old from (t ∷ times) = let rest = drop_old from times in if ltb t from then rest else t ∷ times

unfoldable pub times_at : SupervisorConfig → ℕ → List ℕ → List ℕ
unfolding drop_old window_start
times_at config now times = drop_old (window_start now config.max_period) (times ++ now ∷ [])

unfoldable pub intensity_hit : ℕ → Supervisor → Bool × Supervisor
unfolding times_at
intensity_hit now s =
    let times = times_at s.config now s.restart_times in
    let hit = ltb s.config.max_restarts (length times) in
    (hit, record s { restart_times = times; intensity_exceeded = s.intensity_exceeded || hit })

-- The loop of `finish_cascade`.
unfoldable pub spawn_all : Spawns → List ChildSpec → Supervisor → Supervisor
unfolding spawn_child
spawn_all spawns [] s = s
spawn_all spawns (spec ∷ specs) s =
    let next = spawn_all (λ i. spawns (suc i)) specs (spawn_child (spawns 0) spec s) in
    if s.intensity_exceeded then s else next

abbrev pub finish_with : Spawns → Option Cascade → Supervisor → Supervisor
finish_with spawns none s = s
finish_with spawns (some c) s = spawn_all spawns c.specs (record s { cascade = none })

unfoldable pub finish_cascade : Spawns → Supervisor → Supervisor
unfolding spawn_all
finish_cascade spawns s = finish_with spawns s.cascade s

abbrev pub finish_if : Bool → Spawns → Supervisor → Supervisor
finish_if true spawns s = finish_cascade spawns s
finish_if false spawns s = s

abbrev pub progress_with : Spawns → ℕ → Option Cascade → Supervisor → Supervisor
progress_with spawns id none s = s
progress_with spawns id (some c) s =
    let waiting = without id c.waiting in
    finish_if (is_empty waiting) spawns
      (record s { cascade = some (record c { waiting = waiting }) })

unfoldable pub on_cascade_progress : Spawns → ℕ → Supervisor → Supervisor
unfolding finish_cascade without
on_cascade_progress spawns id s = progress_with spawns id s.cascade s

-- The specifications of the flows that have a row, in the order given.
abbrev pub push_spec : Option LiveChild → List ChildSpec → List ChildSpec
push_spec none specs = specs
push_spec (some child) specs = child.spec ∷ specs

unfoldable pub specs_of : List ℕ → List (ℕ × LiveChild) → List ChildSpec
specs_of [] by_id = []
specs_of (id ∷ ids) by_id = push_spec (get id by_id) (specs_of ids by_id)

-- `c.expected_shutdown = true` for each of them.
abbrev pub mark : ℕ → Option LiveChild → List (ℕ × LiveChild) → List (ℕ × LiveChild)
mark id none by_id = by_id
mark id (some child) by_id = insert id (record child { expected_shutdown = true }) by_id

unfoldable pub mark_all : List ℕ → List (ℕ × LiveChild) → List (ℕ × LiveChild)
mark_all [] by_id = by_id
mark_all (id ∷ ids) by_id = mark_all ids (mark id (get id by_id) by_id)

-- `specs.insert(index, failed)`. Past the end, which takes a flow of the start order that has no
-- row, the source panics; here it appends.
unfoldable pub insert_at : ℕ → ChildSpec → List ChildSpec → List ChildSpec
insert_at zero spec specs = spec ∷ specs
insert_at (suc i) spec [] = spec ∷ []
insert_at (suc i) spec (x ∷ specs) = x ∷ insert_at i spec specs

abbrev pub index_or : Option ℕ → ℕ → ℕ
index_or none n = n
index_or (some i) n = i

unfoldable pub cascade_specs :
    RestartStrategy → ChildSpec → Option ℕ → List ChildSpec → List ChildSpec
unfolding insert_at
cascade_specs one_for_all spec at later = insert_at (index_or at (length later)) spec later
cascade_specs rest_for_one spec at later = spec ∷ later
cascade_specs one_for_one spec at later = spec ∷ []

-- `waiting.retain(..)`, by the directory.
unfoldable pub still_live : (ℕ → Bool) → List ℕ → List ℕ
still_live is_live [] = []
still_live is_live (id ∷ ids) =
    let rest = still_live is_live ids in if is_live id then id ∷ rest else rest

-- Up to the kills: the cascade that now waits.
unfoldable pub open_cascade : (ℕ → Bool) → ChildSpec → Option ℕ → List ℕ → Supervisor → Supervisor
unfolding specs_of mark_all cascade_specs still_live
open_cascade is_live spec at later s =
    let specs = cascade_specs s.config.strategy spec at (specs_of later s.children.by_id) in
    record s {
      children = record s.children { by_id = mark_all later s.children.by_id };
      cascade = some (record { waiting = still_live is_live later; specs = specs });
      kill_requests = s.kill_requests ++ later;
    }

unfoldable pub start_cascade :
    Spawns → (ℕ → Bool) → ChildSpec → Option ℕ → List ℕ → Supervisor → Supervisor
unfolding open_cascade finish_cascade
start_cascade spawns is_live spec at later s =
    finish_if (is_empty (still_live is_live later) || is_empty later) spawns
      (open_cascade is_live spec at later s)

-- `order.iter().position(..)`
unfoldable pub position_from : ℕ → ℕ → List ℕ → Option ℕ
position_from id i [] = none
position_from id i (x ∷ xs) =
    let rest = position_from id (suc i) xs in if x == id then some i else rest

-- The siblings that go down, from the order without the child that exited.
unfoldable pub later_of : RestartStrategy → Option ℕ → List ℕ → List ℕ
later_of one_for_all at order = order
later_of rest_for_one (some i) order = drop i order
later_of rest_for_one none order = []
later_of one_for_one at order = []

abbrev pub respawn :
    RestartStrategy → Spawns → (ℕ → Bool) → ChildSpec → Option ℕ → List ℕ → Supervisor → Supervisor
respawn one_for_one spawns is_live spec at later s = spawn_child (spawns 0) spec s
respawn one_for_all spawns is_live spec at later s = start_cascade spawns is_live spec at later s
respawn rest_for_one spawns is_live spec at later s = start_cascade spawns is_live spec at later s

-- The restart, unless the intensity is exceeded, now or before.
abbrev pub restart_unless :
    Bool × Supervisor → Spawns → (ℕ → Bool) → ChildSpec → Option ℕ → List ℕ → Supervisor
restart_unless (true, s) spawns is_live spec at later = s
restart_unless (false, s) spawns is_live spec at later =
    respawn s.config.strategy spawns is_live spec at later s

-- `intensity_exceeded.load(..) || intensity_hit(..)`: the second is not called after the first.
unfoldable pub check_intensity : ℕ → Supervisor → Bool × Supervisor
unfolding intensity_hit
check_intensity now s = if s.intensity_exceeded then (true, s) else intensity_hit now s

-- Of a child that had a row, after its removal.
unfoldable pub exited :
    Spawns → (ℕ → Bool) → ℕ → ℕ → FlowOutcome → Option ℕ → LiveChild → Supervisor → Supervisor
unfolding on_cascade_progress should_restart check_intensity spawn_child start_cascade later_of
exited spawns is_live now id outcome at live s =
    if live.expected_shutdown
    then on_cascade_progress spawns id s
    else if should_restart live.spec.restart outcome
    then restart_unless (check_intensity now s) spawns is_live live.spec at
        (later_of s.config.strategy at s.children.order)
    else s

abbrev pub exited_if :
    Spawns
    → (ℕ → Bool)
    → ℕ
    → ℕ
    → FlowOutcome
    → Option ℕ
    → Option LiveChild × ChildTable
    → Supervisor
    → Supervisor
exited_if spawns is_live now id outcome at (none, t) s = record s { children = t }
exited_if spawns is_live now id outcome at (some live, t) s =
    exited spawns is_live now id outcome at live (record s { children = t })

unfoldable pub handle_exit : Spawns → (ℕ → Bool) → ℕ → ℕ → FlowOutcome → Supervisor → Supervisor
unfolding remove_child position_from exited
handle_exit spawns is_live now id outcome s =
    exited_if spawns is_live now id outcome (position_from id 0 s.children.order)
      (remove_child id s.children) s
