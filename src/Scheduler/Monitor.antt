-- ===== src/Scheduler/Monitor.antt =====
-- scheduler/monitor.rs: who is told when a flow exits. The number of a new monitor is drawn from a
-- counter of the process, and is an argument. `MonitorStore` is this table behind a lock; a poisoned
-- lock is not modelled.
pub mod Reports
pub mod Order
use bytecode_vm.Prelude.{
  ℕ, Bool, true, false, not, ◌==◌, ltb, Option, none, some, List, [], ◌∷◌, if◌then◌else◌,
}
use bytecode_vm.Prelude.Maps.{nat_key, get, insert, remove, retain}
use bytecode_vm.Prelude.Result.{Result, ok, err}
use bytecode_vm.Scheduler.Error.{LifecycleError, not_owner, invalid_monitor}

pub data FlowExitReason : Type 0 where
  normal shutdown killed fault mailbox_overflow supervisor link : FlowExitReason

unfoldable pub as_u64 : FlowExitReason → ℕ
as_u64 normal = 0
as_u64 shutdown = 1
as_u64 killed = 2
as_u64 fault = 3
as_u64 mailbox_overflow = 4
as_u64 supervisor = 5
as_u64 link = 6

unfoldable pub from_u64 : ℕ → Option FlowExitReason
from_u64 raw =
    if raw == 0
    then some normal
    else if raw == 1
    then some shutdown
    else if raw == 2
    then some killed
    else if raw == 3
    then some fault
    else if raw == 4
    then some mailbox_overflow
    else if raw == 5
    then some supervisor
    else if raw == 6
    then some link
    else none

unfoldable pub is_abnormal : FlowExitReason → Bool
is_abnormal normal = false
is_abnormal _ = true

pub record DownEvent : Type 0 where
  pub monitor : ℕ
  pub owner : ℕ
  pub target : ℕ
  pub reason : FlowExitReason

pub record MonitorEntry : Type 0 where
  pub owner : ℕ
  pub target : ℕ

abbrev pub MonitorTable : Type 0
MonitorTable = List (ℕ × MonitorEntry)

unfoldable pub create : ℕ → ℕ → ℕ → MonitorTable → ℕ × MonitorTable
create monitor owner target t =
    (monitor, insert monitor (record { owner = owner; target = target }) t)

abbrev pub remove_if_owned :
    ℕ → ℕ → Option MonitorEntry → MonitorTable → Result LifecycleError (Unit {0}) × MonitorTable
remove_if_owned owner monitor none t = (err invalid_monitor, t)
remove_if_owned owner monitor (some entry) t =
    if entry.owner == owner then (ok tt, remove monitor t) else (err not_owner, t)

unfoldable pub remove_owned : ℕ → ℕ → MonitorTable → Result LifecycleError (Unit {0}) × MonitorTable
remove_owned owner monitor t = remove_if_owned owner monitor (get monitor t) t

unfoldable pub not_owned_by : ℕ → ℕ → MonitorEntry → Bool
not_owned_by owner _ entry = not (entry.owner == owner)

unfoldable pub remove_owned_by : ℕ → MonitorTable → MonitorTable
unfolding not_owned_by
remove_owned_by owner t = retain (not_owned_by owner) t

unfoldable pub not_watching : ℕ → ℕ → MonitorEntry → Bool
not_watching target _ entry = not (entry.target == target)

abbrev pub event_of : FlowExitReason → ℕ → MonitorEntry → DownEvent
event_of reason monitor entry = record {
  monitor = monitor;
  owner = entry.owner;
  target = entry.target;
  reason = reason;
}

-- The events that `retain` pushes for the monitors that it drops.
unfoldable pub fired : ℕ → FlowExitReason → MonitorTable → List DownEvent
unfolding not_watching
fired target reason [] = []
fired target reason ((monitor, entry) ∷ t) =
    let rest = fired target reason t in
    if not_watching target monitor entry
    then rest
    else (record (event_of reason monitor entry) { target = target }) ∷ rest

-- `sort_unstable_by_key(|event| event.monitor.0)`, as an insertion sort.
unfoldable pub place : DownEvent → List DownEvent → List DownEvent
place e [] = e ∷ []
place e (f ∷ events) =
    let rest = place e events in if ltb f.monitor e.monitor then f ∷ rest else e ∷ f ∷ events

unfoldable pub sort_by_monitor : List DownEvent → List DownEvent
unfolding place
sort_by_monitor [] = []
sort_by_monitor (e ∷ events) = place e (sort_by_monitor events)

unfoldable pub notify_target_exit :
    ℕ → FlowExitReason → MonitorTable → List DownEvent × MonitorTable
unfolding fired not_watching sort_by_monitor
notify_target_exit target reason t =
    (sort_by_monitor (fired target reason t), retain (not_watching target) t)
