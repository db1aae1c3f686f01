-- ===== src/Scheduler/Monitor/Order.antt =====
-- The events of an exit are put in the order of the monitors, and the others keep watching.
use bytecode_vm.Prelude.{
  ℕ, ◌<◌, ◌≡◌, ◌≢◌, ◌↔◌, refl, Bool, true, false, ==_iff, ltb, ltb→lt, none, List, [], ◌∷◌,
  if◌then◌else◌, arith, All,
}
use bytecode_vm.Prelude.Maps.{nat_key, get, HasDistinctKeys, kept_if, retain_lem}
use bytecode_vm.Scheduler.Monitor.{
  FlowExitReason, DownEvent, MonitorTable, not_watching, event_of, fired, place, sort_by_monitor,
  notify_target_exit,
}
use bytecode_vm.Scheduler.Monitor.Reports.{
  Contains, IsOrdered, IsDue, sort-Contains, fired-Contains,
}

-- A number that no event of the list has.
abbrev IsNew : ℕ → List DownEvent → Type 0
IsNew m events = All (λ (f : DownEvent). m ≢ f.monitor) events

fired-IsNew :
    (reason : FlowExitReason) (target m : ℕ) (t : MonitorTable)
    → get m t ≡ none
    → IsNew m (fired target reason t)
unfolding fired get
fired-IsNew reason target m [] h = tt
fired-IsNew reason target m ((k, entry) ∷ t) h =
    let rest = fired-IsNew reason target m t (ground (arith, h)) in
    let other : m ≢ k = λ e. ground (arith, h, ==_iff k m, e) in
    elim (not_watching target k entry)
      as (λ b. IsNew m (
        if b
        then fired target reason t
        else (record (event_of reason k entry) { target = target }) ∷ fired target reason t)) [
          | true ↦ rest
          | false ↦ (other, rest)
        ]

All-place {κ} :
    (P : DownEvent → Type κ) (e : DownEvent) (events : List DownEvent)
    → P e
    → All P events
    → All P (place e events)
unfolding place
All-place P e [] h hs = (h, tt)
All-place P e (f ∷ events) h (hf, hs) =
    let rest = All-place P e events h hs in
    elim (ltb f.monitor e.monitor)
      as (λ b. All P (if b then f ∷ place e events else e ∷ f ∷ events)) [
        | true ↦ (hf, rest)
        | false ↦ (h, (hf, hs))
      ]

All-sort {κ} :
    (P : DownEvent → Type κ) (events : List DownEvent)
    → All P events
    → All P (sort_by_monitor events)
unfolding sort_by_monitor
All-sort P [] h = tt
All-sort P (e ∷ events) (h, hs) = All-place P e (sort_by_monitor events) h (All-sort P events hs)

below_all :
    (m k : ℕ) (events : List DownEvent)
    → m < k
    → All (λ (f : DownEvent). k < f.monitor) events
    → All (λ (f : DownEvent). m < f.monitor) events
below_all m k [] h hs = tt
below_all m k (f ∷ events) h (hf, hs) = (omega arith, below_all m k events h hs)

place-IsOrdered :
    (e : DownEvent) (events : List DownEvent)
    → IsNew e.monitor events
    → IsOrdered events
    → IsOrdered (place e events)
unfolding place
place-IsOrdered e [] h o = (tt, tt)
place-IsOrdered e (f ∷ events) (hf, h) (below, o) =
    at_test (ltb f.monitor e.monitor) refl (place-IsOrdered e events h o)
  where
    at_test :
        (b : Bool)
        → ltb f.monitor e.monitor ≡ b
        → IsOrdered (place e events)
        → IsOrdered (if b then f ∷ place e events else e ∷ f ∷ events)
    at_test true k ih = (
      All-place (λ (g : DownEvent). f.monitor < g.monitor) e events (ltb→lt f.monitor e.monitor k)
          below,
      ih,
    )
    at_test false k ih =
        let first : e.monitor < f.monitor = ground (arith, k, hf) in
        ((first, below_all e.monitor f.monitor events first below), (below, o))

fired-IsOrdered :
    (reason : FlowExitReason) (target : ℕ) (t : MonitorTable)
    → HasDistinctKeys t
    → IsOrdered (sort_by_monitor (fired target reason t))
unfolding fired HasDistinctKeys sort_by_monitor
fired-IsOrdered reason target [] d = tt
fired-IsOrdered reason target ((k, entry) ∷ t) (new, d) =
    let rest = fired-IsOrdered reason target t d in
    let event : DownEvent = record (event_of reason k entry) { target = target } in
    elim (not_watching target k entry)
      as (λ b.
        IsOrdered
          (sort_by_monitor (if b then fired target reason t else event ∷ fired target reason t))) [
            | true ↦ rest
            | false ↦
                place-IsOrdered event (sort_by_monitor (fired target reason t))
                  (All-sort (λ (f : DownEvent). k ≢ f.monitor) (fired target reason t)
                    (fired-IsNew reason target k t new))
                  rest
          ]

-- In a table of distinct monitors, the exit of a flow fires exactly the monitors that watch it,
-- each once, for its owner, with the reason given and in the order of their numbers; and of the
-- monitors it leaves exactly those that watch another flow.
pub notify_target_exit-Contains :
    (reason : FlowExitReason) (target : ℕ) (t : MonitorTable)
    → HasDistinctKeys t
    → ((e : DownEvent)
        → Contains e (notify_target_exit target reason t).0 ↔ IsDue reason target t e)
      × IsOrdered (notify_target_exit target reason t).0
      × ((m : ℕ)
          → get m (notify_target_exit target reason t).1
            ≡ kept_if (not_watching target) m (get m t))
unfolding notify_target_exit
notify_target_exit-Contains reason target t d = (
  λ e.
      let sorted = sort-Contains e (fired target reason t) in
      let due = fired-Contains reason target t e d in
      (λ h. due.0 (sorted.0 h), λ h. sorted.1 (due.1 h)),
  fired-IsOrdered reason target t d,
  λ m. retain_lem (not_watching target) m t d,
)
