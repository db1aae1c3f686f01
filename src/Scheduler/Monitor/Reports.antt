-- ===== src/Scheduler/Monitor/Reports.antt =====
-- An exit fires each monitor of the flow once, in the order the monitors were made.
use bytecode_vm.Prelude.{
  ℕ, ◌<◌, ◌≡◌, ◌↔◌, ◌⊎◌, inl, inr, refl, sym, ◌∙◌, ap, subst, Bool, true, false, not, ◌==◌, ==_iff,
  ltb, none, some, List, [], ◌∷◌, if◌then◌else◌, arith, All,
}
use bytecode_vm.Prelude.Maps.{nat_key, get, HasDistinctKeys}
use bytecode_vm.Scheduler.Monitor.{
  FlowExitReason, DownEvent, MonitorEntry, MonitorTable, not_watching, event_of, fired, place,
  sort_by_monitor,
}

abbrev pub Contains : DownEvent → List DownEvent → Type 0
Contains e [] = ⊥
Contains e (f ∷ events) = (f ≡ e) ⊎ Contains e events

-- In the order of the monitors' numbers, each number once.
abbrev pub IsOrdered : List DownEvent → Type 0
IsOrdered [] = Unit {0}
IsOrdered (e ∷ events) = All (λ (f : DownEvent). e.monitor < f.monitor) events × IsOrdered events

-- The events that an exit must fire.
abbrev pub IsDue : FlowExitReason → ℕ → MonitorTable → DownEvent → Type 0
IsDue reason target t e =
    (entry : MonitorEntry) × (get e.monitor t ≡ some entry)
    × (entry.target ≡ target)
    × (e ≡ event_of reason e.monitor entry)

place-Contains :
    (e f : DownEvent) (events : List DownEvent)
    → Contains e (place f events) ↔ Contains e (f ∷ events)
unfolding place
place-Contains e f [] = (λ h. h, λ h. h)
place-Contains e f (g ∷ events) = at_test (ltb g.monitor f.monitor) (place-Contains e f events)
  where
    at_test :
        (b : Bool)
        → Contains e (place f events) ↔ Contains e (f ∷ events)
        → Contains e (if b then g ∷ place f events else f ∷ g ∷ events)
          ↔ Contains e (f ∷ g ∷ events)
    at_test false ih = (λ h. h, λ h. h)
    at_test true ih = (
      λ h. elim h [
        | inl same ↦ inr (inl same)
        | inr rest ↦ elim (ih.0 rest) [ inl new ↦ inl new | inr old ↦ inr (inr old) ]
      ],
      λ h. elim h [
        | inl new ↦ inr (ih.1 (inl new))
        | inr rest ↦ elim rest [ inl same ↦ inl same | inr old ↦ inr (ih.1 (inr old)) ]
      ],
    )

pub sort-Contains :
    (e : DownEvent) (events : List DownEvent)
    → Contains e (sort_by_monitor events) ↔ Contains e events
unfolding sort_by_monitor
sort-Contains e [] = (λ h. h, λ h. h)
sort-Contains e (f ∷ events) =
    let placed = place-Contains e f (sort_by_monitor events) in
    let ih = sort-Contains e events in
    (
      λ h. elim (placed.0 h) [ inl new ↦ inl new | inr old ↦ inr (ih.0 old) ],
      λ h. placed.1 (elim h [ inl new ↦ inl new | inr old ↦ inr (ih.1 old) ]),
    )

module _ (reason : FlowExitReason) (target m : ℕ) (entry : MonitorEntry) (t : MonitorTable) where
  -- Where the event of a table with one more entry comes from.
  IsDue-old :
      (e : DownEvent)
      → get m t ≡ none
      → IsDue reason target t e
      → IsDue reason target ((m, entry) ∷ t) e
  unfolding get
  IsDue-old e new (en, found, watched, same) =
      (en, ground (arith, new, found, ==_iff m e.monitor), watched, same)

  IsDue-new :
      entry.target ≡ target
      → IsDue reason target ((m, entry) ∷ t) (record (event_of reason m entry) { target = target })
  unfolding get
  IsDue-new watched = (
    entry,
    ground arith,
    watched,
    ap (λ k. record (event_of reason m entry) { target = k }) (sym watched),
  )

  IsDue-cases :
      (e : DownEvent)
      → IsDue reason target ((m, entry) ∷ t) e
      → ((entry.target ≡ target) × (record (event_of reason m entry) { target = target } ≡ e))
        ⊎ IsDue reason target t e
  unfolding get
  IsDue-cases e (en, found, watched, same) = at_key (m == e.monitor) refl found
    where
      at_key :
          (b : Bool)
          → m == e.monitor ≡ b
          → (if b then some entry else get e.monitor t) ≡ some en
          → ((entry.target ≡ target) × (record (event_of reason m entry) { target = target } ≡ e))
            ⊎ IsDue reason target t e
      at_key true k f =
          let one : entry ≡ en = cc in
          let key : m ≡ e.monitor = (==_iff m e.monitor).0 k in
          let hit : entry.target ≡ target = ap (λ (x : MonitorEntry). x.target) one ∙ watched in
          inl (
            hit,
            ap (λ k'. record (event_of reason m entry) { target = k' }) (sym hit)
                ∙ ap (λ x. event_of reason x entry) key
                ∙ ap (event_of reason e.monitor) one
                ∙ sym same,
          )
      at_key false k f = inr (en, f, watched, same)

pub fired-Contains :
    (reason : FlowExitReason) (target : ℕ) (t : MonitorTable) (e : DownEvent)
    → HasDistinctKeys t
    → Contains e (fired target reason t) ↔ IsDue reason target t e
unfolding fired not_watching get HasDistinctKeys
fired-Contains reason target [] e d = (λ h. elim h [ ], λ (entry, h, _, _). cc h)
fired-Contains reason target ((m, entry) ∷ t) e (new, d) =
    at_test (entry.target == target) refl (fired-Contains reason target t e d)
  where
    at_test :
        (b : Bool)
        → entry.target == target ≡ b
        → Contains e (fired target reason t) ↔ IsDue reason target t e
        → Contains e (
            if not b
            then fired target reason t
            else (record (event_of reason m entry) { target = target }) ∷ fired target reason t)
          ↔ IsDue reason target ((m, entry) ∷ t) e
    at_test true k ih = (
      λ h. elim h [
        | inl here ↦
            subst (IsDue reason target ((m, entry) ∷ t)) here
              (IsDue-new reason target m entry t ((==_iff entry.target target).0 k))
        | inr old ↦ IsDue-old reason target m entry t e new (ih.0 old)
      ],
      λ h. elim (IsDue-cases reason target m entry t e h) [
        | inl (_, here) ↦ inl here
        | inr old ↦ inr (ih.1 old)
      ],
    )
    at_test false k ih = (
      λ h. IsDue-old reason target m entry t e new (ih.0 h),
      λ h. elim (IsDue-cases reason target m entry t e h) [
        | inl (hit, _) ↦ cc (k, (==_iff entry.target target).1 hit)
        | inr old ↦ ih.1 old
      ],
    )
