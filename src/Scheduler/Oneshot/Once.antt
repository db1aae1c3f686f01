-- ===== src/Scheduler/Oneshot/Once.antt =====
-- An outcome that was sent reaches the joiner once.
use bytecode_vm.Prelude.{◌≡◌, ◌⊎◌, inl, inr, refl, none, List, [], ◌∷◌, ◌++◌}
use bytecode_vm.Prelude.Result.{Result, ok, err}
use bytecode_vm.Scheduler.Error.{RuntimeError, already_collected}
use bytecode_vm.Scheduler.Oneshot.{
  Slot, taken, oneshot_name, JoinState, Sender, Joiner, idle, waiting, returned, Channel, collect,
  drop_sender, send, try_join, turn,
}
use bytecode_vm.Scheduler.Oneshot.Delivery.{
  Step, sends, drops, polls, joins, wakes, Reaches, here, then_step,
}

module _ {A : Type 0} where
  -- The outcome in what a call returns, and in what the joiner has returned.
  abbrev pub given_by : Result RuntimeError (JoinState A) → List A
  given_by (ok (JoinState.ready value)) = value ∷ []
  given_by (ok JoinState.pending) = []
  given_by (err e) = []

  abbrev pub given_to : Joiner A → List A
  given_to idle = []
  given_to (waiting deadline) = []
  given_to (returned r) = given_by r

  -- The outcomes that the joiner's calls return, in one step and in a run, oldest first.
  unfoldable pub gains : {c d : Channel A} → Step c d → List A
  gains (sends value sender h) = []
  gains (drops sender h) = []
  gains {c} (polls awake) = given_by (try_join c).0
  gains {c} (joins deadline now awake) = given_to (turn deadline now c).joiner
  gains {c} (wakes deadline now asleep) = given_to (turn deadline now c).joiner

  unfoldable pub handed : {c d : Channel A} → Reaches c d → List A
  unfolding gains
  handed here = []
  handed (then_step run step) = handed run ++ gains step

  -- A step of the joiner, with no sender left, on a full slot and on a slot that was emptied.
  ready_step :
      (c d : Channel A) (value : A) (step : Step c d)
      → c.sender ≡ none
      → c.slot ≡ Slot.ready value
      → (gains step ≡ value ∷ []) × (d.slot ≡ taken) × (d.sender ≡ none)
  unfolding gains try_join turn collect
  ready_step c _ value (sends v sender h) gone full = cc
  ready_step c _ value (drops sender h) gone full = cc
  ready_step c _ value (polls awake) gone full = rw full (refl, refl, gone)
  ready_step c _ value (joins deadline now awake) gone full = rw full (refl, refl, gone)
  ready_step c _ value (wakes deadline now asleep) gone full = rw full (refl, refl, gone)

  taken_step :
      (c d : Channel A) (step : Step c d)
      → c.sender ≡ none
      → c.slot ≡ taken
      → (gains step ≡ []) × (d.slot ≡ taken) × (d.sender ≡ none)
  unfolding gains try_join turn collect
  taken_step c _ (sends v sender h) gone empty = cc
  taken_step c _ (drops sender h) gone empty = cc
  taken_step c _ (polls awake) gone empty = rw empty (refl, refl, gone)
  taken_step c _ (joins deadline now awake) gone empty = rw empty (refl, refl, gone)
  taken_step c _ (wakes deadline now asleep) gone empty = rw empty (refl, refl, gone)

  -- The outcomes handed over so far, and the slot that is left.
  abbrev Kept : A → Channel A → List A → Type 0
  Kept value d so_far =
      ((so_far ≡ []) × (d.slot ≡ Slot.ready value)) ⊎ ((so_far ≡ value ∷ []) × (d.slot ≡ taken))

  run-Kept :
      (c d : Channel A) (value : A) (run : Reaches c d)
      → c.sender ≡ none
      → c.slot ≡ Slot.ready value
      → (d.sender ≡ none) × Kept value d (handed run)
  unfolding handed
  run-Kept c _ value here gone full = (gone, inl (refl, full))
  run-Kept c _ value (then_step {d} {e} run step) gone full =
      let (gone', so_far) = run-Kept c d value run gone full in
      elim so_far [
        | inl (nothing, ready) ↦
            let (gain, now_taken, still_gone) = ready_step d e value step gone' ready in
            (still_gone, inr (rw (nothing, gain) refl, now_taken))
        | inr (one, was_taken) ↦
            let (gain, now_taken, still_gone) = taken_step d e step gone' was_taken in
            (still_gone, inr (rw (one, gain) refl, now_taken))
      ]

  send-sent :
      (c : Channel A) (value : A) (sender : Sender)
      → ((send value sender c).sender ≡ none) × ((send value sender c).slot ≡ Slot.ready value)
  unfolding send drop_sender
  send-sent c value sender = (refl, refl)

  -- In every run after a value was sent: either no call of the joiner has returned an outcome yet,
  -- and a poll now returns the value; or exactly one call of the run has returned an outcome, which
  -- is the value, and a poll now fails as already collected.
  pub send-collected_once :
      (c d : Channel A) (value : A) (sender : Sender) (run : Reaches (send value sender c) d)
      → ((handed run ≡ []) × ((try_join d).0 ≡ ok (JoinState.ready value)))
        ⊎ ((handed run ≡ value ∷ []) × ((try_join d).0 ≡ err (already_collected oneshot_name)))
  unfolding try_join collect
  send-collected_once c d value sender run =
      let (gone, full) = send-sent c value sender in
      elim (run-Kept (send value sender c) d value run gone full).1 [
        | inl (nothing, ready) ↦ inl (nothing, rw ready refl)
        | inr (one, now_taken) ↦ inr (one, rw now_taken refl)
      ]
