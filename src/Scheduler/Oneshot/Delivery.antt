-- ===== src/Scheduler/Oneshot/Delivery.antt =====
-- A joiner is woken whenever there is an answer.
use bytecode_vm.Prelude.{
  ℕ, ◌≡◌, ◌≢◌, ◌⊎◌, ◌↔◌, ◌≤◌, ◌<◌, ◌+◌, leb, inl, inr, refl, ap, Bool, true, false, Option, none,
  some, if◌then◌else◌, arith,
}
use bytecode_vm.Prelude.Result.{Result, ok, err}
use bytecode_vm.Scheduler.Error.{RuntimeError, abandoned as abandoned_at, already_collected}
use bytecode_vm.Scheduler.Oneshot.{
  Slot, abandoned, taken, oneshot_name, JoinState, Sender, Joiner, waiting, returned, Channel,
  channel, collect, is_waiting, drop_sender, send, joined, tried, try_join, is_past, turn_with,
  turn, join_deadline, wait_forever, join_timeout,
}

-- What the two threads do. The joiner is in one call at a time: it starts a call, or takes another
-- turn when it wakes, notified or not. A call of `try_join` is made outside a wait.
pub data Step {A : Type 0} (c : Channel A) : Channel A → Type 0 where
  sends : (value : A) (sender : Sender) → c.sender ≡ some sender → Step c (send value sender c)
  drops : (sender : Sender) → c.sender ≡ some sender → Step c (drop_sender sender c)
  polls : is_waiting c.joiner ≡ false → Step c (try_join c).1
  joins :
      (deadline : Option ℕ) (now : ℕ) → is_waiting c.joiner ≡ false → Step c (turn deadline now c)
  wakes :
      (deadline : Option ℕ) (now : ℕ) → c.joiner ≡ waiting deadline → Step c (turn deadline now c)

pub data Reaches {A : Type 0} (c : Channel A) : Channel A → Type 0 where
  here : Reaches c c
  then_step : {d e : Channel A} → Reaches c d → Step d e → Reaches c e

-- The sender is there exactly while the slot is pending; and a joiner that sleeps with no
-- notification for it sleeps on a pending slot.
pub record IsSound {A : Type 0} (c : Channel A) : Type 0 where
  pub unsent :
      (sender : Sender) → c.sender ≡ some sender → (c.slot ≡ Slot.pending) × (sender.sent ≡ false)
  pub gone : c.sender ≡ none → c.slot ≢ Slot.pending
  pub asleep : is_waiting c.joiner ≡ true → c.woken ≡ false → c.slot ≡ Slot.pending

sent_of : (sender : Sender) → some (record { sent = false }) ≡ some sender → sender.sent ≡ false
sent_of sender h = cc

-- Whether the deadline, if there is one, is still to come, and whether it is reached.
abbrev pub IsAhead : Option ℕ → ℕ → Type 0
IsAhead deadline now = (d : ℕ) → deadline ≡ some d → now < d

abbrev pub IsReached : Option ℕ → ℕ → Type 0
IsReached deadline now = (d : ℕ) × (deadline ≡ some d) × (d ≤ now)

past-cases :
    (deadline : Option ℕ) (now : ℕ)
    → ((is_past deadline now ≡ false) × IsAhead deadline now)
      ⊎ ((is_past deadline now ≡ true) × IsReached deadline now)
past-cases none now = inl (refl, λ d e. cc)
past-cases (some d) now = at_test (leb d now) refl
  where
    at_test :
        (b : Bool)
        → leb d now ≡ b
        → ((leb d now ≡ false) × IsAhead (some d) now)
          ⊎ ((leb d now ≡ true) × IsReached (some d) now)
    at_test true e = inr (e, (d, refl, ground (arith, e)))
    at_test false e = inl (e, λ d' same. let x : d ≡ d' = cc same in ground (arith, e, x))

module _ {A : Type 0} where
  channel-IsSound : IsSound (channel {A = A})
  unfolding channel
  channel-IsSound = record {
    unsent = λ sender h. (refl, sent_of sender h);
    gone = λ h. cc;
    asleep = λ h k. refl;
  }

  send-IsSound : (c : Channel A) (value : A) (sender : Sender) → IsSound (send value sender c)
  unfolding send drop_sender
  send-IsSound c value sender = record {
    unsent = λ other h. cc;
    gone = λ h e. cc;
    asleep = λ h k. ground (arith, h, k);
  }

  drop_sender-IsSound :
      (c : Channel A) (sender : Sender)
      → c.sender ≡ some sender
      → IsSound c
      → IsSound (drop_sender sender c)
  unfolding drop_sender
  drop_sender-IsSound c sender h s =
      let (empty, no_send) = s.unsent sender h in
      rw (no_send, empty)
        (record { unsent = λ other h. cc; gone = λ h e. cc; asleep = λ h k. ground (arith, h, k) })

  -- A full slot gives an answer, and stays full.
  answered :
      (c : Channel A) (slot : Slot A) (joiner : Joiner A) (woken : Bool)
      → IsSound c
      → c.slot ≢ Slot.pending
      → slot ≢ Slot.pending
      → is_waiting joiner ≡ false
      → IsSound (record c { slot = slot; joiner = joiner; woken = woken })
  answered c slot joiner woken s full stays_full awake = record {
    unsent = λ other h. absurd (full (s.unsent other h).0);
    gone = λ h. stays_full;
    asleep = λ h k. cc (h, awake);
  }

  try_join-IsSound :
      (c : Channel A) → is_waiting c.joiner ≡ false → IsSound c → IsSound (try_join c).1
  unfolding try_join collect
  try_join-IsSound c awake s = at_slot c.slot refl
    where
      at_slot : (slot : Slot A) → c.slot ≡ slot → IsSound (tried c (collect slot)).1
      at_slot Slot.pending e = record {
        unsent = λ other h. (refl, (s.unsent other h).1);
        gone = λ h k. s.gone h e;
        asleep = λ h k. refl;
      }
      at_slot (Slot.ready v) e = answered c taken c.joiner c.woken s (λ k. cc) (λ k. cc) awake
      at_slot abandoned e = answered c abandoned c.joiner c.woken s (λ k. cc) (λ k. cc) awake
      at_slot taken e = answered c taken c.joiner c.woken s (λ k. cc) (λ k. cc) awake

  turn-IsSound :
      (deadline : Option ℕ) (now : ℕ) (c : Channel A) → IsSound c → IsSound (turn deadline now c)
  unfolding turn collect
  turn-IsSound deadline now c s = at_slot c.slot refl
    where
      at_slot : (slot : Slot A) → c.slot ≡ slot → IsSound (turn_with deadline now c (collect slot))
      at_slot Slot.pending e = record {
        unsent = λ other h. (refl, (s.unsent other h).1);
        gone = λ h k. s.gone h e;
        asleep = λ h k. refl;
      }
      at_slot (Slot.ready v) e = answered c taken _ false s (λ k. cc) (λ k. cc) refl
      at_slot abandoned e = answered c abandoned _ false s (λ k. cc) (λ k. cc) refl
      at_slot taken e = answered c taken _ false s (λ k. cc) (λ k. cc) refl

  Step-IsSound : (c d : Channel A) → IsSound c → Step c d → IsSound d
  Step-IsSound c _ s (sends value sender h) = send-IsSound c value sender
  Step-IsSound c _ s (drops sender h) = drop_sender-IsSound c sender h s
  Step-IsSound c _ s (polls awake) = try_join-IsSound c awake s
  Step-IsSound c _ s (joins deadline now awake) = turn-IsSound deadline now c s
  Step-IsSound c _ s (wakes deadline now asleep) = turn-IsSound deadline now c s

  Reaches-IsSound : (c d : Channel A) → IsSound c → Reaches c d → IsSound d
  Reaches-IsSound c _ s here = s
  Reaches-IsSound c _ s (then_step {d} r step) = Step-IsSound d _ (Reaches-IsSound c d s r) step

  -- A turn on a pending slot waits on until the deadline; any other turn returns, never with
  -- `Pending`.
  turn-pending :
      (deadline : Option ℕ) (now : ℕ) (c : Channel A)
      → c.slot ≡ Slot.pending
      → (turn deadline now c).joiner
        ≡ (if is_past deadline now then returned (ok JoinState.pending) else waiting deadline)
  unfolding turn collect
  turn-pending deadline now c h = rw h refl

  turn-full :
      (deadline : Option ℕ) (now : ℕ) (c : Channel A)
      → c.slot ≢ Slot.pending
      → (r : Result RuntimeError A) × ((turn deadline now c).joiner ≡ returned (joined r))
  unfolding turn collect
  turn-full deadline now c full = at_slot c.slot full
    where
      at_slot :
          (slot : Slot A)
          → slot ≢ Slot.pending
          → (r : Result RuntimeError A) × ((turn_with deadline now c (collect slot)).joiner
              ≡ returned (joined r))
      at_slot Slot.pending k = absurd (k refl)
      at_slot (Slot.ready v) k = (ok v, refl)
      at_slot abandoned k = (err (abandoned_at oneshot_name), refl)
      at_slot taken k = (err (already_collected oneshot_name), refl)

  -- In every state that the sender and the joiner reach: once the sender is dropped, whether it
  -- sent or not, a joiner that is asleep has been notified, and its next turn returns, at whatever
  -- time and with or without a deadline, with the outcome or an error and never with `Pending`.
  pub joiner_wakes :
      (c : Channel A) (deadline : Option ℕ) (now : ℕ)
      → Reaches (channel {A = A}) c
      → c.sender ≡ none
      → c.joiner ≡ waiting deadline
      → (c.woken ≡ true)
        × (r : Result RuntimeError A) × ((turn deadline now c).joiner ≡ returned (joined r))
  joiner_wakes c deadline now reached gone asleep =
      let s = Reaches-IsSound channel c channel-IsSound reached in
      let (r, back) = turn-full deadline now c (s.gone gone) in (notified c.woken refl, r, back)
    where
      notified : (b : Bool) → c.woken ≡ b → b ≡ true
      notified true e = refl
      notified false e =
          let s = Reaches-IsSound channel c channel-IsSound reached in
          absurd (s.gone gone (s.asleep (ap is_waiting asleep) e))

  -- Which slot, at which time, leaves the joiner with which answer.
  abbrev pub Answers : Slot A → Option ℕ → ℕ → Joiner A → Type 0
  Answers slot deadline now joiner =
      ((joiner ≡ waiting deadline) ↔ ((slot ≡ Slot.pending) × IsAhead deadline now))
      × ((joiner ≡ returned (ok JoinState.pending))
          ↔ ((slot ≡ Slot.pending) × IsReached deadline now))
      × ((value : A) → (joiner ≡ returned (ok (JoinState.ready value))) ↔ (slot ≡ Slot.ready value))
      × ((e : RuntimeError)
          → (joiner ≡ returned (err e)) ↔ (
              ((slot ≡ abandoned) × (e ≡ abandoned_at oneshot_name))
              ⊎ ((slot ≡ taken) × (e ≡ already_collected oneshot_name))))

  no_error :
      (slot : Slot A) (e : RuntimeError)
      → slot ≢ abandoned
      → slot ≢ taken
      → ((slot ≡ abandoned) × (e ≡ abandoned_at oneshot_name))
        ⊎ ((slot ≡ taken) × (e ≡ already_collected oneshot_name))
      → ⊥
  no_error slot e h k (inl (same, _)) = h same
  no_error slot e h k (inr (same, _)) = k same

  pending-Answers :
      (deadline : Option ℕ) (now : ℕ)
      → Answers Slot.pending deadline now
          (if is_past deadline now then returned (ok JoinState.pending) else waiting deadline)
  pending-Answers deadline now = elim (past-cases deadline now) [
    | inl (e, ahead) ↦ rw e (
      (λ h. (refl, ahead), λ h. refl),
      (λ h. cc, λ (_, (d, same, le)). absurd (let lt = ahead d same in omega (arith, le, lt))),
      λ value. (λ h. cc, λ h. cc),
      λ x. (λ h. cc, λ h. absurd (no_error Slot.pending x (λ k. cc) (λ k. cc) h)),
    )
    | inr (e, (d, same, le)) ↦ rw e (
      (λ h. cc, λ (_, ahead). absurd (let lt = ahead d same in omega (arith, le, lt))),
      (λ h. (refl, (d, same, le)), λ h. refl),
      λ value. (λ h. cc, λ h. cc),
      λ x. (λ h. cc, λ h. absurd (no_error Slot.pending x (λ k. cc) (λ k. cc) h)),
    )
  ]

  turn-Answers :
      (deadline : Option ℕ) (now : ℕ) (c : Channel A)
      → Answers c.slot deadline now (turn deadline now c).joiner
  unfolding turn collect
  turn-Answers deadline now c = at_slot c.slot
    where
      at_slot :
          (slot : Slot A)
          → Answers slot deadline now (turn_with deadline now c (collect slot)).joiner
      at_slot Slot.pending = pending-Answers deadline now
      at_slot (Slot.ready v) = (
        (λ h. cc, λ h. cc),
        (λ h. cc, λ h. cc),
        λ value. (λ h. cc, λ h. cc),
        λ x. (λ h. cc, λ h. absurd (no_error (Slot.ready v) x (λ k. cc) (λ k. cc) h)),
      )
      at_slot abandoned = (
        (λ h. cc, λ h. cc),
        (λ h. cc, λ h. cc),
        λ value. (λ h. cc, λ h. cc),
        λ x. (λ h. inl (refl, cc h), λ h. elim h [ inl (_, same) ↦ cc same | inr (k, _) ↦ cc k ]),
      )
      at_slot taken = (
        (λ h. cc, λ h. cc),
        (λ h. cc, λ h. cc),
        λ value. (λ h. cc, λ h. cc),
        λ x. (λ h. inr (refl, cc h), λ h. elim h [ inl (k, _) ↦ cc k | inr (_, same) ↦ cc same ]),
      )

  -- A turn leaves the joiner asleep exactly when the slot is pending and no deadline is at or
  -- before now; it returns `Pending` exactly when the slot is pending and the deadline is, a value
  -- exactly when the slot holds that value, and an error exactly when the slot is abandoned or
  -- taken, that error. A call with a timeout returns `Pending` at once exactly when the slot is
  -- pending and the start plus the timeout is in the clock's range and not after now.
  pub turn-returns :
      (deadline : Option ℕ) (clock_range start timeout now : ℕ) (c : Channel A)
      → Answers c.slot deadline now (turn deadline now c).joiner
        × (((join_timeout clock_range start now timeout c).joiner ≡ returned (ok JoinState.pending))
            ↔ ((c.slot ≡ Slot.pending) × (start + timeout ≤ clock_range) × (start + timeout ≤ now)))
  unfolding join_timeout join_deadline wait_forever
  turn-returns deadline clock_range start timeout now c =
      (turn-Answers deadline now c, at_range (leb (start + timeout) clock_range) refl)
    where
      at_range :
          (b : Bool)
          → leb (start + timeout) clock_range ≡ b
          → ((if b then join_deadline (start + timeout) now c else wait_forever now c).joiner
              ≡ returned (ok JoinState.pending))
            ↔ ((c.slot ≡ Slot.pending) × (start + timeout ≤ clock_range) × (start + timeout ≤ now))
      at_range true e =
          let (_, on_time, _, _) = turn-Answers (some (start + timeout)) now c in
          (
            λ h.
                let (empty, (d, same, le)) = on_time.0 h in
                let x : start + timeout ≡ d = cc same in
                (empty, ground (arith, e), omega (arith, le, x)),
            λ (empty, _, le). on_time.1 (empty, (start + timeout, refl, le)),
          )
      at_range false e =
          let (_, on_time, _, _) = turn-Answers none now c in
          (
            λ h. let (empty, (d, same, le)) = on_time.0 h in cc same,
            λ (_, le, _). absurd (ground (arith, e, le)),
          )
