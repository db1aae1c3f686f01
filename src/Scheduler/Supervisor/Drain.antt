-- ===== src/Scheduler/Supervisor/Drain.antt =====
-- The siblings of a failed child go down one after another, and the last of them starts the group.
use bytecode_vm.Prelude.{
  ℕ, ◌≡◌, ◌≢◌, refl, subst, sym, ◌∙◌, ap, Bool, true, false, not, ◌&&◌, ◌||◌, ◌==◌, ==_iff, none,
  some, List, [], ◌∷◌, ◌++◌, append-nil, arith, if◌then◌else◌, is_empty,
}
use bytecode_vm.Prelude.Maps.{nat_key, get, get-remove}
use bytecode_vm.Scheduler.Supervisor.{
  ChildSpec, FlowOutcome, LiveChild, Supervisor, Spawns, without, remove_child, finish_if,
  finish_with, finish_cascade, progress_with, on_cascade_progress, exited, exited_if, position_from,
  handle_exit,
}
use bytecode_vm.Scheduler.Supervisor.Starts.{new_ids, AreStarted, AreNew, spawn_all-HasStarted}

unfoldable pub is_in : ℕ → List ℕ → Bool
is_in x [] = false
is_in x (y ∷ ys) = x == y || is_in x ys

unfoldable pub AreDistinct : List ℕ → Type 0
AreDistinct [] = Unit {0}
AreDistinct (x ∷ xs) = (is_in x xs ≡ false) × AreDistinct xs

-- A child that was told to go down.
abbrev pub IsMarked : List (ℕ × LiveChild) → ℕ → Type 0
IsMarked by_id x =
    (child : LiveChild) × (get x by_id ≡ some child) × (child.expected_shutdown ≡ true)

-- Exits of several children, one after another, at any times and with any outcomes.
unfoldable pub all_exit :
    Spawns → (ℕ → Bool) → (ℕ → ℕ) → (ℕ → FlowOutcome) → List ℕ → Supervisor → Supervisor
unfolding handle_exit
all_exit spawns is_live time_of outcome_of [] s = s
all_exit spawns is_live time_of outcome_of (id ∷ ids) s =
    all_exit spawns is_live time_of outcome_of ids
      (handle_exit spawns is_live (time_of id) id (outcome_of id) s)

-- A group that came back: the children that stayed, then the new ones, each with a row.
pub record HasRestarted (new : ℕ → ℕ) (specs : List ChildSpec) (kept kills : List ℕ)
    (s : Supervisor) : Type 0 where
  pub has_order : s.children.order ≡ kept ++ new_ids new specs
  pub are_started : AreStarted new specs s.children.by_id
  pub no_cascade : s.cascade ≡ none
  pub has_kills : s.kill_requests ≡ kills

-- A supervisor that waits for the flows `w` of its order, those that are still to go down.
pub record Waits (specs : List ChildSpec) (kept kills w down : List ℕ) (s : Supervisor)
    : Type 0 where
  pub has_cascade : s.cascade ≡ some (record { waiting = w; specs = specs })
  pub has_order : s.children.order ≡ kept ++ w
  pub same_flows : (x : ℕ) → is_in x w ≡ is_in x down
  pub are_apart : (x : ℕ) → is_in x down ≡ true → is_in x kept ≡ false
  pub are_marked : (x : ℕ) → is_in x down ≡ true → IsMarked s.children.by_id x
  pub not_exceeded : s.intensity_exceeded ≡ false
  pub has_kills : s.kill_requests ≡ kills

is_in-without : (x d : ℕ) (w : List ℕ) → is_in x (without d w) ≡ (is_in x w && not (x == d))
unfolding is_in without
is_in-without x d [] = refl
is_in-without x d (y ∷ w) = ground (arith, is_in-without x d w, ==_iff y d, ==_iff x y, ==_iff x d)

without-append :
    (d : ℕ) (kept w : List ℕ) → is_in d kept ≡ false → without d (kept ++ w) ≡ kept ++ without d w
unfolding is_in without
without-append d [] w h = refl
without-append d (y ∷ kept) w h = ground (arith, without-append d kept w, ==_iff y d, ==_iff d y, h)

pub nobody : (w : List ℕ) → ((x : ℕ) → is_in x w ≡ false) → w ≡ []
unfolding is_in
nobody [] h = refl
nobody (y ∷ w) h = absurd (let e = h y in ground (arith, e))

pub somebody : (d : ℕ) (w : List ℕ) → is_in d w ≡ true → is_empty w ≡ false
unfolding is_in
somebody d [] h = cc
somebody d (y ∷ w) h = refl

pub first_in : (d : ℕ) (ds : List ℕ) → is_in d (d ∷ ds) ≡ true
unfolding is_in
first_in d ds = ground arith

pub if_true {ℓ} : {A : Type ℓ} (b : Bool) (x y : A) → b ≡ true → (if b then x else y) ≡ x
if_true b x y h = rw h refl

-- After the exit of one of them.
abbrev after_exit : ℕ → List ChildSpec → List ℕ → Supervisor → Supervisor
after_exit d specs w s = record s {
  children = (remove_child d s.children).1;
  cascade = some (record { waiting = without d w; specs = specs });
}

exit_step :
    (spawns : Spawns) (is_live : ℕ → Bool) (now d : ℕ) (outcome : FlowOutcome)
    (specs : List ChildSpec) (w : List ℕ) (s : Supervisor)
    → IsMarked s.children.by_id d
    → s.cascade ≡ some (record { waiting = w; specs = specs })
    → handle_exit spawns is_live now d outcome s
      ≡ finish_if (is_empty (without d w)) spawns (after_exit d specs w s)
unfolding handle_exit remove_child exited on_cascade_progress
exit_step spawns is_live now d outcome specs w s (child, row, marked) waits =
    let t = (remove_child d s.children).1 in
    let at = position_from d 0 s.children.order in
    ap (λ o. exited_if spawns is_live now d outcome at (o, t) s) row
    ∙ if_true child.expected_shutdown _ _ marked
    ∙ ap (λ c. progress_with spawns d c (record s { children = t })) waits

next-Waits :
    (specs : List ChildSpec) (kept kills w ds : List ℕ) (d : ℕ) (s : Supervisor)
    → is_in d ds ≡ false
    → Waits specs kept kills w (d ∷ ds) s
    → Waits specs kept kills (without d w) ds (after_exit d specs w s)
unfolding remove_child is_in
next-Waits specs kept kills w ds d s once u = record {
  has_cascade = refl;
  has_order = ap (without d) u.has_order ∙ without-append d kept w (u.are_apart d (first_in d ds));
  same_flows = λ x. at_key x (x == d) refl;
  are_apart = λ x h. u.are_apart x (ground (arith, h));
  are_marked = λ x h.
      let (child, row, marked) = u.are_marked x (ground (arith, h)) in
      let other : d ≢ x = λ e. cc (once, h, ap (λ y. is_in y ds) e) in
      (child, ground (arith, get-remove d x s.children.by_id, ==_iff d x, row, other), marked);
  not_exceeded = u.not_exceeded;
  has_kills = u.has_kills;
}
  where
    at_key : (x : ℕ) (b : Bool) → x == d ≡ b → is_in x (without d w) ≡ is_in x ds
    at_key x true e =
        is_in-without x d w
        ∙ ground (arith, e)
        ∙ sym (ap (λ y. is_in y ds) ((==_iff x d).0 e) ∙ once)
    at_key x false e = is_in-without x d w ∙ ground (arith, e, u.same_flows x)

module _ (spawns : Spawns) (new : ℕ → ℕ) (is_new : AreNew spawns new) where
  -- The last of them: the whole group is started.
  pub finish-HasRestarted :
      (specs : List ChildSpec) (kept kills w : List ℕ) (s : Supervisor)
      → s.cascade ≡ some (record { waiting = w; specs = specs })
      → s.children.order ≡ kept ++ []
      → s.intensity_exceeded ≡ false
      → s.kill_requests ≡ kills
      → HasRestarted new specs kept kills (finish_cascade spawns s)
  unfolding finish_cascade
  finish-HasRestarted specs kept kills w s waits order within has_kills =
      let r = spawn_all-HasStarted spawns new specs (record s { cascade = none }) is_new within in
      subst (HasRestarted new specs kept kills) (sym (ap (λ c. finish_with spawns c s) waits))
        (record {
          has_order = r.has_order ∙ ap (λ xs. xs ++ new_ids new specs) (order ∙ append-nil kept);
          are_started = r.are_started;
          no_cascade = r.keeps_cascade;
          has_kills = r.keeps_kills ∙ has_kills;
        })

  -- Whatever the order in which they go down.
  pub drain-HasRestarted :
      (is_live : ℕ → Bool) (time_of : ℕ → ℕ) (outcome_of : ℕ → FlowOutcome) (specs : List ChildSpec)
      (kept kills w : List ℕ) (d : ℕ) (ds : List ℕ) (s : Supervisor)
      → AreDistinct (d ∷ ds)
      → Waits specs kept kills w (d ∷ ds) s
      → HasRestarted new specs kept kills (all_exit spawns is_live time_of outcome_of (d ∷ ds) s)
  unfolding all_exit AreDistinct is_in
  drain-HasRestarted is_live time_of outcome_of specs kept kills w d [] s (once, _) u =
      let v = next-Waits specs kept kills w [] d s once u in
      let last : without d w ≡ [] = nobody (without d w) v.same_flows in
      let step =
        exit_step spawns is_live (time_of d) d (outcome_of d) specs w s
          (u.are_marked d (first_in d [])) u.has_cascade in
      subst (HasRestarted new specs kept kills)
        (sym (step ∙ ap (λ x. finish_if (is_empty x) spawns (after_exit d specs w s)) last))
        (finish-HasRestarted specs kept kills (without d w) (after_exit d specs w s) refl
          (v.has_order ∙ ap (λ x. kept ++ x) last) v.not_exceeded v.has_kills)
  drain-HasRestarted is_live time_of outcome_of specs kept kills w d (d' ∷ ds) s (once, distinct)
        u =
      let v = next-Waits specs kept kills w (d' ∷ ds) d s once u in
      let more : is_empty (without d w) ≡ false =
        somebody d' (without d w) (v.same_flows d' ∙ first_in d' ds) in
      let step =
        exit_step spawns is_live (time_of d) d (outcome_of d) specs w s
          (u.are_marked d (first_in d (d' ∷ ds))) u.has_cascade in
      subst
        (λ x.
          HasRestarted new specs kept kills
            (all_exit spawns is_live time_of outcome_of (d' ∷ ds) x))
        (sym (step ∙ ap (λ b. finish_if b spawns (after_exit d specs w s)) more))
        (drain-HasRestarted is_live time_of outcome_of specs kept kills (without d w) d' ds
          (after_exit d specs w s) distinct v)
