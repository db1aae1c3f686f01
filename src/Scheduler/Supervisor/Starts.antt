-- ===== src/Scheduler/Supervisor/Starts.antt =====
-- Starting a list of children: each one gets a row, at the end of the start order.
use bytecode_vm.Prelude.{
  ℕ, suc, ◌≡◌, ◌≢◌, refl, subst, sym, ◌∙◌, ap, Bool, false, ==_iff, some, List, [], ◌∷◌, ◌++◌,
  append-nil, arith, if◌then◌else◌,
}
use bytecode_vm.Prelude.Maps.{nat_key, get, insert, get-insert}
use bytecode_vm.Scheduler.Supervisor.{
  ChildSpec, LiveChild, Supervisor, Spawns, running, insert_child, spawn_child, spawn_all,
}

-- The flows of the children that are started, oldest first.
unfoldable pub new_ids : (ℕ → ℕ) → List ChildSpec → List ℕ
new_ids new [] = []
new_ids new (spec ∷ specs) = new 0 ∷ new_ids (λ i. new (suc i)) specs

-- Each of them has a row with its specification, and is not expected to go down.
abbrev pub AreStarted : (ℕ → ℕ) → List ChildSpec → List (ℕ × LiveChild) → Type 0
AreStarted new [] by_id = Unit {0}
AreStarted new (spec ∷ specs) by_id =
    (get (new 0) by_id ≡ some (record { spec = spec; expected_shutdown = false }))
    × AreStarted (λ i. new (suc i)) specs by_id

-- Every spawn succeeds, and no two flows have the same number.
pub record AreNew (spawns : Spawns) (new : ℕ → ℕ) : Type 0 where
  pub succeeds : (i : ℕ) → spawns i ≡ running (new i)
  pub distinct : (i j : ℕ) → i ≢ j → new i ≢ new j

AreNew-tail :
    (spawns : Spawns) (new : ℕ → ℕ)
    → AreNew spawns new
    → AreNew (λ i. spawns (suc i)) (λ i. new (suc i))
AreNew-tail spawns new n = record {
  succeeds = λ i. n.succeeds (suc i);
  distinct = λ i j h. n.distinct (suc i) (suc j) (λ e. h (omega (arith, e)));
}

-- What the loop leaves alone, and what it adds.
pub record HasStarted (new : ℕ → ℕ) (specs : List ChildSpec) (s v : Supervisor) : Type 0 where
  pub has_order : v.children.order ≡ s.children.order ++ new_ids new specs
  pub are_started : AreStarted new specs v.children.by_id
  pub keeps_rows :
      (k : ℕ) (child : LiveChild)
      → ((i : ℕ) → new i ≢ k)
      → get k s.children.by_id ≡ some child
      → get k v.children.by_id ≡ some child
  pub keeps_cascade : v.cascade ≡ s.cascade
  pub keeps_kills : v.kill_requests ≡ s.kill_requests

append_one : (xs : List ℕ) (x : ℕ) (ys : List ℕ) → (xs ++ x ∷ []) ++ ys ≡ xs ++ x ∷ ys
append_one [] x ys = refl
append_one (z ∷ xs) x ys = ap (λ zs. z ∷ zs) (append_one xs x ys)

get-insert_same :
    (k : ℕ) (child : LiveChild) (by_id : List (ℕ × LiveChild))
    → get k (insert k child by_id) ≡ some child
get-insert_same k child by_id = ground (arith, get-insert k k child by_id)

get-insert_other :
    (k j : ℕ) (child : LiveChild) (by_id : List (ℕ × LiveChild))
    → k ≢ j
    → get j (insert k child by_id) ≡ get j by_id
get-insert_other k j child by_id h = ground (arith, get-insert k j child by_id, ==_iff k j, h)

pub if_false {ℓ} : {A : Type ℓ} (b : Bool) (x y : A) → b ≡ false → (if b then x else y) ≡ y
if_false b x y h = rw h refl

-- One turn of the loop.
spawn_all-cons :
    (spawns : Spawns) (new : ℕ → ℕ) (spec : ChildSpec) (specs : List ChildSpec) (s : Supervisor)
    → spawns 0 ≡ running (new 0)
    → s.intensity_exceeded ≡ false
    → spawn_all spawns (spec ∷ specs) s
      ≡ spawn_all
          (λ i. spawns (suc i))
          specs
          (record s {
            children =
                insert_child (new 0) (record { spec = spec; expected_shutdown = false }) s.children;
          })
unfolding spawn_all spawn_child
spawn_all-cons spawns new spec specs s first h =
    if_false s.intensity_exceeded s
      (spawn_all (λ i. spawns (suc i)) specs (spawn_child (spawns 0) spec s)) h
    ∙ ap (λ x. spawn_all (λ i. spawns (suc i)) specs (spawn_child x spec s)) first

pub spawn_all-HasStarted :
    (spawns : Spawns) (new : ℕ → ℕ) (specs : List ChildSpec) (s : Supervisor)
    → AreNew spawns new
    → s.intensity_exceeded ≡ false
    → HasStarted new specs s (spawn_all spawns specs s)
unfolding spawn_all new_ids insert_child
spawn_all-HasStarted spawns new [] s n h = record {
  has_order = sym (append-nil s.children.order);
  are_started = tt;
  keeps_rows = λ k child other row. row;
  keeps_cascade = refl;
  keeps_kills = refl;
}
spawn_all-HasStarted spawns new (spec ∷ specs) s n h =
    let child : LiveChild = record { spec = spec; expected_shutdown = false } in
    let next : Supervisor = record s { children = insert_child (new 0) child s.children } in
    let r =
      spawn_all-HasStarted (λ i. spawns (suc i)) (λ i. new (suc i)) specs next
        (AreNew-tail spawns new n) h in
    subst (HasStarted new (spec ∷ specs) s)
      (sym (spawn_all-cons spawns new spec specs s (n.succeeds 0) h))
      (record {
        has_order = r.has_order ∙ append_one s.children.order (new 0) _;
        are_started = (
          r.keeps_rows (new 0) child (λ i. n.distinct (suc i) 0 (λ e. omega (arith, e)))
              (get-insert_same (new 0) child s.children.by_id),
          r.are_started,
        );
        keeps_rows = λ k c other row.
            r.keeps_rows k c (λ i. other (suc i))
              (get-insert_other (new 0) k child s.children.by_id (other 0) ∙ row);
        keeps_cascade = r.keeps_cascade;
        keeps_kills = r.keeps_kills;
      })
