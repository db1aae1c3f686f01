-- ===== src/Scheduler/CapTable/Grant.antt =====
-- What an insertion under a fresh token does to the table.
use bytecode_vm.Prelude.{
  ◌⊎◌, inl, inr, ◌⊎◌, subst, ℕ, zero, suc, if◌then◌else◌, ◌≡◌, ◌≢◌, refl, ap, Bool, true, false,
  ◌||◌, ◌==◌, Option, none, some, arith,
}
use bytecode_vm.Prelude.Maps.{nat_key, get, insert, contains_key}
use bytecode_vm.Prelude.Result.{Result, ok, err}
use bytecode_vm.Bytecode.Value.{cap_id_none}
use bytecode_vm.Bytecode.Cap.{Cap}
use bytecode_vm.Scheduler.Error.{RuntimeError}
use bytecode_vm.Scheduler.CapTable.{
  mint_attempts, Capability, CapTable, Draws, Entries, try_draw, insert_within, insert_fresh,
  inserted, grant,
}

-- A table with one entry more, under a token that is not the null token and was not in use.
pub record Grants (t t' : CapTable) (id : ℕ) (entry : Capability) : Type 0 where
  pub is_token : id ≢ cap_id_none
  pub is_fresh : get id t.entries ≡ none
  pub is_table : t' ≡ record t { entries = insert id entry t.entries }

-- The outcomes of an insertion: one entry more, or the table as it was.
pub data Granting (t : CapTable) (entry : Capability)
    : Result RuntimeError ℕ × CapTable → Type 0 where
  entered : (id : ℕ) (t' : CapTable) → Grants t t' id entry → Granting t entry (ok id, t')
  refused : (e : RuntimeError) → Granting t entry (err e, t)

free_token :
    (id : ℕ) (table : Entries)
    → id == cap_id_none || contains_key id table ≡ false
    → (id ≢ cap_id_none) × (get id table ≡ none)
free_token id table free = (λ e. ground (arith, free, e), ground (arith, free))

-- What a loop of draws gives where it succeeds.
abbrev Drawn : Capability → Entries → ℕ × Entries → Type 0
Drawn entry table (id, after) =
    (id ≢ cap_id_none) × (get id table ≡ none) × (after ≡ insert id entry table)

try_draw-eq-ok :
    (o : Option ℕ) (entry : Capability) (table : Entries) (v : ℕ × Entries)
    (further : Result RuntimeError (ℕ × Entries))
    → try_draw o entry table further ≡ ok v
    → (further ≡ ok v) ⊎ Drawn entry table v
try_draw-eq-ok none entry table v further h = cc
try_draw-eq-ok (some id) entry table v further h =
    tried (id == cap_id_none || contains_key id table) refl h
  where
    tried :
        (used : Bool)
        → id == cap_id_none || contains_key id table ≡ used
        → (if used then further else ok (id, insert id entry table)) ≡ ok v
        → (further ≡ ok v) ⊎ Drawn entry table v
    tried true e k = inl k
    tried false e k =
        let (token, fresh) = free_token id table e in
        inr (subst (Drawn entry table) (cc) (token, fresh, refl))

insert_within-eq-ok :
    (attempts : ℕ) (draws : Draws) (entry : Capability) (table : Entries) (v : ℕ × Entries)
    → insert_within attempts draws entry table ≡ ok v
    → Drawn entry table v
unfolding insert_within
insert_within-eq-ok zero draws entry table v h = cc
insert_within-eq-ok (suc n) draws entry table v h =
    let rest = λ (i : ℕ). draws (suc i) in
    elim (try_draw-eq-ok (draws 0) entry table v (insert_within n rest entry table) h) [
      | inl further ↦ insert_within-eq-ok n rest entry table v further
      | inr drawn ↦ drawn
    ]

grant_at :
    (t : CapTable) (entry : Capability) (r : Result RuntimeError (ℕ × Entries))
    → ((v : ℕ × Entries) → r ≡ ok v → Drawn entry t.entries v)
    → Granting t entry (inserted t r)
grant_at t entry (err e) h = refused e
grant_at t entry (ok (id, after)) h =
    let (token, fresh, e) = h (id, after) refl in
    entered id (record t { entries = after })
      (record {
        is_token = token;
        is_fresh = fresh;
        is_table = ap (λ x. record t { entries = x }) e;
      })

-- A grant enters the capability for its holder under one new token, or leaves the table as it is.
pub grant-Granting :
    (draws : Draws) (t : CapTable) (holder : ℕ) (cap : Cap)
    → Granting t (record { holder = holder; cap = cap }) (grant draws t holder cap)
unfolding grant insert_fresh
grant-Granting draws t holder cap =
    grant_at t _ _
      (insert_within-eq-ok mint_attempts draws (record { holder = holder; cap = cap }) t.entries)
