-- ===== src/Scheduler/CapTable/Confined.antt =====
-- No sequence of delegations gives a flow authority that no flow had.
use bytecode_vm.Prelude.{
  ℕ, ◌≡◌, refl, sym, ◌∙◌, subst, Bool, true, false, if◌then◌else◌, ◌==◌, Option, none, some, inl,
  inr, arith,
}
use bytecode_vm.Prelude.Maps.{
  nat_key, get, HasDistinctKeys, insert-cases, insert-HasDistinctKeys, retain-of,
  retain-HasDistinctKeys,
}
use bytecode_vm.Prelude.Result.{Result, ok, err, >>=-eq-ok}
use bytecode_vm.Bytecode.Value.{cap_id_none}
use bytecode_vm.Bytecode.Cap.{Cap, NativeMask, contains, attenuate as narrow}
use bytecode_vm.Bytecode.Cap.Attenuate.{contains_iff, contains-intersect, permits, attenuate_lem}
use bytecode_vm.Scheduler.Error.{RuntimeError}
use bytecode_vm.Scheduler.Delegate.{exec_delegate}
use bytecode_vm.Scheduler.CapTable.{
  Capability, CapError, CapTable, Draws, grant, resolve, narrowed, narrow_at, narrow_entry,
  flow_cell_of, grant_narrowed, attenuate, delegate_as, delegate, known, lookup, reissue,
  reissue_for, is_unrelated, revoke_flow,
}
use bytecode_vm.Scheduler.CapTable.Resolve.{Resolves, resolve-eq-ok}
use bytecode_vm.Scheduler.CapTable.Grant.{Granting, entered, refused, grant-Granting}

-- A capability that gives nothing which another does not give.
pub record Within (cap origin : Cap) : Type 0 where
  pub same_target : cap.target ≡ origin.target
  pub fewer_rights : contains origin.rights cap.rights ≡ true
  pub fewer_natives :
      (idx : ℕ) → permits cap.native_mask idx ≡ true → permits origin.native_mask idx ≡ true

Within-refl : (cap : Cap) → Within cap cap
Within-refl cap = record {
  same_target = refl;
  fewer_rights = (contains_iff cap.rights cap.rights).1 (λ i. omega arith);
  fewer_natives = λ idx h. h;
}

Within-trans : (a b c : Cap) → Within a b → Within b c → Within a c
Within-trans a b c p q = record {
  same_target = p.same_target ∙ q.same_target;
  fewer_rights = (contains_iff c.rights a.rights).1 (λ i. omega (
    arith,
    (contains_iff b.rights a.rights).0 p.fewer_rights i,
    (contains_iff c.rights b.rights).0 q.fewer_rights i,
  ));
  fewer_natives = λ idx h. q.fewer_natives idx (p.fewer_natives idx h);
}

narrow-Within :
    (cap : Cap) (want : ℕ) (native : Option NativeMask) → Within (narrow cap want native) cap
unfolding narrow
narrow-Within cap want native = record {
  same_target = refl;
  fewer_rights = contains-intersect cap.rights want;
  fewer_natives = λ idx h. ((attenuate_lem cap want native).3 idx h).0;
}

-- A capability that some entry of a table covers.
abbrev pub HasOrigin : CapTable → Cap → Type 0
HasOrigin t cap =
    (id : ℕ) × (origin : Capability) × (get id t.entries ≡ some origin) × Within cap origin.cap

pub record IsConfined (t u : CapTable) : Type 0 where
  pub is_covered :
      (id : ℕ) (entry : Capability) → get id u.entries ≡ some entry → HasOrigin t entry.cap
  pub is_distinct : HasDistinctKeys u.entries

-- One table operation of a flow that derives, or ends, authority, or of the host that passes it on.
pub data Derives (t : CapTable) : CapTable → Type 0 where
  here : Derives t t
  attenuated :
      {u : CapTable}
      → Derives t u
      → (draws : Draws) (id from_holder to_holder want : ℕ) (native : Option NativeMask)
      → Derives t (attenuate draws u id from_holder to_holder want native).1
  delegated_on :
      {u : CapTable}
      → Derives t u
      → (draws : Draws) (id from_holder to_holder : ℕ)
      → Derives t (delegate draws u id from_holder to_holder).1
  reissued :
      {u : CapTable}
      → Derives t u
      → (draws : Draws) (id holder : ℕ) → Derives t (reissue_for draws u id holder).1
  revoked : {u : CapTable} → Derives t u → (dead : ℕ) → Derives t (revoke_flow u dead).2

HasOrigin-trans : (t u : CapTable) (a : Cap) → IsConfined t u → HasOrigin u a → HasOrigin t a
HasOrigin-trans t u a c (id, origin, here_, w) =
    let (id0, first, found, w0) = c.is_covered id origin here_ in
    (id0, first, found, Within-trans a origin.cap first.cap w w0)

granted_at :
    (t u : CapTable) (entry : Capability) (r : Result RuntimeError ℕ × CapTable)
    → IsConfined t u
    → HasOrigin t entry.cap
    → Granting u entry r
    → IsConfined t r.1
granted_at t u entry _ c o (refused e) = c
granted_at t u entry _ c o (entered id u' g) = subst (IsConfined t) (sym g.is_table) (record {
  is_covered = λ j e h. elim (insert-cases id j entry e u.entries h) [
    | inl (_, same) ↦ subst (λ (x : Capability). HasOrigin t x.cap) same o
    | inr (_, old) ↦ c.is_covered j e old
  ];
  is_distinct = insert-HasDistinctKeys id entry u.entries c.is_distinct;
})

narrow_at-eq-ok :
    (src : Cap) (want : ℕ) (native : Option NativeMask) (cell : ℕ) (cap : Cap)
    → narrow_at src want native cell ≡ ok cap
    → cap ≡ narrow src want native
unfolding narrow_at exec_delegate
narrow_at-eq-ok src want native cell cap h = ground arith

-- The narrowed capability comes from an entry that its holder holds.
pub narrowed-eq-ok :
    (t : CapTable) (id holder want : ℕ) (native : Option NativeMask) (cap : Cap)
    → narrowed t id holder want native ≡ ok cap
    → (src : Capability) × Resolves t id holder 0 src × (cap ≡ narrow src.cap want native)
unfolding narrowed narrow_entry
narrowed-eq-ok t id holder want native cap h =
    let (src, found, rest) =
      >>=-eq-ok (resolve t id holder 0) (λ (e : Capability). narrow_entry t want native e) h in
    let (cell, _, made) =
      >>=-eq-ok (flow_cell_of t src.cap.target) (λ (c : ℕ). narrow_at src.cap want native c) rest in
    (
      src,
      (resolve-eq-ok t id holder 0 src).0 found,
      narrow_at-eq-ok src.cap want native cell cap made,
    )

-- Capabilities that are entered keep a table confined.
grant-IsConfined :
    (draws : Draws) (t u : CapTable) (holder : ℕ) (cap : Cap)
    → IsConfined t u
    → HasOrigin u cap
    → IsConfined t (grant draws u holder cap).1
grant-IsConfined draws t u holder cap c o =
    granted_at t u _ _ c (HasOrigin-trans t u cap c o) (grant-Granting draws u holder cap)

attenuate-IsConfined :
    (draws : Draws) (t u : CapTable) (id from_holder to_holder want : ℕ)
    (native : Option NativeMask)
    → IsConfined t u
    → IsConfined t (attenuate draws u id from_holder to_holder want native).1
unfolding attenuate
attenuate-IsConfined draws t u id from_holder to_holder want native c =
    at_result (narrowed u id from_holder want native) refl
  where
    at_result :
        (r : Result CapError Cap)
        → narrowed u id from_holder want native ≡ r
        → IsConfined t (grant_narrowed draws u to_holder r).1
    at_result (err e) h = c
    at_result (ok cap) h =
        let (src, r, made) = narrowed-eq-ok u id from_holder want native cap h in
        grant-IsConfined draws t u to_holder cap c (
          id,
          src,
          r.is_entered,
          subst (λ x. Within x src.cap) (sym made) (narrow-Within src.cap want native),
        )

delegate-IsConfined :
    (draws : Draws) (t u : CapTable) (id from_holder to_holder : ℕ)
    → IsConfined t u
    → IsConfined t (delegate draws u id from_holder to_holder).1
unfolding delegate
delegate-IsConfined draws t u id from_holder to_holder c = at_result (resolve u id from_holder 0)
  where
    at_result :
        (r : Result CapError Capability)
        → IsConfined t (delegate_as draws u id from_holder to_holder r).1
    at_result (err e) = c
    at_result (ok src) =
        attenuate-IsConfined draws t u id from_holder to_holder src.cap.rights src.cap.native_mask c

reissue_for-IsConfined :
    (draws : Draws) (t u : CapTable) (id holder : ℕ)
    → IsConfined t u
    → IsConfined t (reissue_for draws u id holder).1
unfolding reissue_for lookup
reissue_for-IsConfined draws t u id holder c = at_lookup (id == cap_id_none) (get id u.entries) refl
  where
    at_lookup :
        (null : Bool) (found : Option Capability)
        → get id u.entries ≡ found
        → IsConfined t (reissue draws u holder (known (if null then none else found))).1
    at_lookup true found h = c
    at_lookup false none h = c
    at_lookup false (some entry) h =
        grant-IsConfined draws t u holder _ c
          (id, entry, h, narrow-Within entry.cap entry.cap.rights entry.cap.native_mask)

revoke_flow-IsConfined :
    (t u : CapTable) (dead : ℕ) → IsConfined t u → IsConfined t (revoke_flow u dead).2
unfolding revoke_flow
revoke_flow-IsConfined t u dead c = record {
  is_covered = λ id entry h.
      c.is_covered id entry (retain-of (is_unrelated dead) id entry u.entries c.is_distinct h);
  is_distinct = retain-HasDistinctKeys (is_unrelated dead) u.entries c.is_distinct;
}

-- After any sequence of delegations, attenuations, re-issues and revocations, by any flows and with
-- any tokens drawn, every capability in the table gives nothing that a capability of the first
-- table does not give: it has the same target, no more rights, and permits no more native
-- functions. The tokens of the first table are distinct.
pub Derives-IsConfined : (t u : CapTable) → HasDistinctKeys t.entries → Derives t u → IsConfined t u
Derives-IsConfined t _ d here = record {
  is_covered = λ id entry h. (id, entry, h, Within-refl entry.cap);
  is_distinct = d;
}
Derives-IsConfined t _ d (attenuated {u} r draws id from_holder to_holder want native) =
    attenuate-IsConfined draws t u id from_holder to_holder want native (Derives-IsConfined t u d r)
Derives-IsConfined t _ d (delegated_on {u} r draws id from_holder to_holder) =
    delegate-IsConfined draws t u id from_holder to_holder (Derives-IsConfined t u d r)
Derives-IsConfined t _ d (reissued {u} r draws id holder) =
    reissue_for-IsConfined draws t u id holder (Derives-IsConfined t u d r)
Derives-IsConfined t _ d (revoked {u} r dead) =
    revoke_flow-IsConfined t u dead (Derives-IsConfined t u d r)
