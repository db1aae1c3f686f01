-- ===== src/Scheduler/CapTable/Resolve.antt =====
-- Which tokens the table resolves, and which it still resolves after a flow is gone.
use bytecode_vm.Prelude.{
  ℕ, ◌≡◌, ◌≢◌, ◌↔◌, refl, sym, ◌∙◌, ap, true, ==_iff, Option, none, some, arith,
}
use bytecode_vm.Prelude.Maps.{
  nat_key, get, HasDistinctKeys, get-retain, retain-passes, retain-of, get-remove,
}
use bytecode_vm.Prelude.Result.{ok, ◌>>=◌}
use bytecode_vm.Bytecode.Value.{cap_id_none}
use bytecode_vm.Bytecode.Cap.{Cap, CapTarget, flow, native_table, scheduler, contains, is_valid}
use bytecode_vm.Scheduler.Delegate.{is_flow}
use bytecode_vm.Scheduler.CapTable.{
  Capability, CapTable, cell_of, is_live_at, known, check_entry, resolve, is_unrelated, revoke_flow,
}

-- What a resolved token stands for.
pub record Resolves (t : CapTable) (id holder required : ℕ) (entry : Capability) : Type 0 where
  pub is_token : id ≢ cap_id_none
  pub is_entered : get id t.entries ≡ some entry
  pub is_held : entry.holder ≡ holder
  pub has_rights : contains entry.cap.rights required ≡ true
  pub is_live : cell_of t entry.cap.target ≡ some entry.cap.epoch

pub live_iff :
    (cap : Cap) (cell : Option ℕ) → (is_live_at cap cell ≡ true) ↔ (cell ≡ some cap.epoch)
unfolding is_valid
live_iff cap none = (λ h. cc, λ h. cc)
live_iff cap (some cell) =
    (λ h. ap (λ n. some n) (sym ((==_iff cap.epoch cell).0 h)), λ h. (==_iff cap.epoch cell).1 (cc))

check_entry-eq-ok :
    (t : CapTable) (holder required : ℕ) (found entry : Capability)
    → check_entry t holder required found ≡ ok entry
    → (found ≡ entry)
      × (entry.holder ≡ holder)
      × (contains entry.cap.rights required ≡ true)
      × (cell_of t entry.cap.target ≡ some entry.cap.epoch)
unfolding check_entry
check_entry-eq-ok t holder required found entry h =
    ground (arith, live_iff found.cap (cell_of t found.cap.target))

eq-ok_check_entry :
    (t : CapTable) (holder required : ℕ) (entry : Capability)
    → entry.holder ≡ holder
    → contains entry.cap.rights required ≡ true
    → cell_of t entry.cap.target ≡ some entry.cap.epoch
    → check_entry t holder required entry ≡ ok entry
unfolding check_entry
eq-ok_check_entry t holder required entry h r l =
    ground (arith, live_iff entry.cap (cell_of t entry.cap.target))

resolve_found :
    (t : CapTable) (id holder required : ℕ) (found : Option Capability) (entry : Capability)
    → get id t.entries ≡ found
    → (known found >>= λ e. check_entry t holder required e) ≡ ok entry
    → id ≢ cap_id_none
    → Resolves t id holder required entry
resolve_found t id holder required none entry e h token = cc
resolve_found t id holder required (some found) entry e h token =
    let (same, held, rights, live) = check_entry-eq-ok t holder required found entry h in
    record {
      is_token = token;
      is_entered = e ∙ ap (λ x. some x) same;
      is_held = held;
      has_rights = rights;
      is_live = live;
    }

-- A token resolves to an entry exactly when it is not the null token, the table holds that entry
-- under it, the caller is the entry's holder, the entry has the rights asked for, and its epoch is
-- that of its target's revocation cell, which is there.
pub resolve-eq-ok :
    (t : CapTable) (id holder required : ℕ) (entry : Capability)
    → (resolve t id holder required ≡ ok entry) ↔ Resolves t id holder required entry
unfolding resolve
resolve-eq-ok t id holder required entry = (
  λ h.
      resolve_found t id holder required (get id t.entries) entry refl (ground (arith, h))
        (ground (arith, h)),
  λ r. rw r.is_entered (
      ground (
        arith,
        eq-ok_check_entry t holder required entry r.is_held r.has_rights r.is_live,
        r.is_token,
      )),
)

pub is_flow_iff : (target : CapTarget) (id : ℕ) → (is_flow target id ≡ true) ↔ (target ≡ flow id)
unfolding is_flow
is_flow_iff (flow to) id = (λ h. ap flow ((==_iff to id).0 h), λ h. (==_iff to id).1 (cc))
is_flow_iff native_table id = (λ h. cc, λ h. cc)
is_flow_iff scheduler id = (λ h. cc, λ h. cc)

pub is_unrelated_iff :
    (id token : ℕ) (entry : Capability)
    → (is_unrelated id token entry ≡ true) ↔ ((entry.holder ≢ id) × (entry.cap.target ≢ flow id))
unfolding is_unrelated
is_unrelated_iff id token entry = (
  λ h. (λ e. ground (arith, h, e), λ e. ground (arith, h, (is_flow_iff entry.cap.target id).1 e)),
  λ (stays, other). ground (arith, stays, other, (is_flow_iff entry.cap.target id).0),
)

-- The cell of a target other than the flow that is gone.
cell_of-revoke_flow :
    (t : CapTable) (dead : ℕ) (target : CapTarget)
    → target ≢ flow dead
    → cell_of (revoke_flow t dead).2 target ≡ cell_of t target
unfolding cell_of revoke_flow
cell_of-revoke_flow t dead (flow to) other =
    ground (arith, get-remove dead to t.flow_cells, λ (e : to ≡ dead). other (ap flow e))
cell_of-revoke_flow t dead native_table other = refl
cell_of-revoke_flow t dead scheduler other = refl

-- In a table of distinct tokens: after a flow is revoked, a token resolves to an entry exactly when
-- it resolved to it before and the entry is neither held by that flow nor addresses it.
pub revoke_flow-resolve :
    (t : CapTable) (dead id holder required : ℕ) (entry : Capability)
    → HasDistinctKeys t.entries
    → (resolve (revoke_flow t dead).2 id holder required ≡ ok entry) ↔ (
        (resolve t id holder required ≡ ok entry)
        × (entry.holder ≢ dead)
        × (entry.cap.target ≢ flow dead))
unfolding revoke_flow
revoke_flow-resolve t dead id holder required entry distinct = (
  λ h.
      let r = (resolve-eq-ok _ id holder required entry).0 h in
      let kept = retain-passes (is_unrelated dead) id entry t.entries r.is_entered in
      let (held, target) = (is_unrelated_iff dead id entry).0 kept in
      let before = retain-of (is_unrelated dead) id entry t.entries distinct r.is_entered in
      (
        (resolve-eq-ok t id holder required entry).1 (record {
          is_token = r.is_token;
          is_entered = before;
          is_held = r.is_held;
          has_rights = r.has_rights;
          is_live = sym (cell_of-revoke_flow t dead entry.cap.target target) ∙ r.is_live;
        }),
        held,
        target,
      ),
  λ (h, held, target).
      let r = (resolve-eq-ok t id holder required entry).0 h in
      let kept = (is_unrelated_iff dead id entry).1 (held, target) in
      (resolve-eq-ok _ id holder required entry).1 (record {
        is_token = r.is_token;
        is_entered = get-retain (is_unrelated dead) id entry t.entries r.is_entered kept;
        is_held = r.is_held;
        has_rights = r.has_rights;
        is_live = cell_of-revoke_flow t dead entry.cap.target target ∙ r.is_live;
      }),
)
