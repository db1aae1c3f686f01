-- ===== src/Scheduler/CapTable/Reply.antt =====
-- The reply address of a pair of flows: one live token, given again as long as it is live.
use bytecode_vm.Prelude.{
  ℕ, ◌≡◌, ◌≢◌, refl, sym, ◌∙◌, ap, subst, Bool, true, false, if◌then◌else◌, Option, none, some,
  arith,
}
use bytecode_vm.Prelude.Maps.{nat_key, pair_key, get, insert, remove, get-insert}
use bytecode_vm.Prelude.Result.{Result, ok}
use bytecode_vm.Bytecode.Value.{cap_id_none}
use bytecode_vm.Bytecode.Cap.{flow, contains, root}
use bytecode_vm.Bytecode.Cap.Attenuate.{contains_iff}
use bytecode_vm.Scheduler.Error.{RuntimeError}
use bytecode_vm.Scheduler.CapTable.{
  Capability, CapTable, Draws, bind_flow, mint, cell_of, resolve, reply_entry_is_live,
  reply_cap_is_live, indexed, mint_reply, reuse, mint_or_reuse,
}
use bytecode_vm.Scheduler.CapTable.Resolve.{resolve-eq-ok, is_flow_iff, live_iff}
use bytecode_vm.Scheduler.CapTable.Grant.{Granting, entered, refused, grant-Granting}

-- A token that its holder can use for a flow, with the rights asked for.
pub record IsReply (t : CapTable) (id holder to rights : ℕ) : Type 0 where
  pub entry : Capability
  pub is_token : id ≢ cap_id_none
  pub is_entered : get id t.entries ≡ some entry
  pub is_held : entry.holder ≡ holder
  pub has_target : entry.cap.target ≡ flow to
  pub has_rights : contains entry.cap.rights rights ≡ true
  pub is_live : get to t.flow_cells ≡ some entry.cap.epoch

live_entry-IsReply :
    (t : CapTable) (id holder to rights : ℕ) (found : Option Capability)
    → id ≢ cap_id_none
    → get id t.entries ≡ found
    → reply_entry_is_live t found holder to rights ≡ true
    → IsReply t id holder to rights
unfolding reply_entry_is_live
live_entry-IsReply t id holder to rights none token e h = cc
live_entry-IsReply t id holder to rights (some entry) token e h = record {
  entry = entry;
  is_token = token;
  is_entered = e;
  is_held = ground arith;
  has_target = ground (arith, is_flow_iff entry.cap.target to);
  has_rights = ground arith;
  is_live = ground (arith, live_iff entry.cap (get to t.flow_cells));
}

IsReply-live :
    (t : CapTable) (id holder to rights : ℕ)
    → IsReply t id holder to rights
    → reply_cap_is_live t id holder to rights ≡ true
unfolding reply_cap_is_live reply_entry_is_live
IsReply-live t id holder to rights r = rw r.is_entered (
    ground (
      arith,
      is_flow_iff r.entry.cap.target to,
      live_iff r.entry.cap (get to t.flow_cells),
      r.is_held,
      r.has_target,
      r.has_rights,
      r.is_live,
    ))

IsReply-resolve :
    (t : CapTable) (id holder to rights : ℕ) (r : IsReply t id holder to rights)
    → resolve t id holder rights ≡ ok r.entry
unfolding cell_of
IsReply-resolve t id holder to rights r = (resolve-eq-ok t id holder rights r.entry).1 (record {
  is_token = r.is_token;
  is_entered = r.is_entered;
  is_held = r.is_held;
  has_rights = r.has_rights;
  is_live = ap (cell_of t) r.has_target ∙ r.is_live;
})

bind_flow-bound :
    (t : CapTable) (to : ℕ) → get to (bind_flow t to).1.flow_cells ≡ some (bind_flow t to).0
unfolding bind_flow
bind_flow-bound t to = ground (arith, get-insert to to 0 t.flow_cells)

contains_refl : (a : ℕ) → contains a a ≡ true
contains_refl a = (contains_iff a a).1 (λ i. omega arith)

-- A reply token that the index gives for its pair.
abbrev IsIndexedReply : ℕ → ℕ → ℕ → ℕ × CapTable → Type 0
IsIndexedReply holder to rights (id, t) =
    IsReply t id holder to rights × (get (holder, to) t.reply_index ≡ some id)

entered_reply :
    (t : CapTable) (holder to rights cell id : ℕ)
    → id ≢ cap_id_none
    → get to t.flow_cells ≡ some cell
    → IsIndexedReply holder to rights (
      id,
      record t {
        entries =
            insert id (record { holder = holder; cap = root (flow to) rights none cell }) t.entries;
        reply_index = insert (holder, to) id t.reply_index;
      },
    )
unfolding root
entered_reply t holder to rights cell id token bound = (
  record {
    entry = record { holder = holder; cap = root (flow to) rights none cell };
    is_token = token;
    is_entered = ground (
      arith,
      get-insert id id (record { holder = holder; cap = root (flow to) rights none cell })
          t.entries,
    );
    is_held = refl;
    has_target = refl;
    has_rights = contains_refl rights;
    is_live = bound;
  },
  ground (arith, get-insert (holder, to) (holder, to) id t.reply_index),
)

indexed-IsReply :
    (t : CapTable) (holder to rights cell : ℕ) (r : Result RuntimeError ℕ × CapTable)
    (v : ℕ × CapTable)
    → get to t.flow_cells ≡ some cell
    → Granting t (record { holder = holder; cap = root (flow to) rights none cell }) r
    → indexed holder to r ≡ (ok v.0, v.1)
    → IsIndexedReply holder to rights v
indexed-IsReply t holder to rights cell _ v bound (refused e) h = cc
indexed-IsReply t holder to rights cell _ (id, t') bound (entered new u g) h =
    let same : new ≡ id = cc in
    let table : record u { reply_index = insert (holder, to) new u.reply_index } ≡ t' = cc in
    let from_grant =
      ap (λ (x : CapTable). record x { reply_index = insert (holder, to) new x.reply_index })
        (sym g.is_table) in
    subst (λ (p : ℕ × CapTable). IsIndexedReply holder to rights p)
      (λ i. (same i, (from_grant ∙ table) i))
      (entered_reply t holder to rights cell new g.is_token bound)

mint_reply-IsReply :
    (draws : Draws) (t : CapTable) (holder to rights : ℕ) (v : ℕ × CapTable)
    → mint_reply draws t holder to rights ≡ (ok v.0, v.1)
    → IsIndexedReply holder to rights v
unfolding mint_reply mint
mint_reply-IsReply draws t holder to rights v h =
    let (cell, bound) = bind_flow t to in
    indexed-IsReply bound holder to rights cell _ v (bind_flow-bound t to)
      (grant-Granting draws bound holder (root (flow to) rights none cell)) h

some_ok : {a b : ℕ} → ◌≡◌ {A = Result RuntimeError ℕ} (ok a) (ok b) → a ≡ b
some_ok h = cc

live_is_token :
    (t : CapTable) (id holder to rights : ℕ)
    → get cap_id_none t.entries ≡ none
    → reply_entry_is_live t (get id t.entries) holder to rights ≡ true
    → id ≢ cap_id_none
unfolding reply_entry_is_live
live_is_token t id holder to rights no_null live e =
    let nothing : get id t.entries ≡ none = ap (λ n. get n t.entries) e ∙ no_null in
    cc (live, ap (λ o. reply_entry_is_live t o holder to rights) nothing)

reuse-IsReply :
    (draws : Draws) (t : CapTable) (holder to rights : ℕ) (found : Option ℕ) (v : ℕ × CapTable)
    → get cap_id_none t.entries ≡ none
    → get (holder, to) t.reply_index ≡ found
    → reuse draws t found holder to rights ≡ (ok v.0, v.1)
    → IsIndexedReply holder to rights v
unfolding reuse reply_cap_is_live
reuse-IsReply draws t holder to rights none v no_null e h =
    mint_reply-IsReply draws t holder to rights v h
reuse-IsReply draws t holder to rights (some id) v no_null e h =
    at_live (reply_cap_is_live t id holder to rights) refl h
  where
    at_live :
        (live : Bool)
        → reply_entry_is_live t (get id t.entries) holder to rights ≡ live
        → (if live
            then (ok id, t)
            else mint_reply draws
                (record t { reply_index = remove (holder, to) t.reply_index })
                holder
                to
                rights)
          ≡ (ok v.0, v.1)
        → IsIndexedReply holder to rights v
    at_live true live k =
        let token = live_is_token t id holder to rights no_null live in
        subst (λ (p : ℕ × CapTable). IsIndexedReply holder to rights p)
          (λ i. (
            some_ok (ap (λ (p : Result RuntimeError ℕ × CapTable). p.0) k) i,
            (ap (λ (p : Result RuntimeError ℕ × CapTable). p.1) k) i,
          ))
          (live_entry-IsReply t id holder to rights _ token refl live, e)
    at_live false live k = mint_reply-IsReply draws _ holder to rights v k

-- In a table without an entry under the null token, a reply token that is given resolves for its
-- holder to the flow it replies to, with the rights asked for, and asking again, whatever tokens
-- are drawn, gives the same token and leaves the table as it is.
pub mint_or_reuse-stable :
    (draws draws' : Draws) (t t' : CapTable) (holder to rights id : ℕ)
    → get cap_id_none t.entries ≡ none
    → mint_or_reuse draws t holder to rights ≡ (ok id, t')
    → ((entry : Capability) × (resolve t' id holder rights ≡ ok entry)
        × (entry.cap.target ≡ flow to))
      × (mint_or_reuse draws' t' holder to rights ≡ (ok id, t'))
unfolding mint_or_reuse reuse
mint_or_reuse-stable draws draws' t t' holder to rights id no_null h =
    let (r, index) = reuse-IsReply draws t holder to rights _ (id, t') no_null refl h in
    (
      (r.entry, IsReply-resolve t' id holder to rights r, r.has_target),
      rw (index, IsReply-live t' id holder to rights r) refl,
    )
