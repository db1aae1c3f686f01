-- ===== src/Scheduler/CapTable/Sound.antt =====
-- A sound table: distinct tokens and a true index. Each operation keeps a table sound.
use bytecode_vm.Prelude.{
  ℕ, ◌≡◌, ◌≢◌, refl, sym, ◌∙◌, ap, subst, Bool, true, false, if◌then◌else◌, ◌==◌, ==_iff, Option,
  none, some, inl, inr, arith,
}
use bytecode_vm.Prelude.Maps.{
  nat_key, pair_key, get, insert, remove, contains_key, HasDistinctKeys, get-insert, get-remove,
  insert-cases, get-retain, retain-passes, retain-of, retain-none, retain-HasDistinctKeys,
  remove-HasDistinctKeys, insert-HasDistinctKeys,
}
use bytecode_vm.Prelude.Result.{Result, ok, err}
use bytecode_vm.Bytecode.Value.{cap_id_none}
use bytecode_vm.Bytecode.Cap.{Cap, flow, root}
use bytecode_vm.Scheduler.Error.{RuntimeError}
use bytecode_vm.Scheduler.CapTable.{
  Capability, CapError, CapTable, Draws, new, cell_or_new, bind_flow, grant, mint,
  reply_cap_is_live, indexed, mint_reply, reuse, mint_or_reuse, grant_narrowed, attenuate,
  delegate_as, reissue, is_unrelated, is_other_pair, revoke_flow,
}
use bytecode_vm.Scheduler.CapTable.Resolve.{is_unrelated_iff}
use bytecode_vm.Scheduler.CapTable.Grant.{Granting, entered, refused, grant-Granting}

-- What the index gives for a pair: an entry of its holder that addresses its target.
abbrev IsPair : CapTable → ℕ × ℕ → ℕ → Type 0
IsPair t (holder, to) id =
    (entry : Capability) × (get id t.entries ≡ some entry)
    × (entry.holder ≡ holder)
    × (entry.cap.target ≡ flow to)

pub record IsSound (t : CapTable) : Type 0 where
  pub entries_distinct : HasDistinctKeys t.entries
  pub index_distinct : HasDistinctKeys t.reply_index
  pub no_null : get cap_id_none t.entries ≡ none
  pub is_indexed :
      (holder to id : ℕ)
      → get (holder, to) t.reply_index ≡ some id
      → (entry : Capability) × (get id t.entries ≡ some entry)
        × (entry.holder ≡ holder)
        × (entry.cap.target ≡ flow to)

pub new-IsSound : IsSound new
unfolding new get HasDistinctKeys
new-IsSound = record {
  entries_distinct = tt;
  index_distinct = tt;
  no_null = refl;
  is_indexed = λ holder to id h. cc;
}

pub bind_flow-IsSound : (t : CapTable) (id : ℕ) → IsSound t → IsSound (bind_flow t id).1
unfolding bind_flow
bind_flow-IsSound t id s = at_found (contains_key id t.flow_cells)
  where
    at_found :
        (b : Bool)
        → IsSound (
            if b then t else record t {
              flow_cells = insert id (cell_or_new (get id t.flow_cells)) t.flow_cells;
            })
    at_found true = s
    at_found false = record {
      entries_distinct = s.entries_distinct;
      index_distinct = s.index_distinct;
      no_null = s.no_null;
      is_indexed = s.is_indexed;
    }

-- An entry stays where it is when another is entered under a token that was not in use.
pub stays :
    (t : CapTable) (id j : ℕ) (entry e : Capability)
    → get id t.entries ≡ none
    → get j t.entries ≡ some e
    → get j (insert id entry t.entries) ≡ some e
stays t id j entry e fresh h = at_key (id == j) refl
  where
    at_key : (b : Bool) → id == j ≡ b → get j (insert id entry t.entries) ≡ some e
    at_key true same = cc (fresh, h, (==_iff id j).0 same)
    at_key false other = rw (get-insert id j entry t.entries, other) h

Granting-IsSound :
    (t : CapTable) (entry : Capability) (r : Result RuntimeError ℕ × CapTable)
    → IsSound t
    → Granting t entry r
    → IsSound r.1
Granting-IsSound t entry _ s (refused e) = s
Granting-IsSound t entry _ s (entered id u g) = subst IsSound (sym g.is_table) (record {
  entries_distinct = insert-HasDistinctKeys id entry t.entries s.entries_distinct;
  index_distinct = s.index_distinct;
  no_null = ground (arith, get-insert id cap_id_none entry t.entries, s.no_null, g.is_token);
  is_indexed = λ holder to j h.
      let (e, found, held, target) = s.is_indexed holder to j h in
      (e, stays t id j entry e g.is_fresh found, held, target);
})

-- The index entry made for an entry that is there.
index-IsSound :
    (t : CapTable) (holder to id : ℕ)
    → IsSound t
    → IsPair t (holder, to) id
    → IsSound (record t { reply_index = insert (holder, to) id t.reply_index })
index-IsSound t holder to id s pair = record {
  entries_distinct = s.entries_distinct;
  index_distinct = insert-HasDistinctKeys (holder, to) id t.reply_index s.index_distinct;
  no_null = s.no_null;
  is_indexed = λ h k j e. elim (insert-cases (holder, to) (h, k) id j t.reply_index e) [
    | inl (same, token) ↦ at_pair h k j same token
    | inr (_, old) ↦ s.is_indexed h k j old
  ];
}
  where
    at_pair : (h k j : ℕ) → ◌≡◌ {A = ℕ × ℕ} (holder, to) (h, k) → id ≡ j → IsPair t (h, k) j
    at_pair h k j same token =
        subst (IsPair t (h, k)) token (subst (λ (p : ℕ × ℕ). IsPair t p id) same pair)

indexed-IsSound :
    (t : CapTable) (holder to : ℕ) (cap : Cap) (r : Result RuntimeError ℕ × CapTable)
    → IsSound t
    → cap.target ≡ flow to
    → Granting t (record { holder = holder; cap = cap }) r
    → IsSound (indexed holder to r).1
indexed-IsSound t holder to cap _ s target (refused e) = s
indexed-IsSound t holder to cap _ s target (entered id u g) =
    index-IsSound u holder to id (Granting-IsSound t _ (ok id, u) s (entered id u g)) (
      record { holder = holder; cap = cap },
      ap (λ (x : CapTable). get id x.entries) g.is_table
          ∙ ground (arith, get-insert id id (record { holder = holder; cap = cap }) t.entries),
      refl,
      target,
    )

pub grant-IsSound :
    (draws : Draws) (t : CapTable) (holder : ℕ) (cap : Cap)
    → IsSound t
    → IsSound (grant draws t holder cap).1
grant-IsSound draws t holder cap s = Granting-IsSound t _ _ s (grant-Granting draws t holder cap)

pub mint-IsSound :
    (draws : Draws) (t : CapTable) (holder to rights : ℕ)
    → IsSound t
    → IsSound (mint draws t holder to rights).1
unfolding mint
mint-IsSound draws t holder to rights s = grant-IsSound draws _ holder _ (bind_flow-IsSound t to s)

mint_reply-IsSound :
    (draws : Draws) (t : CapTable) (holder to rights : ℕ)
    → IsSound t
    → IsSound (mint_reply draws t holder to rights).1
unfolding mint_reply mint root
mint_reply-IsSound draws t holder to rights s =
    let (cell, with_cell) = bind_flow t to in
    let cap = root (flow to) rights none cell in
    indexed-IsSound with_cell holder to cap _ (bind_flow-IsSound t to s) refl
      (grant-Granting draws with_cell holder cap)

-- The index without the entry of a pair.
unindex-IsSound :
    (t : CapTable) (p : ℕ × ℕ)
    → IsSound t
    → IsSound (record t { reply_index = remove p t.reply_index })
unindex-IsSound t p s = record {
  entries_distinct = s.entries_distinct;
  index_distinct = remove-HasDistinctKeys p t.reply_index s.index_distinct;
  no_null = s.no_null;
  is_indexed = λ holder to id h.
      s.is_indexed holder to id (ground (arith, get-remove p (holder, to) t.reply_index, h));
}

pub mint_or_reuse-IsSound :
    (draws : Draws) (t : CapTable) (holder to rights : ℕ)
    → IsSound t
    → IsSound (mint_or_reuse draws t holder to rights).1
unfolding mint_or_reuse reuse
mint_or_reuse-IsSound draws t holder to rights s = at_index (get (holder, to) t.reply_index)
  where
    at_index : (found : Option ℕ) → IsSound (reuse draws t found holder to rights).1
    at_index none = mint_reply-IsSound draws t holder to rights s
    at_index (some id) =
        elim (reply_cap_is_live t id holder to rights)
          as (λ b.
            IsSound
              (if b
                then (ok id, t)
                else mint_reply draws (record t { reply_index = remove (holder, to) t.reply_index })
                    holder to rights).1) [
                      | true ↦ s
                      | false ↦
                          mint_reply-IsSound draws _ holder to rights
                            (unindex-IsSound t (holder, to) s)
                    ]

pub grant_narrowed-IsSound :
    (draws : Draws) (t : CapTable) (holder : ℕ) (r : Result CapError Cap)
    → IsSound t
    → IsSound (grant_narrowed draws t holder r).1
grant_narrowed-IsSound draws t holder (ok cap) s = grant-IsSound draws t holder cap s
grant_narrowed-IsSound draws t holder (err e) s = s

pub delegate_as-IsSound :
    (draws : Draws) (t : CapTable) (id from_holder to_holder : ℕ) (r : Result CapError Capability)
    → IsSound t
    → IsSound (delegate_as draws t id from_holder to_holder r).1
unfolding attenuate
delegate_as-IsSound draws t id from_holder to_holder (ok src) s =
    grant_narrowed-IsSound draws t to_holder _ s
delegate_as-IsSound draws t id from_holder to_holder (err e) s = s

pub reissue-IsSound :
    (draws : Draws) (t : CapTable) (holder : ℕ) (r : Result CapError Capability)
    → IsSound t
    → IsSound (reissue draws t holder r).1
reissue-IsSound draws t holder (ok entry) s = grant-IsSound draws t holder _ s
reissue-IsSound draws t holder (err e) s = s

-- A pair without the flow that is gone is still indexed truly.
kept-IsPair :
    (t : CapTable) (dead holder to id : ℕ)
    → is_other_pair dead (holder, to) id ≡ true
    → IsPair t (holder, to) id
    → IsPair (revoke_flow t dead).2 (holder, to) id
unfolding revoke_flow is_other_pair
kept-IsPair t dead holder to id other (entry, found, held, target) =
    let stays_held : entry.holder ≢ dead = λ e. ground (arith, e) in
    let to_other : entry.cap.target ≢ flow dead =
      λ e. let same : to ≡ dead = cc (target, e) in ground (arith, same) in
    (
      entry,
      get-retain (is_unrelated dead) id entry t.entries found
          ((is_unrelated_iff dead id entry).1 (stays_held, to_other)),
      held,
      target,
    )

pub revoke_flow-IsSound : (t : CapTable) (dead : ℕ) → IsSound t → IsSound (revoke_flow t dead).2
unfolding revoke_flow
revoke_flow-IsSound t dead s = record {
  entries_distinct = retain-HasDistinctKeys (is_unrelated dead) t.entries s.entries_distinct;
  index_distinct = retain-HasDistinctKeys (is_other_pair dead) t.reply_index s.index_distinct;
  no_null = retain-none (is_unrelated dead) cap_id_none t.entries s.no_null;
  is_indexed = λ holder to id h.
      let before =
        retain-of (is_other_pair dead) (holder, to) id t.reply_index s.index_distinct h in
      kept-IsPair t dead holder to id
        (retain-passes (is_other_pair dead) (holder, to) id t.reply_index h)
        (s.is_indexed holder to id before);
}
