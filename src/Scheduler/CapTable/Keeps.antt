-- ===== src/Scheduler/CapTable/Keeps.antt =====
-- A reply address that is given leaves every entry where it is.
use bytecode_vm.Prelude.{
  ℕ, ◌≡◌, ◌≢◌, subst, ◌∙◌, ap, true, false, if◌then◌else◌, Option, none, some, arith,
}
use bytecode_vm.Prelude.Maps.{nat_key, pair_key, get, insert, remove, get-insert}
use bytecode_vm.Prelude.Result.{Result, ok}
use bytecode_vm.Bytecode.Value.{cap_id_none}
use bytecode_vm.Bytecode.Cap.{flow, root}
use bytecode_vm.Scheduler.Error.{RuntimeError}
use bytecode_vm.Scheduler.CapTable.{
  Capability, CapTable, Draws, bind_flow, mint, reply_cap_is_live, indexed, mint_reply, reuse,
  mint_or_reuse, granted,
}
use bytecode_vm.Scheduler.CapTable.Grant.{Granting, entered, refused, grant-Granting}
use bytecode_vm.Scheduler.CapTable.Sound.{stays}

bind_flow-entries : (t : CapTable) (id : ℕ) → (bind_flow t id).1.entries ≡ t.entries
unfolding bind_flow
bind_flow-entries t id = ground arith

Granting-keeps :
    (t : CapTable) (entry e : Capability) (holder to j : ℕ) (r : Result RuntimeError ℕ × CapTable)
    → Granting t entry r
    → get j t.entries ≡ some e
    → get j (indexed holder to r).1.entries ≡ some e
Granting-keeps t entry e holder to j _ (refused x) h = h
Granting-keeps t entry e holder to j _ (entered id u g) h =
    ap (λ (x : CapTable). get j x.entries) g.is_table ∙ stays t id j entry e g.is_fresh h

mint_reply-keeps :
    (draws : Draws) (t : CapTable) (holder to rights j : ℕ) (e : Capability)
    → get j t.entries ≡ some e
    → get j (mint_reply draws t holder to rights).1.entries ≡ some e
unfolding mint_reply mint
mint_reply-keeps draws t holder to rights j e h =
    let (cell, with_cell) = bind_flow t to in
    Granting-keeps with_cell _ e holder to j _
      (grant-Granting draws with_cell holder (root (flow to) rights none cell))
      (rw (bind_flow-entries t to) h)

pub mint_or_reuse-keeps :
    (draws : Draws) (t : CapTable) (holder to rights j : ℕ) (e : Capability)
    → get j t.entries ≡ some e
    → get j (mint_or_reuse draws t holder to rights).1.entries ≡ some e
unfolding mint_or_reuse reuse
mint_or_reuse-keeps draws t holder to rights j e h = at_index (get (holder, to) t.reply_index)
  where
    at_index : (found : Option ℕ) → get j (reuse draws t found holder to rights).1.entries ≡ some e
    at_index none = mint_reply-keeps draws t holder to rights j e h
    at_index (some id) =
        elim (reply_cap_is_live t id holder to rights)
          as (λ b.
            get j
              (if b
                then (ok id, t)
                else mint_reply draws (record t { reply_index = remove (holder, to) t.reply_index })
                    holder to rights).1.entries
            ≡ some e) [ true ↦ h | false ↦ mint_reply-keeps draws _ holder to rights j e h ]

-- The entry of a token that was granted, in a table without an entry under the null token.
pub granted-entry :
    (t u : CapTable) (entry : Capability) (id : ℕ) (r : Result RuntimeError ℕ × CapTable)
    → Granting t entry r
    → granted r ≡ (ok id, u)
    → get cap_id_none t.entries ≡ none
    → (get id u.entries ≡ some entry) × (get cap_id_none u.entries ≡ none)
granted-entry t u entry id _ (refused e) h no_null = cc
granted-entry t u entry id _ (entered id' u' g) h no_null =
    let same : u ≡ record t { entries = insert id entry t.entries } = cc (h, g.is_table) in
    let token : id ≢ cap_id_none = subst (λ x. x ≢ cap_id_none) (cc h) g.is_token in
    (
      ap (λ (x : CapTable). get id x.entries) same
          ∙ ground (arith, get-insert id id entry t.entries),
      ap (λ (x : CapTable). get cap_id_none x.entries) same
          ∙ ground (arith, get-insert id cap_id_none entry t.entries, no_null, token),
    )
