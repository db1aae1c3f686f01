-- ===== src/Scheduler/CapTable.antt =====
-- scheduler/capability.rs: the capability table of one runtime.
--
-- Each operation takes the table's lock once for each step of the model, and is modelled as run
-- by one thread with no other operation in between; a poisoned lock is not modelled. A revocation
-- cell is its counter. The tokens that the operating system draws are an argument: the outcome of
-- the first call, the second and so on, `none` where a call fails.
pub mod Resolve
pub mod Grant
pub mod Confined
pub mod Keeps
pub mod Reply
pub mod Sound
pub mod Reach
use bytecode_vm.Prelude.{
  ℕ, zero, suc, ◌+◌, ◌-◌, Bool, true, false, not, ◌&&◌, ◌||◌, ◌==◌, Option, none, some, List, [],
  length, if◌then◌else◌,
}
use bytecode_vm.Prelude.Maps.{nat_key, pair_key, get, insert, remove, retain, contains_key}
use bytecode_vm.Prelude.Result.{Result, ok, err, ◌>>=◌, ◌>>◌, ensure}
use bytecode_vm.Bytecode.Value.{cap_id_none}
use bytecode_vm.Bytecode.Cap.{
  NativeMask, Cap, CapTarget, flow, native_table, scheduler, flow_id, root, contains, is_valid,
  revoke, attenuate as narrow,
}
use bytecode_vm.Scheduler.Error.{RuntimeError, entropy_failed, cap_id_collision}
use bytecode_vm.Scheduler.Delegate.{
  DelegateError, source_revoked, source_lacks_native, exec_delegate, is_flow,
}

abbrev pub mint_attempts : ℕ
mint_attempts = 32

pub record Capability : Type 0 where
  pub holder : ℕ
  pub cap : Cap

-- `Capability::target`
unfoldable pub target : Capability → Option ℕ
unfolding flow_id
target entry = flow_id entry.cap.target

pub data CapError : Type 0 where
  unknown : CapError
  not_holder : CapError
  insufficient_rights : CapError
  wrong_target : CapError
  unavailable : CapError
  duplicate_request_id : CapError

-- `From<RuntimeError> for CapError`
abbrev pub from_runtime {ℓ} : {A : Type ℓ} → Result RuntimeError A → Result CapError A
from_runtime (ok a) = ok a
from_runtime (err e) = err unavailable

abbrev pub Draws : Type 0
Draws = ℕ → Option ℕ

abbrev pub Entries : Type 0
Entries = List (ℕ × Capability)

pub record CapTable : Type 0 where
  pub entries : Entries
  pub flow_cells : List (ℕ × ℕ)
  pub reply_index : List ((ℕ × ℕ) × ℕ)
  pub native_cell : ℕ
  pub scheduler_cell : ℕ

unfoldable pub new : CapTable
new = record {
  entries = [];
  flow_cells = [];
  reply_index = [];
  native_cell = 0;
  scheduler_cell = 0;
}

-- The counter of a cell that is there, or of a new one.
abbrev pub cell_or_new : Option ℕ → ℕ
cell_or_new (some cell) = cell
cell_or_new none = 0

unfoldable pub bind_flow : CapTable → ℕ → ℕ × CapTable
bind_flow t id =
    let cell = cell_or_new (get id t.flow_cells) in
    (
      cell,
      if contains_key id t.flow_cells
          then t
          else record t { flow_cells = insert id cell t.flow_cells },
    )

-- One attempt with the token drawn, and the further attempts where it cannot be used.
abbrev pub try_draw :
    Option ℕ
    → Capability
    → Entries
    → Result RuntimeError (ℕ × Entries)
    → Result RuntimeError (ℕ × Entries)
try_draw none entry table further = err entropy_failed
try_draw (some id) entry table further =
    if id == cap_id_none || contains_key id table then further else ok (id, insert id entry table)

-- The loop of `insert_fresh`.
unfoldable pub insert_within : ℕ → Draws → Capability → Entries → Result RuntimeError (ℕ × Entries)
insert_within zero draws entry table = err cap_id_collision
insert_within (suc attempts) draws entry table =
    try_draw (draws 0) entry table (insert_within attempts (λ i. draws (suc i)) entry table)

unfoldable pub insert_fresh : Draws → Capability → Entries → Result RuntimeError (ℕ × Entries)
insert_fresh draws entry table = insert_within mint_attempts draws entry table

-- The token of an insertion that succeeds, and the table after it.
abbrev pub inserted :
    CapTable → Result RuntimeError (ℕ × Entries) → Result RuntimeError ℕ × CapTable
inserted t (ok (id, entries)) = (ok id, record t { entries = entries })
inserted t (err e) = (err e, t)

unfoldable pub grant : Draws → CapTable → ℕ → Cap → Result RuntimeError ℕ × CapTable
grant draws t holder cap =
    inserted t (insert_fresh draws (record { holder = holder; cap = cap }) t.entries)

unfoldable pub mint : Draws → CapTable → ℕ → ℕ → ℕ → Result RuntimeError ℕ × CapTable
unfolding bind_flow grant root
mint draws t holder to rights =
    let (cell, bound) = bind_flow t to in grant draws bound holder (root (flow to) rights none cell)

-- The cell that an entry's target is checked against.
unfoldable pub cell_of : CapTable → CapTarget → Option ℕ
cell_of t (flow id) = get id t.flow_cells
cell_of t native_table = some t.native_cell
cell_of t scheduler = some t.scheduler_cell

abbrev pub is_live_at : Cap → Option ℕ → Bool
is_live_at cap (some cell) = is_valid cap cell
is_live_at cap none = false

unfoldable pub reply_entry_is_live : CapTable → Option Capability → ℕ → ℕ → ℕ → Bool
reply_entry_is_live t none holder to rights = false
reply_entry_is_live t (some entry) holder to rights =
    entry.holder == holder
    && is_flow entry.cap.target to
    && contains entry.cap.rights rights
    && is_live_at entry.cap (get to t.flow_cells)

unfoldable pub reply_cap_is_live : CapTable → ℕ → ℕ → ℕ → ℕ → Bool
unfolding reply_entry_is_live
reply_cap_is_live t id holder to rights = reply_entry_is_live t (get id t.entries) holder to rights

-- A new reply address, entered in the index.
abbrev pub indexed : ℕ → ℕ → Result RuntimeError ℕ × CapTable → Result RuntimeError ℕ × CapTable
indexed holder to (ok id, t) =
    (ok id, record t { reply_index = insert (holder, to) id t.reply_index })
indexed holder to (err e, t) = (err e, t)

unfoldable pub mint_reply : Draws → CapTable → ℕ → ℕ → ℕ → Result RuntimeError ℕ × CapTable
unfolding mint
mint_reply draws t holder to rights = indexed holder to (mint draws t holder to rights)

-- What the index holds for the pair, and whether it can be used.
unfoldable pub reuse : Draws → CapTable → Option ℕ → ℕ → ℕ → ℕ → Result RuntimeError ℕ × CapTable
unfolding mint_reply reply_cap_is_live
reuse draws t none holder to rights = mint_reply draws t holder to rights
reuse draws t (some id) holder to rights =
    if reply_cap_is_live t id holder to rights
    then (ok id, t)
    else mint_reply draws (record t { reply_index = remove (holder, to) t.reply_index }) holder to
        rights

unfoldable pub mint_or_reuse : Draws → CapTable → ℕ → ℕ → ℕ → Result RuntimeError ℕ × CapTable
unfolding reuse
mint_or_reuse draws t holder to rights =
    reuse draws t (get (holder, to) t.reply_index) holder to rights

unfoldable pub lookup : CapTable → ℕ → Option Capability
lookup t id = if id == cap_id_none then none else get id t.entries

abbrev pub known : Option Capability → Result CapError Capability
known (some entry) = ok entry
known none = err unknown

unfoldable pub check_entry : CapTable → ℕ → ℕ → Capability → Result CapError Capability
unfolding cell_of
check_entry t holder required entry =
    ensure (entry.holder == holder) not_holder
    >> ensure (contains entry.cap.rights required) insufficient_rights
    >> ensure (is_live_at entry.cap (cell_of t entry.cap.target)) unknown
    >>= λ _. ok entry

unfoldable pub resolve : CapTable → ℕ → ℕ → ℕ → Result CapError Capability
unfolding check_entry
resolve t id holder required = ensure (not (id == cap_id_none)) unknown >>= λ _.
    known (get id t.entries) >>= λ entry. check_entry t holder required entry

-- The cell of a target that is a flow.
unfoldable pub flow_cell_of : CapTable → CapTarget → Result CapError ℕ
flow_cell_of t (flow id) = elim (get id t.flow_cells) [ some cell ↦ ok cell | none ↦ err unknown ]
flow_cell_of t native_table = err wrong_target
flow_cell_of t scheduler = err wrong_target

abbrev pub delegated : Result DelegateError Cap → Result CapError Cap
delegated (ok cap) = ok cap
delegated (err source_revoked) = err unknown
delegated (err source_lacks_native) = err insufficient_rights

-- The narrowed capability, before it is entered.
unfoldable pub narrow_at : Cap → ℕ → Option NativeMask → ℕ → Result CapError Cap
unfolding exec_delegate
narrow_at src want_rights want_native cell =
    delegated (exec_delegate src cell want_rights want_native) >>= λ cap.
    ensure (is_valid cap cell) unknown >>= λ _. ok cap

unfoldable pub narrow_entry : CapTable → ℕ → Option NativeMask → Capability → Result CapError Cap
unfolding flow_cell_of narrow_at
narrow_entry t want_rights want_native src =
    flow_cell_of t src.cap.target >>= λ cell. narrow_at src.cap want_rights want_native cell

unfoldable pub narrowed : CapTable → ℕ → ℕ → ℕ → Option NativeMask → Result CapError Cap
unfolding resolve narrow_entry
narrowed t id from_holder want_rights want_native =
    resolve t id from_holder 0 >>= λ src. narrow_entry t want_rights want_native src

abbrev pub granted : Result RuntimeError ℕ × CapTable → Result CapError ℕ × CapTable
granted (r, t) = (from_runtime r, t)

abbrev pub grant_narrowed :
    Draws → CapTable → ℕ → Result CapError Cap → Result CapError ℕ × CapTable
grant_narrowed draws t holder (ok cap) = granted (grant draws t holder cap)
grant_narrowed draws t holder (err e) = (err e, t)

unfoldable pub attenuate :
    Draws → CapTable → ℕ → ℕ → ℕ → ℕ → Option NativeMask → Result CapError ℕ × CapTable
unfolding narrowed
attenuate draws t id from_holder to_holder want_rights want_native =
    grant_narrowed draws t to_holder (narrowed t id from_holder want_rights want_native)

abbrev pub delegate_as :
    Draws → CapTable → ℕ → ℕ → ℕ → Result CapError Capability → Result CapError ℕ × CapTable
delegate_as draws t id from_holder to_holder (ok src) =
    attenuate draws t id from_holder to_holder src.cap.rights src.cap.native_mask
delegate_as draws t id from_holder to_holder (err e) = (err e, t)

unfoldable pub delegate : Draws → CapTable → ℕ → ℕ → ℕ → Result CapError ℕ × CapTable
unfolding attenuate
delegate draws t id from_holder to_holder =
    delegate_as draws t id from_holder to_holder (resolve t id from_holder 0)

abbrev pub reissue :
    Draws → CapTable → ℕ → Result CapError Capability → Result CapError ℕ × CapTable
reissue draws t holder (ok entry) =
    granted (grant draws t holder (narrow entry.cap entry.cap.rights entry.cap.native_mask))
reissue draws t holder (err e) = (err e, t)

unfoldable pub reissue_for : Draws → CapTable → ℕ → ℕ → Result CapError ℕ × CapTable
unfolding lookup
reissue_for draws t id new_holder = reissue draws t new_holder (known (lookup t id))

-- Whether an entry is neither held by a flow nor addresses it, and the same for an index entry.
unfoldable pub is_unrelated : ℕ → ℕ → Capability → Bool
is_unrelated id _ entry = not (entry.holder == id) && not (is_flow entry.cap.target id)

unfoldable pub is_other_pair : ℕ → ℕ × ℕ → ℕ → Bool
is_other_pair id (holder, to) _ = not (holder == id) && not (to == id)

-- The counter of the flow's cell, bumped: other holders of the cell see it, the table drops it.
unfoldable pub bumped : Option ℕ → Option ℕ
bumped none = none
bumped (some cell) = some (revoke cell)

unfoldable pub revoke_flow : CapTable → ℕ → ℕ × Option ℕ × CapTable
unfolding is_unrelated is_other_pair bumped
revoke_flow t id =
    let kept = retain (is_unrelated id) t.entries in
    (
      length t.entries - length kept,
      bumped (get id t.flow_cells),
      record t {
        entries = kept;
        flow_cells = remove id t.flow_cells;
        reply_index = retain (is_other_pair id) t.reply_index;
      },
    )
