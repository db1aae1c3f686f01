-- ===== src/Scheduler/Outgoing.antt =====
-- scheduler/worker.rs: what the scheduler stamps on a hop before it is pushed.
--
-- Of the shared state, the capability table; of the sender's machine, the counter of its request
-- ids. The payload of a message is one value, so at most one capability is passed on, with the
-- tokens `draws`; the reply capability has tokens of its own.
pub mod Authentic
use bytecode_vm.Prelude.{ℕ, ◌+◌, ◌%◌, ◌==◌, if◌then◌else◌, Option, none, some, refl}
use bytecode_vm.Prelude.Int.{u64_mod}
use bytecode_vm.Prelude.Result.{Result, ok, err, ◌>>=◌}
use bytecode_vm.Bytecode.Value.{Value, Header, Message, cap_id_none, authenticate}
use bytecode_vm.Bytecode.Cap.{send_right}
use bytecode_vm.Vm.Registers.{fresh_id}
use bytecode_vm.Scheduler.Error.{RuntimeError}
use bytecode_vm.Scheduler.Mailbox.Queue.{WaitFilter, any, tagged, correlation, tagged_correlation}
use bytecode_vm.Scheduler.CapTable.{
  Capability, CapError, unavailable, wrong_target, CapTable, Draws, target, resolve, delegate,
  reissue_for, mint_or_reuse,
}

abbrev pub as_cap_value : Result CapError ℕ × CapTable → Result CapError Value × CapTable
as_cap_value (ok id, t) = (ok (Value.cap id), t)
as_cap_value (err e, t) = (err e, t)

abbrev pub in_message : Header → Result CapError Value × CapTable → Result CapError Value × CapTable
in_message h (ok payload, t) = (ok (Value.message h payload), t)
in_message h (err e, t) = (err e, t)

unfoldable pub reissue_caps_in_value :
    Draws → CapTable → ℕ → ℕ → Value → Result CapError Value × CapTable
reissue_caps_in_value draws t sender recipient (Value.cap id) =
    if id == cap_id_none
    then (ok (Value.cap id), t)
    else as_cap_value (delegate draws t id sender recipient)
reissue_caps_in_value draws t sender recipient (Value.message h payload) =
    in_message h (reissue_caps_in_value draws t sender recipient payload)
reissue_caps_in_value draws t sender recipient other = (ok other, t)

unfoldable pub reissue_caps_from_host :
    Draws → CapTable → ℕ → Value → Result CapError Value × CapTable
reissue_caps_from_host draws t recipient (Value.cap id) =
    if id == cap_id_none
    then (ok (Value.cap id), t)
    else as_cap_value (reissue_for draws t id recipient)
reissue_caps_from_host draws t recipient (Value.message h payload) =
    in_message h (reissue_caps_from_host draws t recipient payload)
reissue_caps_from_host draws t recipient other = (ok other, t)

-- The id that the sender chose, or a fresh one.
abbrev pub request_id_or : ℕ → ℕ → ℕ × ℕ
request_id_or request_id next = if request_id == 0 then fresh_id next else (request_id, next)

abbrev pub with_reply :
    ℕ → Message → Result RuntimeError ℕ × CapTable → Result CapError Message × CapTable
with_reply sender m (ok reply, t) = (ok (authenticate m sender reply), t)
with_reply sender m (err e, t) = (err unavailable, t)

abbrev pub with_payload :
    Draws → ℕ → ℕ → Header → Result CapError Value × CapTable → Result CapError Message × CapTable
with_payload draws sender recipient h (ok payload, t) =
    with_reply sender (h, payload) (mint_or_reuse draws t recipient sender send_right)
with_payload draws sender recipient h (err e, t) = (err e, t)

-- The stamped message, the table after it, and the counter of the sender's machine.
unfoldable pub authenticate_outgoing_message :
    Draws → Draws → CapTable → ℕ → ℕ → Message → ℕ → Result CapError Message × CapTable × ℕ
unfolding reissue_caps_in_value authenticate
authenticate_outgoing_message draws reply_draws t sender recipient (h, payload) next =
    let (request_id, next_id) = request_id_or h.request_id next in
    let (r, after) =
      with_payload reply_draws sender recipient (record h { request_id = request_id })
        (reissue_caps_in_value draws t sender recipient payload) in
    (r, after, next_id)

abbrev pub host_id : ℕ
host_id = 0

-- The id that the host chose, or the next of the host's counter, which wraps, and then 1 for 0.
abbrev pub host_request_id_or : ℕ → ℕ → ℕ × ℕ
host_request_id_or request_id next =
    if request_id == 0
    then ((if next == 0 then 1 else next), (next + 1) % u64_mod)
    else (request_id, next)

abbrev pub from_host :
    Header → Result CapError Value × CapTable → Result CapError Message × CapTable
from_host h (ok payload, t) = (ok (authenticate (h, payload) host_id cap_id_none), t)
from_host h (err e, t) = (err e, t)

unfoldable pub authenticate_host_outgoing_message :
    Draws → CapTable → ℕ → Message → ℕ → Result CapError Message × CapTable × ℕ
unfolding reissue_caps_from_host authenticate
authenticate_host_outgoing_message draws t recipient (h, payload) next =
    let (request_id, next_id) = host_request_id_or h.request_id next in
    let (r, after) =
      from_host (record h { request_id = request_id })
        (reissue_caps_from_host draws t recipient payload) in
    (r, after, next_id)

unfoldable pub receive_filter : Option ℕ → Option ℕ → WaitFilter
receive_filter (some tag) (some rid) = tagged_correlation tag rid
receive_filter (some tag) none = tagged tag
receive_filter none (some rid) = correlation rid none
receive_filter none none = any

abbrev pub held_target : Option ℕ → Result CapError ℕ
held_target (some id) = ok id
held_target none = err wrong_target

unfoldable pub resolve_cap_held : CapTable → ℕ → ℕ → ℕ → Result CapError ℕ
unfolding target
resolve_cap_held t id holder need = resolve t id holder need >>= λ entry. held_target (target entry)
