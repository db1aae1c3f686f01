-- ===== src/Bytecode/Program/Hops.antt =====
-- Hops: the operations of `Fn` that call the natives on messages, by their indices in natives.rs.
use bytecode_vm.Prelude.{ℕ}
use bytecode_vm.Bytecode.Program.{Fn, window_at, window, mov, set}
use bytecode_vm.Bytecode.Program.Ops.{fresh_request_id, send, native1_from, native_n}

abbrev pub make_msg_native : ℕ
make_msg_native = 2

abbrev pub msg_sender : ℕ
msg_sender = 3

abbrev pub msg_request_id : ℕ
msg_request_id = 4

abbrev pub msg_tag : ℕ
msg_tag = 5

abbrev pub msg_payload : ℕ
msg_payload = 6

abbrev pub msg_reply_cap : ℕ
msg_reply_cap = 7

-- Three slots in a row: the request id, the tag and the payload.
unfoldable pub make_msg : ℕ → ℕ → ℕ → ℕ → Fn → ℕ × Fn
unfolding window_at window mov set native_n
make_msg native_index request_id tag payload f =
    let (w, f1) = window 3 f in
    let f2 = mov (window_at w 0) request_id f1 in
    let f3 = set (window_at w 1) tag f2 in
    let f4 = mov (window_at w 2) payload f3 in (w.base, native_n w.base native_index 3 f4)

unfoldable pub make_msg_legacy_sender : ℕ → ℕ → ℕ → ℕ → ℕ → Fn → ℕ × Fn
unfolding window_at window mov set native_n
make_msg_legacy_sender native_index sender request_id tag payload f =
    let (w, f1) = window 4 f in
    let f2 = mov (window_at w 0) sender f1 in
    let f3 = mov (window_at w 1) request_id f2 in
    let f4 = set (window_at w 2) tag f3 in
    let f5 = mov (window_at w 3) payload f4 in (w.base, native_n w.base native_index 4 f5)

unfoldable pub hop : ℕ → ℕ → ℕ → Fn → ℕ × Fn
unfolding make_msg
hop request_id tag payload f = make_msg make_msg_native request_id tag payload f

unfoldable pub hop_fresh : ℕ → ℕ → Fn → ℕ × Fn
unfolding fresh_request_id hop
hop_fresh tag payload f = let (req_id, f1) = fresh_request_id f in hop req_id tag payload f1

unfoldable pub hop_sender : ℕ → Fn → ℕ × Fn
unfolding native1_from
hop_sender msg f = native1_from msg msg_sender f

unfoldable pub hop_request_id : ℕ → Fn → ℕ × Fn
unfolding native1_from
hop_request_id msg f = native1_from msg msg_request_id f

unfoldable pub hop_tag : ℕ → Fn → ℕ × Fn
unfolding native1_from
hop_tag msg f = native1_from msg msg_tag f

unfoldable pub hop_payload : ℕ → Fn → ℕ × Fn
unfolding native1_from
hop_payload msg f = native1_from msg msg_payload f

unfoldable pub hop_reply_cap : ℕ → Fn → ℕ × Fn
unfolding native1_from
hop_reply_cap msg f = native1_from msg msg_reply_cap f

unfoldable pub reply_to : ℕ → ℕ → ℕ → Fn → ℕ × Fn
unfolding hop_request_id hop
reply_to req tag payload f = let (req_id, f1) = hop_request_id req f in hop req_id tag payload f1

unfoldable pub send_reply : ℕ → ℕ → ℕ → Fn → Fn
unfolding hop_reply_cap reply_to send
send_reply req tag payload f =
    let (reply_cap, f1) = hop_reply_cap req f in
    let (reply, f2) = reply_to req tag payload f1 in send reply_cap reply f2
