-- ===== src/Tests/Tables.antt =====
-- The tables of the runtime on small contents.
use bytecode_vm.Prelude.{ℕ, ◌+◌, ◌≤◌, ◌≡◌, ◌≢◌, ◌↔◌, ◌⊎◌, refl, none, some, [], ◌∷◌, false, true}
use bytecode_vm.Prelude.Maps.{nat_key, pair_key, get, insert, remove, HasDistinctKeys}
use bytecode_vm.Prelude.Result.{ok, err, Result}
use bytecode_vm.Bytecode.Cap.{flow, is_valid, contains, send_right, intersect, attenuate as narrow}
use bytecode_vm.Scheduler.Delegate.{exec_delegate}
use bytecode_vm.Scheduler.Error.{RuntimeError, already_collected}
use bytecode_vm.Scheduler.CapTable.{
  Capability, CapTable, Draws, new, bind_flow, grant, insert_fresh, insert_within, mint,
  mint_or_reuse, reuse, mint_reply, delegate, attenuate, narrowed, narrow_entry, narrow_at,
  flow_cell_of, check_entry, cell_of, resolve, revoke_flow,
}
use bytecode_vm.Scheduler.CapTable.Resolve.{Resolves, resolve-eq-ok, revoke_flow-resolve}
use bytecode_vm.Scheduler.CapTable.Confined.{IsConfined, here, delegated_on, Derives-IsConfined}
use bytecode_vm.Scheduler.CapTable.Reply.{mint_or_reuse-stable}
use bytecode_vm.Scheduler.CapTable.Sound.{IsSound}
use bytecode_vm.Scheduler.CapTable.Reach.{started, minted, replied, revoked, reached_table-IsSound}
use bytecode_vm.Scheduler.Oneshot.{
  Slot, JoinState, returned, oneshot_name, Channel, channel, joined, send, try_join, collect, turn,
  join_timeout, drop_sender,
}
use bytecode_vm.Scheduler.Oneshot.Delivery.{
  Reaches, here as at_start, then_step, joins, drops, polls, wakes, joiner_wakes, Answers,
  turn-returns,
}
use bytecode_vm.Scheduler.Oneshot.Once.{gains, handed, send-collected_once}

-- The system draws the token 50 each time.
fifty : Draws
fifty i = some 50

-- Flow 1 may send to flow 2.
one_to_two : Capability
one_to_two = record {
  holder = 1;
  cap = record { target = flow 2; rights = send_right; native_mask = none; epoch = 0 };
}

small_table : CapTable
unfolding one_to_two
small_table = record {
  entries = (40, one_to_two) ∷ [];
  flow_cells = (2, 0) ∷ [];
  reply_index = [];
  native_cell = 0;
  scheduler_cell = 0;
}

small_table-distinct : HasDistinctKeys small_table.entries
unfolding HasDistinctKeys get small_table
small_table-distinct = (refl, tt)

resolve-eq-ok_example :
    (resolve small_table 40 1 send_right ≡ ok one_to_two)
    ↔ Resolves small_table 40 1 send_right one_to_two
resolve-eq-ok_example = resolve-eq-ok small_table 40 1 send_right one_to_two

revoke_flow-resolve_example :
    (resolve (revoke_flow small_table 3).2 40 1 send_right ≡ ok one_to_two) ↔ (
      (resolve small_table 40 1 send_right ≡ ok one_to_two)
      × (one_to_two.holder ≢ 3)
      × (one_to_two.cap.target ≢ flow 3))
revoke_flow-resolve_example =
    revoke_flow-resolve small_table 3 40 1 send_right one_to_two small_table-distinct

-- Flow 1 hands its capability on to flow 5.
Derives-IsConfined_example : IsConfined small_table (delegate fifty small_table 40 1 5).1
Derives-IsConfined_example =
    Derives-IsConfined small_table _ small_table-distinct (delegated_on here fifty 40 1 5)

handed_on : (delegate fifty small_table 40 1 5).0 ≡ ok 50
unfolding delegate attenuate narrowed narrow_entry narrow_at flow_cell_of exec_delegate resolve
    check_entry cell_of contains is_valid grant insert_fresh insert_within get insert remove narrow
    intersect fifty small_table one_to_two
handed_on = refl

replied_table : CapTable
replied_table = (mint_or_reuse fifty small_table 2 1 send_right).1

mint_or_reuse-stable_example :
    ((entry : Capability) × (resolve replied_table 50 2 send_right ≡ ok entry)
      × (entry.cap.target ≡ flow 1))
    × (mint_or_reuse fifty replied_table 2 1 send_right ≡ (ok 50, replied_table))
unfolding replied_table mint_or_reuse reuse mint_reply mint grant insert_fresh insert_within
    bind_flow get insert remove small_table fifty one_to_two
mint_or_reuse-stable_example =
    mint_or_reuse-stable fifty fifty small_table replied_table 2 1 send_right 50 refl refl

reached_table-IsSound_example :
    IsSound
      (revoke_flow (mint_or_reuse fifty (mint fifty new 1 2 send_right).1 2 1 send_right).1 1).2
reached_table-IsSound_example =
    reached_table-IsSound _
      (revoked (replied (minted started fifty 1 2 send_right) fifty 2 1 send_right) 1)

-- A joiner that is asleep with a deadline, and a sender that is dropped.
waiting_joiner : Channel ℕ
waiting_joiner = turn (some 9) 3 channel

left_alone : Channel ℕ
left_alone = drop_sender (record { sent = false }) waiting_joiner

left_alone-reached : Reaches channel left_alone
unfolding left_alone waiting_joiner turn channel
left_alone-reached =
    then_step (then_step at_start (joins (some 9) 3 refl)) (drops (record { sent = false }) refl)

joiner_wakes_example :
    (left_alone.woken ≡ true)
    × (r : Result RuntimeError ℕ) × ((turn (some 9) 4 left_alone).joiner ≡ returned (joined r))
unfolding left_alone waiting_joiner turn channel drop_sender
joiner_wakes_example = joiner_wakes left_alone (some 9) 4 left_alone-reached refl refl

turn-returns_example :
    Answers waiting_joiner.slot (some 9) 9 (turn (some 9) 9 waiting_joiner).joiner
    × (((join_timeout 100 4 9 5 waiting_joiner).joiner ≡ returned (ok JoinState.pending))
        ↔ ((waiting_joiner.slot ≡ Slot.pending) × (4 + 5 ≤ 100) × (4 + 5 ≤ 9)))
turn-returns_example = turn-returns (some 9) 100 4 5 9 waiting_joiner

sent_seven : Channel ℕ
sent_seven = send 7 (record { sent = false }) waiting_joiner

-- The joiner wakes, and polls once more.
woken_and_polled : Reaches sent_seven (try_join (turn (some 9) 4 sent_seven)).1
unfolding sent_seven waiting_joiner send drop_sender try_join collect channel turn
woken_and_polled = then_step (then_step at_start (wakes (some 9) 4 refl)) (polls refl)

-- The first of the two hands the value over.
handed_once : handed woken_and_polled ≡ 7 ∷ []
unfolding woken_and_polled handed gains sent_seven waiting_joiner send drop_sender try_join collect
    channel turn
handed_once = refl

send-collected_once_example :
    ((handed woken_and_polled ≡ [])
      × ((try_join (try_join (turn (some 9) 4 sent_seven)).1).0 ≡ ok (JoinState.ready 7)))
    ⊎ ((handed woken_and_polled ≡ 7 ∷ [])
        × ((try_join (try_join (turn (some 9) 4 sent_seven)).1).0
            ≡ err (already_collected oneshot_name)))
unfolding sent_seven
send-collected_once_example =
    send-collected_once waiting_joiner (try_join (turn (some 9) 4 sent_seven)).1 7
      (record { sent = false }) woken_and_polled
