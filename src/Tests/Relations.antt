-- ===== src/Tests/Relations.antt =====
-- Names, monitors, links, supervised children and built chunks, on small contents.
use bytecode_vm.Prelude.{
  ℕ, ◌+◌, ◌-◌, ◌≤◌, ◌≡◌, ◌↔◌, ◌≢◌, refl, none, some, List, [], ◌∷◌, arith, false, true, length,
}
use bytecode_vm.Prelude.Int.{pos}
use bytecode_vm.Prelude.Maps.{nat_key, bytes_key, get, insert, remove, HasDistinctKeys, kept_if}
use bytecode_vm.Bytecode.Opcode.{Opcode}
use bytecode_vm.Bytecode.Chunk.{nullary, only_imm}
use bytecode_vm.Bytecode.Verify.{jump_target}
use bytecode_vm.Bytecode.Builder.{
  ChunkBuilder, new, bind_label, emit, finish, patch_all, patch, jump_imm,
}
use bytecode_vm.Bytecode.Builder.Emit.{emit_jump, awaiting}
use bytecode_vm.Bytecode.Builder.Patch.{landing}
use bytecode_vm.Bytecode.Builder.Jumps.{started, bound, emitted, jumped, finish-lands}
use bytecode_vm.Scheduler.Registry.{whereis, target, cap_of, flow_of, new as new_registry}
use bytecode_vm.Scheduler.Registry.View.{Command, enters, exits, run, run_promised, run-promised}
use bytecode_vm.Scheduler.Monitor.{
  MonitorTable, DownEvent, killed, not_watching, notify_target_exit,
}
use bytecode_vm.Scheduler.Monitor.Reports.{Contains, IsOrdered, IsDue}
use bytecode_vm.Scheduler.Monitor.Order.{notify_target_exit-Contains}
use bytecode_vm.Scheduler.Link.{Link, LinkTable, peers, peer_of, link, remove_links_of}
use bytecode_vm.Scheduler.Link.Pairs.{
  IsSound, linked, started as no_links, links-IsSound, IsBetween, remove_links_of-get,
}
use bytecode_vm.Scheduler.Supervisor.{
  LiveChild, Supervisor, running, failed, new_spec, rest_for_one, cascade_specs, position_from,
  specs_of, later_of, without, check_intensity, intensity_hit, times_at, drop_old, window_start,
  remove_child, handle_exit, insert_child, exited, should_restart, start_cascade, open_cascade,
  mark_all, still_live, finish_cascade, spawn_all, spawn_child, on_cascade_progress,
}
use bytecode_vm.Scheduler.Supervisor.Intensity.{count_since, none_yet, one_more, Restarts-bounded}
use bytecode_vm.Scheduler.Supervisor.Order.{handle_exit-exceeded}

-- Two names, of which one goes with its flow.
two_names : List Command
two_names = enters (b'a' ∷ []) 40 1 ∷ enters (b'b' ∷ []) 41 2 ∷ exits 1 ∷ []

run-promised_example :
    (whereis (b'b' ∷ []) (run two_names new_registry)
      ≡ cap_of (run_promised two_names (λ n. none) (b'b' ∷ [])))
    × (target (b'b' ∷ []) (run two_names new_registry)
        ≡ flow_of (run_promised two_names (λ n. none) (b'b' ∷ [])))
run-promised_example = run-promised two_names (b'b' ∷ [])

-- Flows 1 and 2 watch flow 3, and flow 1 watches flow 2.
watchers : MonitorTable
watchers =
    (8, record { owner = 1; target = 3 })
    ∷ (5, record { owner = 2; target = 3 })
    ∷ (6, record { owner = 1; target = 2 })
    ∷ []

watchers-distinct : HasDistinctKeys watchers
unfolding HasDistinctKeys get watchers
watchers-distinct = (refl, (refl, (refl, tt)))

notify_target_exit-Contains_example :
    ((e : DownEvent)
      → Contains e (notify_target_exit 3 killed watchers).0 ↔ IsDue killed 3 watchers e)
    × IsOrdered (notify_target_exit 3 killed watchers).0
    × ((m : ℕ)
        → get m (notify_target_exit 3 killed watchers).1
          ≡ kept_if (not_watching 3) m (get m watchers))
notify_target_exit-Contains_example =
    notify_target_exit-Contains killed 3 watchers watchers-distinct

links-IsSound_example : IsSound (link 8 2 1 (link 7 1 2 []).1).1
unfolding get link insert
links-IsSound_example = links-IsSound _ (linked (linked no_links 7 1 2 refl) 8 2 1 refl)

one_link : LinkTable
one_link = (7, record { a = 1; b = 2 }) ∷ []

one_link-distinct : HasDistinctKeys one_link
unfolding HasDistinctKeys get one_link
one_link-distinct = (refl, tt)

remove_links_of-get_example :
    HasDistinctKeys (remove_links_of 2 one_link).0
    × ((id peer : ℕ)
        → (get id (remove_links_of 2 one_link).0 ≡ some peer)
          ↔ ((l : Link) × (get id one_link ≡ some l) × IsBetween 2 peer l))
    × ((id : ℕ) (l : Link)
        → (get id (remove_links_of 2 one_link).1 ≡ some l)
          ↔ ((get id one_link ≡ some l) × (l.a ≢ 2) × (l.b ≢ 2)))
remove_links_of-get_example = remove_links_of-get 2 one_link one_link-distinct

-- Flow 2 is the second end of the link.
first_end : (remove_links_of 2 one_link).0 ≡ (7, 1) ∷ []
unfolding remove_links_of peers peer_of one_link
first_end = refl

-- Three children, of which the second fails.
unfoldable pub child : ℕ → LiveChild
child function = record { spec = new_spec [] function; expected_shutdown = false }

unfoldable pub three_rows : List (ℕ × LiveChild)
three_rows = (1, child 10) ∷ (2, child 20) ∷ (3, child 30) ∷ []

unfoldable pub supervisor_of_three : Supervisor
supervisor_of_three = record {
  config = record { max_restarts = 3; max_period = 5; strategy = rest_for_one };
  children = record { by_id = three_rows; order = 1 ∷ 2 ∷ 3 ∷ [] };
  cascade = none;
  restart_times = [];
  intensity_exceeded = false;
  kill_requests = [];
}

Restarts-bounded_example : count_since (9 - 5) (9 ∷ []) ≤ 3
unfolding supervisor_of_three check_intensity intensity_hit times_at drop_old window_start
Restarts-bounded_example =
    Restarts-bounded (9 ∷ []) (check_intensity 9 supervisor_of_three).1 9
      (one_more (none_yet supervisor_of_three refl) 9 (omega arith) (omega arith) refl)

given_up : Supervisor
given_up = record supervisor_of_three { intensity_exceeded = true }

handle_exit-exceeded_example :
    (handle_exit (λ i. running 50) (λ id. true) 9 2 (failed []) given_up).children
    ≡ (remove_child 2 given_up.children).1
unfolding given_up
handle_exit-exceeded_example =
    handle_exit-exceeded (λ i. running 50) (λ id. true) 9 2 (failed []) given_up refl

-- Child 2 fails, and child 1 fails before the siblings of child 2 are down: when child 3 is down, only
-- the first and the third child come back.
second_down : Supervisor
second_down = handle_exit (λ i. running 50) (λ id. true) 9 2 (failed []) supervisor_of_three

both_down : Supervisor
both_down = handle_exit (λ i. running 51) (λ id. true) 10 1 (failed []) second_down

all_back : Supervisor
all_back = handle_exit (λ i. running (60 + i)) (λ id. true) 11 3 (failed []) both_down

only_two_back : all_back.children.order ≡ 60 ∷ 61 ∷ []
unfolding all_back both_down second_down supervisor_of_three three_rows handle_exit remove_child
    without position_from exited should_restart check_intensity intensity_hit times_at drop_old
    window_start start_cascade open_cascade later_of specs_of mark_all cascade_specs still_live
    finish_cascade on_cascade_progress spawn_all spawn_child insert_child get remove insert child
    new_spec
only_two_back = refl

-- A jump over a no-op, to a label that is bound behind it.
label_bound : ChunkBuilder
label_bound = bind_label 0 (emit (nullary Opcode.nop) (emit_jump 0 (new []))).1

finish-lands_example :
    (label : ℕ) × (get 0 label_bound.pending_jumps ≡ some label)
    × (jump_target 0 1 ≡ pos (landing 0 (get label label_bound.label_targets)))
    × (landing 0 (get label label_bound.label_targets) ≤ length (finish label_bound).code)
unfolding label_bound bind_label emit emit_jump awaiting new finish patch_all patch jump_imm get
    insert remove
finish-lands_example =
    finish-lands label_bound 0 (only_imm Opcode.jump 1)
      (bound (emitted (jumped (started []) 0) (nullary Opcode.nop) refl) 0) (omega arith) refl refl
