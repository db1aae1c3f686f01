-- ===== src/Tests/Hops.antt =====
-- A hop that passes a capability on, as it is stamped.
use bytecode_vm.Prelude.{ℕ, refl, none, some, [], ◌∷◌}
use bytecode_vm.Prelude.Maps.{nat_key, get, insert}
use bytecode_vm.Prelude.Result.{Result}
use bytecode_vm.Bytecode.Value.{Value, Message}
use bytecode_vm.Bytecode.Cap.{flow, send_right, contains, attenuate}
use bytecode_vm.Vm.Registers.{fresh_id}
use bytecode_vm.Scheduler.CapTable.{
  CapTable, CapError, Draws, delegate, mint_or_reuse, insert_fresh, insert_within,
}
use bytecode_vm.Scheduler.Outgoing.{authenticate_outgoing_message}
use bytecode_vm.Scheduler.Outgoing.Authentic.{
  IsAuthentic, authenticate_outgoing_message-IsAuthentic,
}

-- Flow 1 may send to flow 3 by the token 11.
abbrev held : CapTable
held = record {
  entries =
      (
        11,
        record {
          holder = 1;
          cap = record { target = flow 3; rights = send_right; native_mask = none; epoch = 0 };
        },
      )
      ∷ [];
  flow_cells = (1, 0) ∷ (2, 0) ∷ (3, 0) ∷ [];
  reply_index = [];
  native_cell = 0;
  scheduler_cell = 0;
}

draws_of : ℕ → Draws
draws_of token i = some token

-- It forges its sender and its reply capability.
abbrev forged : Message
forged = (record { sender = 9; reply_cap = 11; request_id = 0; tag = 4 }, Value.cap 11)

abbrev stamped : Message
stamped = (record { sender = 1; reply_cap = 22; request_id = 5; tag = 4 }, Value.cap 21)

outcome : Result CapError Message × CapTable × ℕ
outcome = authenticate_outgoing_message (draws_of 21) (draws_of 22) held 1 2 forged 5

authenticate_outgoing_message-IsAuthentic_example : IsAuthentic outcome.1 1 2 stamped
unfolding outcome draws_of authenticate_outgoing_message delegate mint_or_reuse get contains
    fresh_id attenuate insert_fresh insert_within insert
authenticate_outgoing_message-IsAuthentic_example =
    authenticate_outgoing_message-IsAuthentic (draws_of 21) (draws_of 22) held outcome.1 1 2 5 6
      forged stamped refl refl
