-- ===== src/Bytecode/Builder/Emit.antt =====
-- The emission of each instruction, one function for each.
use bytecode_vm.Prelude.{ℕ, [], ◌∷◌, ◌++◌}
use bytecode_vm.Bytecode.Opcode.{Opcode}
use bytecode_vm.Bytecode.Cap.{bits_u8, flow_rights}
use bytecode_vm.Bytecode.Chunk.{nullary, abc, a_imm, only_imm}
use bytecode_vm.Bytecode.Builder.{ChunkBuilder, emit}

unfoldable pub emit_halt : ChunkBuilder → ChunkBuilder
unfolding emit
emit_halt b = (emit (nullary Opcode.halt) b).1

unfoldable pub emit_load_const : ℕ → ℕ → ChunkBuilder → ChunkBuilder
unfolding emit
emit_load_const dst konst b =
    (emit (record { op = Opcode.load_const; a = dst; b = 0; c = 0; imm = konst }) b).1

unfoldable pub emit_load_imm : ℕ → ℕ → ChunkBuilder → ChunkBuilder
unfolding emit
emit_load_imm dst imm b = (emit (a_imm Opcode.load_imm dst imm) b).1

unfoldable pub emit_move : ℕ → ℕ → ChunkBuilder → ChunkBuilder
unfolding emit
emit_move dst src b = (emit (abc Opcode.move dst src 0) b).1

unfoldable pub emit_binop : Opcode → ℕ → ℕ → ℕ → ChunkBuilder → ChunkBuilder
unfolding emit
emit_binop op dst lhs rhs b = (emit (abc op dst lhs rhs) b).1

unfoldable pub emit_neg : ℕ → ℕ → ChunkBuilder → ChunkBuilder
unfolding emit
emit_neg dst src b = (emit (abc Opcode.neg dst src 0) b).1

-- The instruction of a jump waits for its label.
unfoldable pub awaiting : ℕ → ℕ × ChunkBuilder → ChunkBuilder
awaiting label (idx, b) = record b { pending_jumps = b.pending_jumps ++ (idx, label) ∷ [] }

unfoldable pub emit_jump : ℕ → ChunkBuilder → ChunkBuilder
unfolding awaiting emit
emit_jump label b = awaiting label (emit (only_imm Opcode.jump 0) b)

unfoldable pub emit_branch : ℕ → ℕ → ChunkBuilder → ChunkBuilder
unfolding awaiting emit
emit_branch cond label b = awaiting label (emit (a_imm Opcode.branch cond 0) b)

unfoldable pub emit_spawn_with_rights : ℕ → ℕ → ℕ → ℕ → ChunkBuilder → ChunkBuilder
unfolding emit
emit_spawn_with_rights dst function argc rights b =
    (emit (record { op = Opcode.spawn; a = dst; b = argc; c = bits_u8 rights; imm = function }) b).1

unfoldable pub emit_spawn : ℕ → ℕ → ℕ → ChunkBuilder → ChunkBuilder
unfolding emit_spawn_with_rights
emit_spawn dst function argc b = emit_spawn_with_rights dst function argc flow_rights b

unfoldable pub emit_delegate : ℕ → ℕ → ℕ → ChunkBuilder → ChunkBuilder
unfolding emit
emit_delegate dst src_cap rights b =
    (emit (record { op = Opcode.delegate; a = dst; b = src_cap; c = 255; imm = rights }) b).1

unfoldable pub emit_yield : ChunkBuilder → ChunkBuilder
unfolding emit
emit_yield b = (emit (nullary Opcode.yield) b).1

unfoldable pub emit_sleep : ℕ → ChunkBuilder → ChunkBuilder
unfolding emit
emit_sleep millis_reg b = (emit (abc Opcode.sleep millis_reg 0 0) b).1

unfoldable pub emit_exit : ℕ → ChunkBuilder → ChunkBuilder
unfolding emit
emit_exit reg b = (emit (abc Opcode.exit reg 0 0) b).1

unfoldable pub emit_self_pid : ℕ → ChunkBuilder → ChunkBuilder
unfolding emit
emit_self_pid dst b = (emit (abc Opcode.self_pid dst 0 0) b).1

unfoldable pub emit_fresh_request_id : ℕ → ChunkBuilder → ChunkBuilder
unfolding emit
emit_fresh_request_id dst b = (emit (abc Opcode.fresh_request_id dst 0 0) b).1

unfoldable pub emit_send : ℕ → ℕ → ChunkBuilder → ChunkBuilder
unfolding emit
emit_send target_cap_reg msg_reg b = (emit (abc Opcode.send target_cap_reg msg_reg 0) b).1

unfoldable pub emit_receive : ℕ → ChunkBuilder → ChunkBuilder
unfolding emit
emit_receive dst b = (emit (abc Opcode.receive dst 0 0) b).1

unfoldable pub emit_receive_timeout : ℕ → ℕ → ChunkBuilder → ChunkBuilder
unfolding emit
emit_receive_timeout dst millis_reg b = (emit (abc Opcode.receive_timeout dst millis_reg 0) b).1

unfoldable pub emit_receive_match : ℕ → ℕ → ChunkBuilder → ChunkBuilder
unfolding emit
emit_receive_match dst tag_reg b = (emit (abc Opcode.receive_match dst tag_reg 0) b).1

unfoldable pub emit_receive_match_imm : ℕ → ℕ → ChunkBuilder → ChunkBuilder
unfolding emit
emit_receive_match_imm dst tag b = (emit (a_imm Opcode.receive_match_imm dst tag) b).1

unfoldable pub emit_receive_match_corr : ℕ → ℕ → ℕ → ChunkBuilder → ChunkBuilder
unfolding emit
emit_receive_match_corr dst tag_reg id_reg b =
    (emit (abc Opcode.receive_match_corr dst tag_reg id_reg) b).1

unfoldable pub emit_receive_match_corr_imm : ℕ → ℕ → ℕ → ChunkBuilder → ChunkBuilder
unfolding emit
emit_receive_match_corr_imm dst tag id_reg b =
    (emit (record { op = Opcode.receive_match_corr_imm; a = dst; b = id_reg; c = 0; imm = tag })
      b).1

unfoldable pub emit_ask : ℕ → ℕ → ℕ → ChunkBuilder → ChunkBuilder
unfolding emit
emit_ask dest target_cap_reg msg_reg b = (emit (abc Opcode.ask dest target_cap_reg msg_reg) b).1

unfoldable pub emit_ask_timeout : ℕ → ℕ → ℕ → ℕ → ChunkBuilder → ChunkBuilder
unfolding emit
emit_ask_timeout dest target_cap_reg msg_reg millis_reg b =
    (emit
      (record {
        op = Opcode.ask_timeout;
        a = dest;
        b = target_cap_reg;
        c = msg_reg;
        imm = millis_reg;
      })
      b).1

unfoldable pub emit_monitor : ℕ → ℕ → ChunkBuilder → ChunkBuilder
unfolding emit
emit_monitor dest target_cap_reg b = (emit (abc Opcode.monitor dest target_cap_reg 0) b).1

unfoldable pub emit_demonitor : ℕ → ChunkBuilder → ChunkBuilder
unfolding emit
emit_demonitor monitor_reg b = (emit (abc Opcode.demonitor monitor_reg 0 0) b).1

unfoldable pub emit_link : ℕ → ℕ → ChunkBuilder → ChunkBuilder
unfolding emit
emit_link dest target_cap_reg b = (emit (abc Opcode.link dest target_cap_reg 0) b).1

unfoldable pub emit_unlink : ℕ → ChunkBuilder → ChunkBuilder
unfolding emit
emit_unlink link_reg b = (emit (abc Opcode.unlink link_reg 0 0) b).1

unfoldable pub emit_register_name : ℕ → ChunkBuilder → ChunkBuilder
unfolding emit
emit_register_name name_reg b = (emit (abc Opcode.register_name name_reg 0 0) b).1

unfoldable pub emit_whereis : ℕ → ℕ → ChunkBuilder → ChunkBuilder
unfolding emit
emit_whereis dst name_reg b = (emit (abc Opcode.whereis dst name_reg 0) b).1

unfoldable pub emit_trap : ℕ → ChunkBuilder → ChunkBuilder
unfolding emit
emit_trap code b = (emit (only_imm Opcode.trap code) b).1

unfoldable pub emit_call : ℕ → ℕ → ℕ → ChunkBuilder → ChunkBuilder
unfolding emit
emit_call dst function argc b =
    (emit (record { op = Opcode.call; a = dst; b = argc; c = 0; imm = function }) b).1

unfoldable pub emit_call_native : ℕ → ℕ → ℕ → ChunkBuilder → ChunkBuilder
unfolding emit
emit_call_native dst native_index argc b =
    (emit (record { op = Opcode.call_native; a = dst; b = argc; c = 0; imm = native_index }) b).1

-- A copy of the argument, which the call overwrites.
unfoldable pub emit_native1_from : ℕ → ℕ → ℕ → ChunkBuilder → ChunkBuilder
unfolding emit_move emit_call_native
emit_native1_from dst src native_index b = emit_call_native dst native_index 1 (emit_move dst src b)

unfoldable pub emit_native_n : ℕ → ℕ → ℕ → ChunkBuilder → ChunkBuilder
unfolding emit_call_native
emit_native_n base native_index argc b = emit_call_native base native_index argc b

unfoldable pub emit_return : ℕ → ChunkBuilder → ChunkBuilder
unfolding emit
emit_return reg b = (emit (abc Opcode.return reg 0 0) b).1
