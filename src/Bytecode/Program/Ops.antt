-- ===== src/Bytecode/Program/Ops.antt =====
-- The operations of `Fn` that emit one instruction, most of them into a new local.
use bytecode_vm.Prelude.{ℕ}
use bytecode_vm.Bytecode.Opcode.{Opcode}
use bytecode_vm.Bytecode.Cap.{flow_rights}
use bytecode_vm.Bytecode.Builder.{bind_label}
use bytecode_vm.Bytecode.Builder.Emit.{
  emit_ask, emit_ask_timeout, emit_branch, emit_call, emit_call_native, emit_delegate,
  emit_demonitor, emit_exit, emit_fresh_request_id, emit_halt, emit_jump, emit_link, emit_monitor,
  emit_native1_from, emit_native_n, emit_neg, emit_receive, emit_receive_match,
  emit_receive_match_corr, emit_receive_match_corr_imm, emit_receive_match_imm,
  emit_receive_timeout, emit_register_name, emit_return, emit_self_pid, emit_send, emit_sleep,
  emit_spawn, emit_spawn_with_rights, emit_trap, emit_unlink, emit_whereis, emit_yield,
}
use bytecode_vm.Bytecode.Program.{Fn, on_builder, into_local, binop, binop_imm}

unfoldable pub add : ℕ → ℕ → Fn → ℕ × Fn
unfolding binop
add lhs rhs f = binop Opcode.add lhs rhs f

unfoldable pub sub : ℕ → ℕ → Fn → ℕ × Fn
unfolding binop
sub lhs rhs f = binop Opcode.sub lhs rhs f

unfoldable pub mul : ℕ → ℕ → Fn → ℕ × Fn
unfolding binop
mul lhs rhs f = binop Opcode.mul lhs rhs f

unfoldable pub div : ℕ → ℕ → Fn → ℕ × Fn
unfolding binop
div lhs rhs f = binop Opcode.div lhs rhs f

unfoldable pub modulo : ℕ → ℕ → Fn → ℕ × Fn
unfolding binop
modulo lhs rhs f = binop Opcode.modulo lhs rhs f

unfoldable pub eq : ℕ → ℕ → Fn → ℕ × Fn
unfolding binop
eq lhs rhs f = binop Opcode.eq lhs rhs f

unfoldable pub lt : ℕ → ℕ → Fn → ℕ × Fn
unfolding binop
lt lhs rhs f = binop Opcode.lt lhs rhs f

unfoldable pub le : ℕ → ℕ → Fn → ℕ × Fn
unfolding binop
le lhs rhs f = binop Opcode.le lhs rhs f

unfoldable pub neg : ℕ → Fn → ℕ × Fn
unfolding into_local
neg src f = into_local (λ dst. emit_neg dst src) f

unfoldable pub eq_imm : ℕ → ℕ → Fn → ℕ × Fn
unfolding binop_imm
eq_imm lhs imm f = binop_imm Opcode.eq lhs imm f

unfoldable pub bind : ℕ → Fn → Fn
bind target f = on_builder (bind_label target) f

unfoldable pub jump : ℕ → Fn → Fn
jump target f = on_builder (emit_jump target) f

unfoldable pub branch_if_falsy : ℕ → ℕ → Fn → Fn
branch_if_falsy cond target f = on_builder (emit_branch cond target) f

unfoldable pub return_ : ℕ → Fn → Fn
return_ value f = on_builder (emit_return value) f

unfoldable pub call : ℕ → ℕ → Fn → ℕ × Fn
unfolding into_local
call function argc f = into_local (λ dst. emit_call dst function argc) f

unfoldable pub halt : Fn → Fn
halt f = on_builder (emit_halt) f

unfoldable pub yield_ : Fn → Fn
yield_ f = on_builder (emit_yield) f

unfoldable pub sleep : ℕ → Fn → Fn
sleep millis f = on_builder (emit_sleep millis) f

unfoldable pub exit : ℕ → Fn → Fn
exit reg f = on_builder (emit_exit reg) f

unfoldable pub self_cap : Fn → ℕ × Fn
unfolding into_local
self_cap f = into_local (λ dst. emit_self_pid dst) f

unfoldable pub self_address : Fn → ℕ × Fn
unfolding self_cap
self_address f = self_cap f

unfoldable pub spawn_with_rights : ℕ → ℕ → ℕ → Fn → ℕ × Fn
unfolding into_local
spawn_with_rights function argc rights f =
    into_local (λ dst. emit_spawn_with_rights dst function argc rights) f

unfoldable pub spawn : ℕ → ℕ → Fn → ℕ × Fn
unfolding spawn_with_rights
spawn function argc f = spawn_with_rights function argc flow_rights f

-- `CapRights::NONE`
unfoldable pub spawn_confined : ℕ → ℕ → Fn → ℕ × Fn
unfolding spawn_with_rights
spawn_confined function argc f = spawn_with_rights function argc 0 f

unfoldable pub spawn_at : ℕ → ℕ → ℕ → Fn → Fn
spawn_at dst function argc f = on_builder (emit_spawn dst function argc) f

unfoldable pub delegate : ℕ → ℕ → Fn → ℕ × Fn
unfolding into_local
delegate src rights f = into_local (λ dst. emit_delegate dst src rights) f

unfoldable pub send : ℕ → ℕ → Fn → Fn
send target_cap msg f = on_builder (emit_send target_cap msg) f

unfoldable pub receive : Fn → ℕ × Fn
unfolding into_local
receive f = into_local (λ dst. emit_receive dst) f

unfoldable pub receive_timeout : ℕ → Fn → ℕ × Fn
unfolding into_local
receive_timeout millis f = into_local (λ dst. emit_receive_timeout dst millis) f

unfoldable pub receive_match : ℕ → Fn → ℕ × Fn
unfolding into_local
receive_match tag f = into_local (λ dst. emit_receive_match dst tag) f

unfoldable pub receive_match_imm : ℕ → Fn → ℕ × Fn
unfolding into_local
receive_match_imm tag f = into_local (λ dst. emit_receive_match_imm dst tag) f

unfoldable pub fresh_request_id : Fn → ℕ × Fn
unfolding into_local
fresh_request_id f = into_local (λ dst. emit_fresh_request_id dst) f

unfoldable pub receive_match_corr : ℕ → ℕ → Fn → ℕ × Fn
unfolding into_local
receive_match_corr tag request_id f =
    into_local (λ dst. emit_receive_match_corr dst tag request_id) f

unfoldable pub receive_match_corr_imm : ℕ → ℕ → Fn → ℕ × Fn
unfolding into_local
receive_match_corr_imm tag request_id f =
    into_local (λ dst. emit_receive_match_corr_imm dst tag request_id) f

unfoldable pub ask : ℕ → ℕ → Fn → ℕ × Fn
unfolding into_local
ask target_cap msg f = into_local (λ dst. emit_ask dst target_cap msg) f

unfoldable pub ask_timeout : ℕ → ℕ → ℕ → Fn → ℕ × Fn
unfolding into_local
ask_timeout target_cap msg millis f =
    into_local (λ dst. emit_ask_timeout dst target_cap msg millis) f

unfoldable pub monitor : ℕ → Fn → ℕ × Fn
unfolding into_local
monitor target_cap f = into_local (λ dst. emit_monitor dst target_cap) f

unfoldable pub demonitor : ℕ → Fn → Fn
demonitor monitor_reg f = on_builder (emit_demonitor monitor_reg) f

unfoldable pub link : ℕ → Fn → ℕ × Fn
unfolding into_local
link target_cap f = into_local (λ dst. emit_link dst target_cap) f

unfoldable pub unlink : ℕ → Fn → Fn
unlink link_reg f = on_builder (emit_unlink link_reg) f

unfoldable pub register_name : ℕ → Fn → Fn
register_name name f = on_builder (emit_register_name name) f

unfoldable pub whereis : ℕ → Fn → ℕ × Fn
unfolding into_local
whereis name f = into_local (λ dst. emit_whereis dst name) f

unfoldable pub trap : ℕ → Fn → Fn
trap code f = on_builder (emit_trap code) f

unfoldable pub native1_from : ℕ → ℕ → Fn → ℕ × Fn
unfolding into_local
native1_from src native f = into_local (λ dst. emit_native1_from dst src native) f

unfoldable pub native1_on : ℕ → ℕ → Fn → Fn
unfolding native1_from
native1_on src native f = (native1_from src native f).1

unfoldable pub native_n : ℕ → ℕ → ℕ → Fn → Fn
native_n base native argc f = on_builder (emit_native_n base native argc) f

unfoldable pub call_native : ℕ → ℕ → ℕ → Fn → Fn
unfolding native_n
call_native base native argc f = native_n base native argc f

unfoldable pub call_native0 : ℕ → Fn → ℕ × Fn
unfolding into_local
call_native0 native f = into_local (λ dst. emit_call_native dst native 0) f
