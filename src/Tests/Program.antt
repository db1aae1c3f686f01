-- ===== src/Tests/Program.antt =====
-- A small program: the main function doubles a constant by a call.
use bytecode_vm.Prelude.{◌+◌, true, false, none, [], ◌∷◌}
use bytecode_vm.Prelude.Int.{ltb_ℤ, leb_ℤ, i64_val}
use bytecode_vm.Bytecode.Opcode.{Opcode}
use bytecode_vm.Bytecode.Value.{Value}
use bytecode_vm.Bytecode.Chunk.{Chunk, Instruction, a_imm, abc}
use bytecode_vm.Vm.Machine.{Frame, Vm, Host}
use bytecode_vm.Vm.Native.{NativeGate}

abbrev pub call_double : Instruction
call_double = record { op = Opcode.call; a = 0; b = 1; c = 0; imm = 1 }

abbrev pub doubling : Chunk
doubling = record {
  name = b'd' ∷ [];
  constants = Value.int 5 ∷ Value.str (b'h' ∷ b'i' ∷ []) ∷ [];
  code =
      a_imm Opcode.load_const 0 0
      ∷ call_double
      ∷ abc Opcode.return 0 0 0
      ∷ a_imm Opcode.load_imm 1 2
      ∷ abc Opcode.mul 0 0 1
      ∷ abc Opcode.return 0 0 0
      ∷ [];
  functions =
      record { name = b'm' ∷ []; entry = 0; arity = 0; num_registers = 2 }
      ∷ record { name = b'd' ∷ []; entry = 3; arity = 1; num_registers = 2 }
      ∷ [];
}

-- Floats of the test host are compared and combined as numbers.
abbrev pub host : Host
host = record {
  float_add = λ x y. x + y;
  float_sub = λ x y. x;
  float_mul = λ x y. x + y;
  float_div = λ x y. x;
  float_neg = λ x. x;
  float_eq = λ x y. true;
  float_lt = λ x y. ltb_ℤ (i64_val x) (i64_val y);
  float_le = λ x y. leb_ℤ (i64_val x) (i64_val y);
  int_to_float = λ x. x;
  same_arc = λ n. false;
  overflow_checks = true;
}

abbrev pub closed_gate : NativeGate
closed_gate = record {
  has_native = false;
  mask = [];
  authority_epoch = 0;
  flow_cell = 0;
  native_epoch = 0;
  native_cell = 0;
}

abbrev pub main_frame : Frame
main_frame = record {
  function = 0;
  pc = 0;
  registers = Value.unit ∷ Value.unit ∷ [];
  dest_reg = none;
}

abbrev pub machine : Vm
machine = record {
  chunk = doubling;
  natives = [];
  native_gate = closed_gate;
  frames = main_frame ∷ [];
  instructions_executed = 0;
  next_request_id = 1;
  quota = none;
}
