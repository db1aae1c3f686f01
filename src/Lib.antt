-- ===== src/Lib.antt =====
-- Byteflow, the flow runtime of crates/byteflow: its bytecode, its interpreter, its inboxes and the
-- tables that its scheduler keeps about flows.
--
-- A chunk is assembled or read from bytes, checked by the verifier, and run by a machine, one per
-- flow, in slices of a budget of instructions. A slice ends with a value, a trap, or an effect that
-- the scheduler performs before it resumes the machine. Flows send each other hops, which wait in
-- the bounded inbox of their receiver. What a flow may do is decided by capabilities, which only
-- ever lose authority when they are passed on.
--
-- Files, and the code under crates/byteflow/src that each is about:
--   Bytecode/Opcode    bytecode/opcode.rs: the instruction set (`Mod` is `modulo`).
--   Bytecode/Value     bytecode/value.rs: values and messages. A message is a header and a payload.
--   Bytecode/Chunk     bytecode/chunk.rs and instruction.rs.
--   Bytecode/Utf8      the UTF-8 check that the decoder takes from the standard library, written out.
--   Bytecode/Format    bytecode/format.rs: Write is `encode`, Reader and Decode are `decode_with`;
--                      WellFormed, Values, RoundTrip, Returns and Accepted are about them.
--   Bytecode/Verify    bytecode/verify.rs: `verify_with`; Sound says what it accepts.
--   Bytecode/Cap       bytecode/cap.rs: rights, native masks, capabilities; Attenuate is about them.
--   Bytecode/Builder   bytecode/builder.rs: the assembler, with Emit for the emissions; Patch, Jumps
--                      and Pool are about it.
--   Bytecode/Program   bytecode/program.rs: the builder of programs, with Ops and Hops for the
--                      operations of a function; Locals is about its registers.
--   Vm/Fault           vm/fault.rs, vm/result.rs and the error of a refused native call.
--   Vm/Native          vm/native.rs: the table, its builder and the gate; Gate is about them.
--   Vm/Machine         vm/machine.rs and vm/frame.rs: the state, and how a machine starts.
--   Vm/Monad           computations on the machine: a fault keeps what was changed before it.
--   Vm/Registers       vm/machine.rs: `get_reg`, `set_reg`, `fetch`, `pop_frame`, quota charges,
--                      and request ids, which RequestIds is about.
--   Vm/Arith           vm/machine.rs: `numeric_binop` and the conversions of operands.
--   Vm/Step            vm/machine.rs: `run`. `execute` is the match on the opcode, `round` one
--                      turn of the loop, `run` the loop.
--   Vm/Resume          vm/machine.rs: `set_quota`, `resume_with`, `return_value`.
--   Vm/Safety          the invariant of a machine that runs verified code.
--   Scheduler/Quota    scheduler/quota.rs: the budgets of a flow; Heap and Rates are about them.
--   Scheduler/Spawn    scheduler/spawn.rs: the authority of a new flow; Confined is about it.
--   Scheduler/Mailbox  scheduler/mailbox/mod.rs: the operations of an inbox, each one step, since
--                      each holds the inbox's mutex throughout; Wakeup, Reach and Epoch are about it.
--   Scheduler/Mailbox/Queue  scheduler/mailbox/queue.rs: the bounded queue; Fifo, Bounds and
--                      Overflow are about it.
--   Scheduler/Process  scheduler/process.rs: the fields of a flow that an inbox touches.
--   Scheduler/Error    scheduler/error.rs: the errors of the tables.
--   Scheduler/Delegate scheduler/delegate.rs and link_admin.rs: checks of capabilities.
--   Scheduler/CapTable scheduler/capability.rs: the capability table; Resolve, Grant, Confined,
--                      Reply, Keeps,
--                      Sound and Reach are about it.
--   Scheduler/Outgoing scheduler/worker.rs: what is stamped on a hop, and the capabilities
--                      passed on in it; Authentic is about it.
--   Scheduler/Oneshot  scheduler/oneshot.rs: the hand-over of an outcome; Delivery and Once are about
--                      it.
--   Scheduler/Registry scheduler/registry.rs: names; Agree and View are about it.
--   Scheduler/Monitor  scheduler/monitor.rs: monitors; Reports and Order are about it.
--   Scheduler/Link     scheduler/link.rs: links; Pairs is about it.
--   Scheduler/Supervisor  scheduler/supervisor.rs: the handling of a child's exit; Intensity,
--                      Order, Starts, Drain, Cascades, Failure and Group are about it.
--   Prelude            numbers, lists, bytes, results, binary digits and maps that the parts share; a
--                      `HashMap` is an association list, in Maps.
--   Tests              concrete runs, and concrete instances of the theorems.
--
-- Machine words are bit patterns, kept as numbers below a power of two; wrap-around is written out.
-- Floats are patterns, and their operations, the identity of shared buffers and the compiler's
-- overflow checks are the parameter `Host`. The size of a value in memory is the parameter `size`.
-- Host functions are parameters too: functions from arguments to a value or a fault. The counter
-- of executed instructions wraps at 2 ^ 64. Debug assertions are not modelled; a frame stack that
-- is empty is a fault. A flow's quota is a value in its machine, as no other thread charges it
-- meanwhile. A poisoned mutex is not modelled.
--
-- The tokens that a bucket gains in an elapsed time are the parameter `grow`, as the source
-- computes them with floats. A table behind a lock is a value, and an operation that holds the lock
-- throughout is one step; an operation that takes it several times is run with no other in between.
-- The tokens that the system draws, the numbers of links and monitors, times, what the directory
-- knows and how a spawn ends are arguments.
--
-- The loop of `run` is recursion on the budget itself, so no fuel is added; the decoder recurses on
-- counts and on the nesting depth that the format allows. The loop that draws a token is recursion on
-- the attempts that the code allows, 32.
--
-- Not modelled: the timer, the directory, the finalisation of a flow, the rest of the worker
-- threads, the JIT (its backend is a third-party package), printing and the command line.
pub mod Bytecode
pub mod Prelude
pub mod Scheduler
pub mod Tests
pub mod Vm
