-- ===== src/Bytecode/Opcode.antt =====
-- bytecode/opcode.rs: the instruction set, and its stable one-byte codes.
use bytecode_vm.Prelude.{
  ℕ, ◌<◌, ◌≡◌, refl, Option, none, some, Bool, true, arith, ◌==◌, if◌then◌else◌, ◌&&◌, zero, suc,
}

pub data Opcode : Type 0 where
  halt load_const move load_imm add sub mul : Opcode
  div modulo neg eq lt le jump : Opcode
  branch call return call_native spawn yield sleep : Opcode
  exit self_pid send receive receive_timeout receive_match receive_match_imm : Opcode
  ask monitor demonitor link unlink ask_timeout delegate : Opcode
  fresh_request_id receive_match_corr receive_match_corr_imm trap register_name whereis nop : Opcode

-- `self as u8`: the discriminants of the enum.
unfoldable pub as_u8 : Opcode → ℕ
as_u8 halt = 0x00
as_u8 load_const = 0x01
as_u8 move = 0x02
as_u8 load_imm = 0x03
as_u8 add = 0x10
as_u8 sub = 0x11
as_u8 mul = 0x12
as_u8 div = 0x13
as_u8 modulo = 0x14
as_u8 neg = 0x15
as_u8 eq = 0x18
as_u8 lt = 0x19
as_u8 le = 0x1a
as_u8 jump = 0x20
as_u8 branch = 0x21
as_u8 call = 0x30
as_u8 return = 0x31
as_u8 call_native = 0x32
as_u8 spawn = 0x40
as_u8 yield = 0x41
as_u8 sleep = 0x42
as_u8 exit = 0x43
as_u8 self_pid = 0x44
as_u8 send = 0x50
as_u8 receive = 0x51
as_u8 receive_timeout = 0x52
as_u8 receive_match = 0x53
as_u8 receive_match_imm = 0x54
as_u8 ask = 0x55
as_u8 monitor = 0x56
as_u8 demonitor = 0x57
as_u8 link = 0x58
as_u8 unlink = 0x59
as_u8 ask_timeout = 0x5a
as_u8 delegate = 0x5b
as_u8 fresh_request_id = 0x5c
as_u8 receive_match_corr = 0x5d
as_u8 receive_match_corr_imm = 0x5e
as_u8 trap = 0x60
as_u8 register_name = 0x62
as_u8 whereis = 0x63
as_u8 nop = 0x61

-- A byte outside the instruction set gives `none`.
unfoldable pub from_u8 : ℕ → Option Opcode
from_u8 byte =
    if byte == 0x00
    then some halt
    else if byte == 0x01
    then some load_const
    else if byte == 0x02
    then some move
    else if byte == 0x03
    then some load_imm
    else if byte == 0x10
    then some add
    else if byte == 0x11
    then some sub
    else if byte == 0x12
    then some mul
    else if byte == 0x13
    then some div
    else if byte == 0x14
    then some modulo
    else if byte == 0x15
    then some neg
    else if byte == 0x18
    then some eq
    else if byte == 0x19
    then some lt
    else if byte == 0x1a
    then some le
    else if byte == 0x20
    then some jump
    else if byte == 0x21
    then some branch
    else if byte == 0x30
    then some call
    else if byte == 0x31
    then some return
    else if byte == 0x32
    then some call_native
    else if byte == 0x40
    then some spawn
    else if byte == 0x41
    then some yield
    else if byte == 0x42
    then some sleep
    else if byte == 0x43
    then some exit
    else if byte == 0x44
    then some self_pid
    else if byte == 0x50
    then some send
    else if byte == 0x51
    then some receive
    else if byte == 0x52
    then some receive_timeout
    else if byte == 0x53
    then some receive_match
    else if byte == 0x54
    then some receive_match_imm
    else if byte == 0x55
    then some ask
    else if byte == 0x56
    then some monitor
    else if byte == 0x57
    then some demonitor
    else if byte == 0x58
    then some link
    else if byte == 0x59
    then some unlink
    else if byte == 0x5a
    then some ask_timeout
    else if byte == 0x5b
    then some delegate
    else if byte == 0x5c
    then some fresh_request_id
    else if byte == 0x5d
    then some receive_match_corr
    else if byte == 0x5e
    then some receive_match_corr_imm
    else if byte == 0x60
    then some trap
    else if byte == 0x62
    then some register_name
    else if byte == 0x63
    then some whereis
    else if byte == 0x61
    then some nop
    else none

pub as_u8-lt : (op : Opcode) → as_u8 op < 256
unfolding as_u8
as_u8-lt halt = omega arith
as_u8-lt _ = omega arith

-- Every opcode is decoded from its byte.
pub from_u8-as_u8 : (op : Opcode) → from_u8 (as_u8 op) ≡ some op
unfolding as_u8 from_u8
from_u8-as_u8 halt = refl
from_u8-as_u8 _ = refl

-- whether `from_u8` answers with an opcode whose code is the byte
is_exact : ℕ → Bool
unfolding from_u8 as_u8
is_exact byte = elim (from_u8 byte) [ none ↦ true | some op ↦ as_u8 op == byte ]

all_exact : ℕ → Bool
all_exact zero = true
all_exact (suc n) = is_exact n && all_exact n

all_exact_lem : (n byte : ℕ) → all_exact n ≡ true → byte < n → is_exact byte ≡ true
unfolding all_exact
all_exact_lem zero byte h below = absurd (omega arith)
all_exact_lem (suc n) byte h below = ground (arith, all_exact_lem n byte)

all_exact_256 : all_exact 256 ≡ true
unfolding all_exact is_exact
all_exact_256 = refl

-- A byte that decodes to an opcode is that opcode's byte.
as_u8-from_u8 : (byte : ℕ) (op : Opcode) → byte < 256 → from_u8 byte ≡ some op → as_u8 op ≡ byte
unfolding is_exact
as_u8-from_u8 byte op h e = ground (arith, all_exact_lem 256 byte all_exact_256 h)
