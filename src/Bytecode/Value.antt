-- ===== src/Bytecode/Value.antt =====
-- bytecode/value.rs: dynamically tagged values and Atomic Hop envelopes.
--
-- Words are bit patterns: an `i64` or an `f64` is a number below 2 ^ 64, a CapId one below 2 ^ 128.
-- A string or byte buffer is the list of its bytes. `Arc` sharing is not part of a value.
use bytecode_vm.Prelude.{
  ℕ, ◌+◌, Option, none, some, Bool, true, false, List, ◌==◌, not, if◌then◌else◌, length, is_empty,
}
use Prim.Native.String.{String}

-- The envelope of a message, without its payload.
pub record Header : Type 0 where
  pub sender : ℕ
  pub reply_cap : ℕ
  pub request_id : ℕ
  pub tag : ℕ

-- A `Message` is a header with a payload.
pub data Value : Type 0 where
  unit : Value
  bool : Bool → Value
  int : ℕ → Value
  float : ℕ → Value
  pid : ℕ → Value
  message : Header → Value → Value
  cap : ℕ → Value
  str : List ℕ → Value
  bytes : List ℕ → Value

abbrev pub Message : Type 0
Message = Header × Value

abbrev pub cap_id_none : ℕ
cap_id_none = 0

abbrev pub tag_sys_down : ℕ
tag_sys_down = 0xff01

abbrev pub tag_sys_exit : ℕ
tag_sys_exit = 0xff02

-- `Message::new`: no reply capability yet.
unfoldable pub new : ℕ → ℕ → ℕ → Value → Message
new sender request_id tag payload = (
  record { sender = sender; reply_cap = cap_id_none; request_id = request_id; tag = tag },
  payload,
)

unfoldable pub request : ℕ → ℕ → Value → Message
unfolding new
request request_id tag payload = new 0 request_id tag payload

unfoldable pub reply_to : Message → ℕ → Value → Message
unfolding new
reply_to req tag payload = new 0 (req.0).request_id tag payload

-- `reason as i64` keeps the pattern.
unfoldable pub down : ℕ → ℕ → ℕ → Message
unfolding new
down monitor target_flow reason = new target_flow monitor tag_sys_down (int reason)

unfoldable pub linked_exit : ℕ → ℕ → Message
unfolding new
linked_exit target_flow reason = new target_flow 0 tag_sys_exit (int reason)

unfoldable pub is_down : Message → Bool
is_down m = (m.0).tag == tag_sys_down

unfoldable pub is_exit : Message → Bool
is_exit m = (m.0).tag == tag_sys_exit

-- The scheduler stamps the origin and the reply capability.
unfoldable pub authenticate : Message → ℕ → ℕ → Message
authenticate m sender reply_cap = (record (m.0) { sender = sender; reply_cap = reply_cap }, m.1)

unfoldable pub is_truthy : Value → Bool
is_truthy unit = false
is_truthy (bool b) = b
is_truthy (int i) = not (i == 0)
is_truthy (str s) = not (is_empty s)
is_truthy (bytes b) = not (is_empty b)
is_truthy _ = true

unfoldable pub as_int : Value → Option ℕ
as_int (int i) = some i
as_int (bool b) = some (if b then 1 else 0)
as_int _ = none

unfoldable pub as_pid : Value → Option ℕ
as_pid (pid p) = some p
as_pid _ = none

unfoldable pub as_cap : Value → Option ℕ
as_cap (cap c) = some c
as_cap _ = none

unfoldable pub as_message : Value → Option Message
as_message (message h p) = some (h, p)
as_message _ = none

unfoldable pub as_str : Value → Option (List ℕ)
as_str (str s) = some s
as_str _ = none

unfoldable pub as_bytes : Value → Option (List ℕ)
as_bytes (bytes b) = some b
as_bytes (str s) = some s
as_bytes _ = none

unfoldable pub type_name : Value → String
type_name unit = "unit"
type_name (bool _) = "bool"
type_name (int _) = "int"
type_name (float _) = "float"
type_name (pid _) = "pid"
type_name (message _ _) = "message"
type_name (cap _) = "cap"
type_name (str _) = "str"
type_name (bytes _) = "bytes"

-- `size` is `size_of::<Value>()`, which the compiler's layout decides.
module _ (size : ℕ) where
  -- The buffers that a value owns, through nested payloads.
  unfoldable pub heap_size : Value → ℕ
  heap_size (str s) = length s
  heap_size (bytes b) = length b
  heap_size (message h p) = size + heap_size p
  heap_size _ = 0

  -- What a mailbox is charged for the value.
  unfoldable pub memory_size : Value → ℕ
  memory_size v = size + heap_size v
