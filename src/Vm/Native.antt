-- ===== src/Vm/Native.antt =====
-- vm/native.rs: the table of host functions, its builder, and the gate before each call.
--
-- A host function is a parameter: a function from the arguments to a value or a fault. A gate's
-- two revocation counters are shared; the model's gate holds their current values.
use bytecode_vm.Prelude.{
  ℕ, suc, ◌+◌, ◌-◌, Bool, true, false, Option, none, some, List, [], ◌∷◌, ◌++◌, length, get_elem?,
  set, replicate, ltb, leb, ◌==◌, ◌&&◌, if◌then◌else◌,
}
use bytecode_vm.Prelude.Bytes.{same_bytes}
use bytecode_vm.Prelude.Result.{Result, ok, ensure, ◌>>◌}
use bytecode_vm.Bytecode.Value.{Value}
use bytecode_vm.Bytecode.Cap.{NativeMask, Cap, allows, contains, native_right, empty}
use bytecode_vm.Vm.Fault.{
  Fault, NativeCallError, no_native_right, index_not_allowlisted, index_out_of_range, revoked,
}

abbrev pub NativeFn : Type 0
NativeFn = List Value → Result Fault Value

-- A slot is empty, or has a name and a function.
abbrev pub NativeTable : Type 0
NativeTable = List (Option (List ℕ × NativeFn))

unfoldable pub get : NativeTable → ℕ → Option NativeFn
get table index = elim (get_elem? table index) [ some (some (_, f)) ↦ some f | _ ↦ none ]

-- The first slot of that name, counted from `i`.
unfoldable pub index_from : NativeTable → List ℕ → ℕ → Option ℕ
index_from [] name i = none
index_from (some (n, f) ∷ table) name i =
    if same_bytes n name then some i else index_from table name (suc i)
index_from (none ∷ table) name i = index_from table name (suc i)

unfoldable pub index_of : NativeTable → List ℕ → Option ℕ
unfolding index_from
index_of table name = index_from table name 0

pub data NativeTableError : Type 0 where
  duplicate_name : List ℕ → NativeTableError
  slot_occupied : ℕ → List ℕ → NativeTableError

unfoldable pub has_name : NativeTable → List ℕ → Bool
has_name [] name = false
has_name (some (n, f) ∷ table) name = if same_bytes n name then true else has_name table name
has_name (none ∷ table) name = has_name table name

-- `resize_with(index + 1, || None)`, which only ever grows the table here.
unfoldable pub grow : NativeTable → ℕ → NativeTable
grow table n = table ++ replicate (n - length table) none

unfoldable pub is_free : NativeTable → ℕ → Bool
is_free table index = elim (get_elem? table index) [ some (some _) ↦ false | _ ↦ true ]

unfoldable pub register_at :
    NativeTable → ℕ → List ℕ → NativeFn → Result NativeTableError NativeTable
unfolding has_name grow is_free
register_at entries index name f = do
  ensure (if has_name entries name then false else true) (duplicate_name name)
  let entries' = if leb (length entries) index then grow entries (index + 1) else entries
  ensure (is_free entries' index) (slot_occupied index name)
  ok (set entries' index (some (name, f)))

unfoldable pub register : NativeTable → List ℕ → NativeFn → Result NativeTableError NativeTable
unfolding register_at
register entries name f = register_at entries (length entries) name f

pub record NativeGate : Type 0 where
  pub has_native : Bool
  pub mask : NativeMask
  pub authority_epoch : ℕ
  pub flow_cell : ℕ
  pub native_epoch : ℕ
  pub native_cell : ℕ

unfoldable pub deny : ℕ → NativeGate
unfolding empty
deny native_count = record {
  has_native = false;
  mask = empty native_count;
  authority_epoch = 0;
  flow_cell = 0;
  native_epoch = 0;
  native_cell = 0;
}

unfoldable pub from_authority : Cap → ℕ → ℕ → ℕ → NativeGate
unfolding empty contains
from_authority cap flow_cell native_cell native_count = record {
  has_native = contains cap.rights native_right;
  mask = elim cap.native_mask [ some m ↦ m | none ↦ empty native_count ];
  authority_epoch = cap.epoch;
  flow_cell = flow_cell;
  native_epoch = native_cell;
  native_cell = native_cell;
}

unfoldable pub is_live : NativeGate → Bool
is_live gate = gate.flow_cell == gate.authority_epoch && gate.native_cell == gate.native_epoch

unfoldable pub check_native_call : Cap → NativeTable → ℕ → Result NativeCallError (Unit {0})
check_native_call cap table idx = do
  ensure (ltb idx (length table)) (index_out_of_range idx)
  ensure (contains cap.rights native_right) no_native_right
  ensure (elim cap.native_mask [ some mask ↦ allows mask idx | none ↦ false ])
      (index_not_allowlisted idx)

unfoldable pub check_native_gate : NativeGate → NativeTable → ℕ → Result NativeCallError (Unit {0})
unfolding is_live
check_native_gate gate table idx = do
  ensure (ltb idx (length table)) (index_out_of_range idx)
  ensure (is_live gate) revoked
  ensure gate.has_native no_native_right
  ensure (allows gate.mask idx) (index_not_allowlisted idx)
