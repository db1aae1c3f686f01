-- ===== src/Scheduler/Registry.antt =====
-- scheduler/registry.rs: names for flows. A name is its bytes. `RegistryStore` is this table behind
-- a lock; a poisoned lock is not modelled.
pub mod Agree
pub mod View
use bytecode_vm.Prelude.{
  ℕ, Bool, true, false, not, Option, none, some, List, [], ◌∷◌, ◌++◌, is_empty, if◌then◌else◌,
}
use bytecode_vm.Prelude.Bytes.{same_bytes}
use bytecode_vm.Prelude.Maps.{nat_key, bytes_key, get, insert, remove, contains_key}
use bytecode_vm.Prelude.Result.{Result, ok, err}
use bytecode_vm.Scheduler.Error.{LifecycleError, already_registered, empty_name}

abbrev pub RegistryName : Type 0
RegistryName = List ℕ

pub record Entry : Type 0 where
  pub cap : ℕ
  pub flow : ℕ

abbrev pub Names : Type 0
Names = List RegistryName

pub record Registry : Type 0 where
  pub by_name : List (RegistryName × Entry)
  pub by_flow : List (ℕ × Names)

unfoldable pub new : Registry
new = record { by_name = []; by_flow = [] }

abbrev pub or_default : Option Names → Names
or_default none = []
or_default (some names) = names

-- By whether the name is empty, and whether it is taken.
abbrev pub register_if :
    Bool → Bool → RegistryName → ℕ → ℕ → Registry → Result LifecycleError (Unit {0}) × Registry
register_if true taken name cap flow t = (err empty_name, t)
register_if false true name cap flow t = (err already_registered, t)
register_if false false name cap flow t = (
  ok tt,
  record {
    by_name = insert name (record { cap = cap; flow = flow }) t.by_name;
    by_flow = insert flow (or_default (get flow t.by_flow) ++ name ∷ []) t.by_flow;
  },
)

unfoldable pub register :
    RegistryName → ℕ → ℕ → Registry → Result LifecycleError (Unit {0}) × Registry
register name cap flow t = register_if (is_empty name) (contains_key name t.by_name) name cap flow t

abbrev pub cap_of : Option Entry → Option ℕ
cap_of none = none
cap_of (some entry) = some entry.cap

abbrev pub flow_of : Option Entry → Option ℕ
flow_of none = none
flow_of (some entry) = some entry.flow

unfoldable pub whereis : RegistryName → Registry → Option ℕ
whereis name t = cap_of (get name t.by_name)

unfoldable pub target : RegistryName → Registry → Option ℕ
target name t = flow_of (get name t.by_name)

-- `names.retain(|n| n != &key)`
unfoldable pub without : RegistryName → Names → Names
without key [] = []
without key (n ∷ names) =
    let rest = without key names in if same_bytes n key then rest else n ∷ rest

-- The names of a flow without one; a flow with no name left has no entry.
abbrev pub put_names : ℕ → Names → List (ℕ × Names) → List (ℕ × Names)
put_names flow names by_flow =
    if is_empty names then remove flow by_flow else insert flow names by_flow

abbrev pub drop_name : RegistryName → ℕ → Option Names → List (ℕ × Names) → List (ℕ × Names)
drop_name key flow none by_flow = by_flow
drop_name key flow (some names) by_flow = put_names flow (without key names) by_flow

abbrev pub unregistered : RegistryName → Option Entry → Registry → Bool × Registry
unregistered key none t = (false, t)
unregistered key (some entry) t = (
  true,
  record {
    by_name = remove key t.by_name;
    by_flow = drop_name key entry.flow (get entry.flow t.by_flow) t.by_flow;
  },
)

unfoldable pub unregister : RegistryName → Registry → Bool × Registry
unfolding without
unregister name t = unregistered name (get name t.by_name) t

unfoldable pub remove_all : Names → List (RegistryName × Entry) → List (RegistryName × Entry)
remove_all [] by_name = by_name
remove_all (name ∷ names) by_name = remove_all names (remove name by_name)

abbrev pub forget : ℕ → Option Names → Registry → Registry
forget flow none t = t
forget flow (some names) t = record {
  by_name = remove_all names t.by_name;
  by_flow = remove flow t.by_flow;
}

unfoldable pub unregister_flow : ℕ → Registry → Registry
unfolding remove_all
unregister_flow flow t = forget flow (get flow t.by_flow) t
