-- ===== src/Scheduler/Registry/Agree.antt =====
-- The two maps of the registry agree: a flow has exactly the names that point at it.
use bytecode_vm.Prelude.{
  ℕ, ◌≡◌, refl, Bool, true, false, ◌||◌, ◌==◌, ==_iff, Option, none, some, List, [], ◌∷◌, ◌++◌,
  is_empty, if◌then◌else◌, arith,
}
use bytecode_vm.Prelude.Bytes.{same_bytes}
use bytecode_vm.Prelude.Maps.{
  nat_key, bytes_key, same_bytes_iff, get, insert, remove, contains_key, get-insert, get-remove,
}
use bytecode_vm.Scheduler.Registry.{
  RegistryName, Entry, Names, Registry, or_default, register_if, register, without, put_names,
  drop_name, unregistered, unregister, remove_all, forget, unregister_flow,
}

unfoldable pub mem : RegistryName → Names → Bool
mem name [] = false
mem name (n ∷ names) = same_bytes n name || mem name names

-- Whether a flow's list, if it has one, has a name; and whether an entry, if there is one, points at
-- a flow.
abbrev pub lists : RegistryName → Option Names → Bool
lists name none = false
lists name (some names) = mem name names

abbrev pub points_at : ℕ → Option Entry → Bool
points_at flow none = false
points_at flow (some entry) = entry.flow == flow

abbrev pub Agrees : Registry → Type 0
Agrees t =
    (flow : ℕ) (name : RegistryName)
    → lists name (get flow t.by_flow) ≡ points_at flow (get name t.by_name)

mem-snoc :
    (name n : RegistryName) (names : Names)
    → mem name (names ++ n ∷ []) ≡ (mem name names || same_bytes n name)
unfolding mem
mem-snoc name n [] = ground arith
mem-snoc name n (m ∷ names) = ground (arith, mem-snoc name n names)

mem-without :
    (name key : RegistryName) (names : Names)
    → mem name (without key names) ≡ (if same_bytes key name then false else mem name names)
unfolding mem without
mem-without name key [] = ground arith
mem-without name key (n ∷ names) = ground (
  arith,
  mem-without name key names,
  same_bytes_iff n key,
  same_bytes_iff n name,
  same_bytes_iff key name,
)

lists-or_default : (name : RegistryName) (o : Option Names) → lists name o ≡ mem name (or_default o)
unfolding mem
lists-or_default name none = refl
lists-or_default name (some names) = refl

registered :
    (name : RegistryName) (cap flow : ℕ) (t : Registry)
    → contains_key name t.by_name ≡ false
    → Agrees t
    → Agrees (record {
      by_name = insert name (record { cap = cap; flow = flow }) t.by_name;
      by_flow = insert flow (or_default (get flow t.by_flow) ++ name ∷ []) t.by_flow;
    })
registered name cap flow t new_name h f n =
    rw
      (
        get-insert flow f (or_default (get flow t.by_flow) ++ name ∷ []) t.by_flow,
        get-insert name n (record { cap = cap; flow = flow }) t.by_name,
      )
      (at_keys (flow == f) (same_bytes name n) refl refl)
  where
    at_keys :
        (same_flow same_name : Bool)
        → flow == f ≡ same_flow
        → same_bytes name n ≡ same_name
        → lists n (
            if same_flow
            then some (or_default (get flow t.by_flow) ++ name ∷ [])
            else get f t.by_flow)
          ≡ points_at f
              (if same_name then some (record { cap = cap; flow = flow }) else get n t.by_name)
    at_keys true true e k = ground (arith, mem-snoc n name (or_default (get flow t.by_flow)), e, k)
    at_keys true false e k = ground (
      arith,
      mem-snoc n name (or_default (get flow t.by_flow)),
      lists-or_default n (get flow t.by_flow),
      h flow n,
      e,
      k,
      ==_iff flow f,
    )
    at_keys false true e k = ground (arith, h f n, new_name, e, same_bytes_iff name n)
    at_keys false false e k = h f n

pub register-Agrees :
    (name : RegistryName) (cap_id flow : ℕ) (t : Registry)
    → Agrees t
    → Agrees (register name cap_id flow t).1
unfolding register
register-Agrees name cap_id flow t h = at_tests (is_empty name) (contains_key name t.by_name) refl
  where
    at_tests :
        (empty taken : Bool)
        → contains_key name t.by_name ≡ taken
        → Agrees (register_if empty taken name cap_id flow t).1
    at_tests true taken e = h
    at_tests false true e = h
    at_tests false false e = registered name cap_id flow t e h

empty_mem : (name : RegistryName) (names : Names) → is_empty names ≡ true → mem name names ≡ false
unfolding mem
empty_mem name [] h = refl
empty_mem name (n ∷ names) h = cc

lists-put_names :
    (n : RegistryName) (flow f : ℕ) (names : Names) (by_flow : List (ℕ × Names))
    → lists n (get f (put_names flow names by_flow))
      ≡ (if flow == f then mem n names else lists n (get f by_flow))
unfolding mem
lists-put_names n flow f [] by_flow = rw (get-remove flow f by_flow) (ground arith)
lists-put_names n flow f (m ∷ names) by_flow =
    rw (get-insert flow f (m ∷ names) by_flow) (ground arith)

pub unregister-Agrees :
    (name : RegistryName) (t : Registry) → Agrees t → Agrees (unregister name t).1
unfolding unregister
unregister-Agrees name t h = at_entry (get name t.by_name) refl
  where
    at_names :
        (entry : Entry) (o : Option Names)
        → get name t.by_name ≡ some entry
        → get entry.flow t.by_flow ≡ o
        → Agrees (record {
          by_name = remove name t.by_name;
          by_flow = drop_name name entry.flow o t.by_flow;
        })
    at_names entry none e k f n =
        cc (h entry.flow name, e, k, (==_iff entry.flow entry.flow).1 refl)
    at_names entry (some names) e k f n =
        rw
          (
            lists-put_names n entry.flow f (without name names) t.by_flow,
            mem-without n name names,
            get-remove name n t.by_name,
          )
          (ground (arith, h f n, h entry.flow n, e, k, same_bytes_iff name n, ==_iff entry.flow f))

    at_entry : (o : Option Entry) → get name t.by_name ≡ o → Agrees (unregistered name o t).1
    at_entry none e = h
    at_entry (some entry) e = at_names entry (get entry.flow t.by_flow) e refl

pub get-remove_all :
    (n : RegistryName) (names : Names) (by_name : List (RegistryName × Entry))
    → get n (remove_all names by_name) ≡ (if mem n names then none else get n by_name)
unfolding remove_all mem
get-remove_all n [] by_name = refl
get-remove_all n (m ∷ names) by_name =
    ground (arith, get-remove_all n names (remove m by_name), get-remove m n by_name)

pub unregister_flow-Agrees : (flow : ℕ) (t : Registry) → Agrees t → Agrees (unregister_flow flow t)
unfolding unregister_flow
unregister_flow-Agrees flow t h = at_names (get flow t.by_flow) refl
  where
    at_names : (o : Option Names) → get flow t.by_flow ≡ o → Agrees (forget flow o t)
    at_names none e f n = h f n
    at_names (some names) e f n =
        rw (get-remove flow f t.by_flow, get-remove_all n names t.by_name)
          (ground (arith, h f n, h flow n, e, ==_iff flow f))
