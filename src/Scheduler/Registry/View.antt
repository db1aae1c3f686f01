-- ===== src/Scheduler/Registry/View.antt =====
-- What the registry promises: one entry for each name, and none for a flow that is gone.
use bytecode_vm.Prelude.{
  ℕ, ◌≡◌, refl, sym, ◌∙◌, ap, Bool, true, false, ◌||◌, Option, none, some, List, [], ◌∷◌, is_empty,
  if◌then◌else◌, arith,
}
use bytecode_vm.Prelude.Bytes.{same_bytes}
use bytecode_vm.Prelude.Maps.{
  nat_key, bytes_key, same_bytes_iff, get, is_some, contains_key, get-insert, get-remove,
}
use bytecode_vm.Scheduler.Registry.{
  RegistryName, Entry, Names, Registry, new, register_if, register, cap_of, flow_of, whereis,
  target, unregistered, unregister, forget, unregister_flow,
}
use bytecode_vm.Scheduler.Registry.Agree.{
  points_at, Agrees, register-Agrees, unregister-Agrees, get-remove_all, unregister_flow-Agrees,
}

-- What is asked of the registry: to enter a name, to take one out, and to forget a flow that exited.
pub data Command : Type 0 where
  enters : RegistryName → ℕ → ℕ → Command
  leaves : RegistryName → Command
  exits : ℕ → Command

unfoldable pub apply : Command → Registry → Registry
apply (enters name cap_id flow) t = (register name cap_id flow t).1
apply (leaves name) t = (unregister name t).1
apply (exits flow) t = unregister_flow flow t

unfoldable pub run : List Command → Registry → Registry
unfolding apply
run [] t = t
run (c ∷ cs) t = run cs (apply c t)

-- The registry that is promised: a function from names. It has no second map to search or to keep.
abbrev pub Promise : Type 0
Promise = RegistryName → Option Entry

unfoldable pub promised : Command → Promise → Promise
promised (enters name cap_id flow) p n =
    if is_empty name || is_some (p name)
    then p n
    else if same_bytes name n
    then some (record { cap = cap_id; flow = flow })
    else p n
promised (leaves name) p n = if same_bytes name n then none else p n
promised (exits flow) p n = if points_at flow (p n) then none else p n

unfoldable pub run_promised : List Command → Promise → Promise
unfolding promised
run_promised [] p = p
run_promised (c ∷ cs) p = run_promised cs (promised c p)

abbrev Keeps : Registry → Promise → Type 0
Keeps t p = (n : RegistryName) → get n t.by_name ≡ p n

enters-Keeps :
    (name : RegistryName) (cap_id flow : ℕ) (t : Registry) (p : Promise)
    → Keeps t p
    → Keeps (register name cap_id flow t).1 (promised (enters name cap_id flow) p)
unfolding register promised
enters-Keeps name cap_id flow t p k n =
    at_tests (is_empty name) (contains_key name t.by_name) refl (ap is_some (k name))
  where
    at_tests :
        (empty taken : Bool)
        → contains_key name t.by_name ≡ taken
        → contains_key name t.by_name ≡ is_some (p name)
        → get n (register_if empty taken name cap_id flow t).1.by_name ≡ (
            if empty || is_some (p name)
            then p n
            else if same_bytes name n
            then some (record { cap = cap_id; flow = flow })
            else p n)
    at_tests true taken e q = k n
    at_tests false true e q = rw (sym q ∙ e) (k n)
    at_tests false false e q =
        rw (sym q ∙ e, get-insert name n (record { cap = cap_id; flow = flow }) t.by_name, k n) refl

leaves-Keeps :
    (name : RegistryName) (t : Registry) (p : Promise)
    → Keeps t p
    → Keeps (unregister name t).1 (promised (leaves name) p)
unfolding unregister promised
leaves-Keeps name t p k n = at_entry (get name t.by_name) refl
  where
    at_entry :
        (o : Option Entry)
        → get name t.by_name ≡ o
        → get n (unregistered name o t).1.by_name ≡ (if same_bytes name n then none else p n)
    at_entry none e = ground (arith, k n, k name, e, same_bytes_iff name n)
    at_entry (some entry) e = rw (get-remove name n t.by_name, k n) refl

exits-Keeps :
    (flow : ℕ) (t : Registry) (p : Promise)
    → Agrees t
    → Keeps t p
    → Keeps (unregister_flow flow t) (promised (exits flow) p)
unfolding unregister_flow promised
exits-Keeps flow t p h k n = at_names (get flow t.by_flow) refl
  where
    at_names :
        (o : Option Names)
        → get flow t.by_flow ≡ o
        → get n (forget flow o t).by_name ≡ (if points_at flow (p n) then none else p n)
    at_names none e = ground (arith, k n, h flow n, e)
    at_names (some names) e =
        rw (get-remove_all n names t.by_name) (ground (arith, k n, h flow n, e))

apply-Agrees : (c : Command) (t : Registry) → Agrees t → Agrees (apply c t)
unfolding apply
apply-Agrees (enters name cap_id flow) t h = register-Agrees name cap_id flow t h
apply-Agrees (leaves name) t h = unregister-Agrees name t h
apply-Agrees (exits flow) t h = unregister_flow-Agrees flow t h

apply-Keeps :
    (c : Command) (t : Registry) (p : Promise)
    → Agrees t
    → Keeps t p
    → Keeps (apply c t) (promised c p)
unfolding apply
apply-Keeps (enters name cap_id flow) t p h k = enters-Keeps name cap_id flow t p k
apply-Keeps (leaves name) t p h k = leaves-Keeps name t p k
apply-Keeps (exits flow) t p h k = exits-Keeps flow t p h k

run-Keeps :
    (cs : List Command) (t : Registry) (p : Promise)
    → Agrees t
    → Keeps t p
    → Keeps (run cs t) (run_promised cs p)
unfolding run run_promised
run-Keeps [] t p h k = k
run-Keeps (c ∷ cs) t p h k =
    run-Keeps cs (apply c t) (promised c p) (apply-Agrees c t h) (apply-Keeps c t p h k)

-- After any commands on a new registry, it answers for each name what the promise gives: the last
-- registration that was accepted, with a name that is not empty and was free, if neither the name
-- was taken out nor its flow exited since.
pub run-promised :
    (cs : List Command) (name : RegistryName)
    → (whereis name (run cs new) ≡ cap_of (run_promised cs (λ n. none) name))
      × (target name (run cs new) ≡ flow_of (run_promised cs (λ n. none) name))
unfolding whereis target new get
run-promised cs name =
    let kept = run-Keeps cs new (λ n. none) (λ f n. refl) (λ n. refl) in
    (ap cap_of (kept name), ap flow_of (kept name))
