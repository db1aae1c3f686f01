-- ===== src/Scheduler/Link.antt =====
-- scheduler/link.rs: which flows go down together. The number of a new link is drawn from a counter
-- of the process, and is an argument. `LinkStore` is this table behind a lock; a poisoned lock is
-- not modelled.
pub mod Pairs
use bytecode_vm.Prelude.{
  ℕ, Bool, true, false, ◌&&◌, ◌||◌, ◌==◌, Option, none, some, List, [], ◌∷◌, if◌then◌else◌,
}
use bytecode_vm.Prelude.Maps.{nat_key, get, insert, remove, retain, is_some}
use bytecode_vm.Prelude.Result.{Result, ok, err}
use bytecode_vm.Scheduler.Error.{
  LifecycleError, not_owner, invalid_link, already_linked, self_relation,
}

pub record Link : Type 0 where
  pub a : ℕ
  pub b : ℕ

abbrev pub LinkTable : Type 0
LinkTable = List (ℕ × Link)

-- `(link.a == a && link.b == b) || (link.a == b && link.b == a)`
unfoldable pub joins : ℕ → ℕ → Link → Bool
joins a b l = l.a == a && l.b == b || l.a == b && l.b == a

unfoldable pub any_joins : ℕ → ℕ → LinkTable → Bool
unfolding joins
any_joins a b [] = false
any_joins a b ((id, l) ∷ t) = joins a b l || any_joins a b t

-- By whether the flow is its own peer, and whether the two are linked.
abbrev pub link_if : Bool → Bool → ℕ → ℕ → ℕ → LinkTable → Result LifecycleError ℕ × LinkTable
link_if true linked id a b t = (err self_relation, t)
link_if false true id a b t = (err already_linked, t)
link_if false false id a b t = (ok id, insert id (record { a = a; b = b }) t)

unfoldable pub link : ℕ → ℕ → ℕ → LinkTable → Result LifecycleError ℕ × LinkTable
unfolding any_joins
link id a b t = link_if (a == b) (any_joins a b t) id a b t

abbrev pub unlink_if :
    ℕ → ℕ → Option Link → LinkTable → Result LifecycleError (Unit {0}) × LinkTable
unlink_if owner id none t = (err invalid_link, t)
unlink_if owner id (some l) t =
    if l.a == owner || l.b == owner then (ok tt, remove id t) else (err not_owner, t)

unfoldable pub unlink_owned : ℕ → ℕ → LinkTable → Result LifecycleError (Unit {0}) × LinkTable
unlink_owned owner id t = unlink_if owner id (get id t) t

-- The other end of a link of a flow.
unfoldable pub peer_of : ℕ → Link → Option ℕ
peer_of target l = if l.a == target then some l.b else if l.b == target then some l.a else none

unfoldable pub is_apart : ℕ → ℕ → Link → Bool
unfolding peer_of
is_apart target _ l = elim (peer_of target l) [ none ↦ true | some peer ↦ false ]

abbrev pub push_peer : ℕ → Option ℕ → List (ℕ × ℕ) → List (ℕ × ℕ)
push_peer id none rest = rest
push_peer id (some peer) rest = (id, peer) ∷ rest

-- What `retain` pushes for the links that it drops.
unfoldable pub peers : ℕ → LinkTable → List (ℕ × ℕ)
unfolding peer_of
peers target [] = []
peers target ((id, l) ∷ t) = push_peer id (peer_of target l) (peers target t)

unfoldable pub remove_links_of : ℕ → LinkTable → List (ℕ × ℕ) × LinkTable
unfolding peers is_apart
remove_links_of target t = (peers target t, retain (is_apart target) t)
