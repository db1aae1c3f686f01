-- ===== src/Scheduler/Spawn/Confined.antt =====
-- A child's authority is its parent's, or less.
use bytecode_vm.Prelude.{ℕ, ◌≡◌, refl, Bool, true, false, Option, subst, min, ==_iff}
use bytecode_vm.Prelude.Bits.{bit}
use bytecode_vm.Prelude.Int.{ℤ}
use bytecode_vm.Prelude.Result.{Result, ok, err, ◌>>◌, ensure}
use bytecode_vm.Bytecode.Cap.{
  NativeMask, Cap, flow, contains, root, is_valid, attenuate, spawn_right,
}
use bytecode_vm.Bytecode.Cap.Attenuate.{permits, attenuate_lem}
use bytecode_vm.Scheduler.Quota.{QuotaError, FlowQuota, check_spawn}
use bytecode_vm.Scheduler.Spawn.{
  source_cap_revoked, missing_spawn_right, child_cap, rate_checked, refused_or,
  exec_spawn_authority,
}

-- What a child's capability may be, of its parent's.
pub record IsBornConfined (parent child : Cap) (id rights child_cell : ℕ) : Type 0 where
  pub is_for_child : child.target ≡ flow id
  pub is_live : is_valid child child_cell ≡ true
  pub has_rights : (i : ℕ) → bit child.rights i ≡ min (bit parent.rights i) (bit rights i)
  pub has_natives :
      (idx : ℕ) → permits child.native_mask idx ≡ true → permits parent.native_mask idx ≡ true

child_cap-IsBornConfined :
    (parent : Cap) (id rights : ℕ) (native : Option NativeMask) (child_cell : ℕ)
    → IsBornConfined parent (child_cap parent id rights native child_cell) id rights child_cell
unfolding child_cap root is_valid attenuate
child_cap-IsBornConfined parent id rights native child_cell =
    let (target, epoch, same_rights, natives) = attenuate_lem parent rights native in
    record {
      is_for_child = refl;
      is_live = (==_iff child_cell child_cell).1 refl;
      has_rights = same_rights;
      has_natives = λ idx h. (natives idx h).0;
    }

checks-eq-ok :
    (live able : Bool) (q q' : FlowQuota) (child given : Cap)
    (r : Result QuotaError (Unit {0}) × FlowQuota)
    → refused_or
        (ensure live source_cap_revoked >> ensure able missing_spawn_right)
        q
        (rate_checked child r)
      ≡ (ok given, q')
    → (live ≡ true) × (able ≡ true) × (r ≡ (ok tt, q')) × (child ≡ given)
checks-eq-ok true true q q' child given (ok u, after) h = (refl, refl, cc, cc)
checks-eq-ok true true q q' child given (err e, after) h = cc
checks-eq-ok true false q q' child given r h = cc
checks-eq-ok false able q q' child given r h = cc

-- A spawn that is granted has a live parent with the spawn right and took a token of its bucket;
-- the child's capability is for the child and live at its cell, has the rights that both the parent
-- and the request have, and permits no native that the parent does not.
pub exec_spawn_authority-eq-ok :
    (grow : ℕ → ℤ → ℤ) (now : ℕ) (parent : Cap) (cell : ℕ) (q q' : FlowQuota) (id rights : ℕ)
    (native : Option NativeMask) (child_cell : ℕ) (child : Cap)
    → exec_spawn_authority grow now parent cell q id rights native child_cell ≡ (ok child, q')
    → (is_valid parent cell ≡ true)
      × (contains parent.rights spawn_right ≡ true)
      × (check_spawn grow now q ≡ (ok tt, q'))
      × IsBornConfined parent child id rights child_cell
unfolding exec_spawn_authority
exec_spawn_authority-eq-ok grow now parent cell q q' id rights native child_cell child h =
    let (live, able, paid, same) =
      checks-eq-ok (is_valid parent cell) (contains parent.rights spawn_right) q q'
        (child_cap parent id rights native child_cell) child (check_spawn grow now q) h in
    (
      live,
      able,
      paid,
      subst (λ c. IsBornConfined parent c id rights child_cell) same
          (child_cap-IsBornConfined parent id rights native child_cell),
    )
